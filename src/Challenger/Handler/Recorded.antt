-- ===== src/Challenger/Handler/Recorded.antt =====
-- What the loop leaves in the store.
use opinit_bots.Base.{
  ◌≡◌, refl, ap, ◌∙◌, sym, Bool, true, false, none, some, List, [], ◌∷◌, ◌++◌, if◌then◌else◌, ◌⊎◌,
  inl, inr, arith, ltb, ◌-◌, Bool-cases, Option-cases,
}
use opinit_bots.Base.Bytes.{bytes_equal}
use opinit_bots.Base.Result.{ok, err, Result-cases}
use opinit_bots.Db.{Bytes, DbError, not_found, Json}
use opinit_bots.Db.Basic.{of_stage}
use opinit_bots.Db.Level.{Level, LevelLaws, LevelDb, level_get, found, prefixed_key}
use opinit_bots.Db.Stage.{Stage, new_stage, commit, reset, stage_set, stage_delete}
use opinit_bots.Db.Stage.Commit.{Edit, set, remove, edit, edits, level_get-commit}
use opinit_bots.Challenger.Event.{Challenge}
use opinit_bots.Challenger.Keys.{prefixed_pending_challenge, prefixed_challenge}
use opinit_bots.Challenger.Latest.{insert_latest_challenges}
use opinit_bots.Challenger.Records.{
  RecordError, db_failed, marshal_failed, panic, unix_epoch, save_challenge,
  delete_pending_challenge,
}
use opinit_bots.Challenger.Handler.{Challenger, take_challenge, moved, report_challenge}

abbrev pub key_of : Challenge → Bytes
key_of challenge = prefixed_challenge (challenge.time - unix_epoch) challenge.id

module _ {L : Type 0} (level : Level L) (laws : LevelLaws level) (json : Json Challenge) where
  -- The stage keys by the prefix of the store that it writes to.
  abbrev pub IsOwn : Challenger L → Type 0
  IsOwn c = c.stage.key_handle ≡ c.stage.parent

  -- The challenge has been moved from the pending ones to the others, and nothing else has changed.
  pub record IsRecorded (challenge : Challenge) (c c' : Challenger L) : Type 0 where
    pub value : Bytes
    pub marshalled : json.marshal challenge ≡ some value
    pub read :
        (k : Bytes)
        → level_get level c'.stage.parent k ≡ (
            if bytes_equal (key_of challenge) k
            then ok value
            else if bytes_equal (prefixed_pending_challenge challenge.id) k
            then err not_found
            else level_get level c.stage.parent k)
    pub latest : c'.latest_challenges ≡ insert_latest_challenges challenge c.latest_challenges
    pub reported : c'.reported ≡ c.reported ++ challenge ∷ []
    pub own : IsOwn c'

  pub record IsUntouched (c c' : Challenger L) : Type 0 where
    pub store : c'.stage.parent ≡ c.stage.parent
    pub latest : c'.latest_challenges ≡ c.latest_challenges

  edits_of : Challenge → Bytes → List Edit
  edits_of challenge value =
      remove (prefixed_pending_challenge challenge.id) ∷ set (key_of challenge) value ∷ []

  commit-read :
      (challenge : Challenge) (value : Bytes) (parent : LevelDb L) (l : L)
      → commit level (edits (edits_of challenge value) (new_stage parent)) ≡ ok l
      → (k : Bytes)
      → level_get level (record parent { db = l }) k ≡ (
          if bytes_equal (key_of challenge) k
          then ok value
          else if bytes_equal (prefixed_pending_challenge challenge.id) k
          then err not_found
          else level_get level parent k)
  unfolding level_get edits_of
  commit-read challenge value parent l run k =
      level_get-commit level laws parent k (edits_of challenge value) l run
      ∙ shown (bytes_equal (key_of challenge) k)
          (bytes_equal (prefixed_pending_challenge challenge.id) k)
    where
      shown :
          (a b : Bool)
          → found (
              if a
              then some value
              else if b
              then none
              else level.held parent.db (prefixed_key parent k))
            ≡ (if a
                then ok value
                else if b
                then err not_found
                else found (level.held parent.db (prefixed_key parent k)))
      shown true b = refl
      shown false true = refl
      shown false false = refl

  -- The stage before the commit.
  staged : Challenge → Bytes → Challenger L → Stage L
  staged challenge value c = edits (edits_of challenge value) (reset c.stage)

  take_challenge-ok :
      (challenge : Challenge) (value : Bytes) (c : Challenger L) (l : L)
      → json.marshal challenge ≡ some value
      → ltb challenge.time unix_epoch ≡ false
      → commit level (staged challenge value c) ≡ ok l
      → take_challenge level json challenge c ≡ (
        ok tt,
        record {
          stage = moved l (staged challenge value c);
          latest_challenges = insert_latest_challenges challenge c.latest_challenges;
          reported = c.reported ++ challenge ∷ [];
        },
      )
  unfolding take_challenge report_challenge delete_pending_challenge save_challenge staged edits_of
      edits edit of_stage
  take_challenge-ok challenge value c l marshalled late run = ground arith

  take_challenge-commit_failed :
      (challenge : Challenge) (value : Bytes) (c : Challenger L) (e : DbError)
      → json.marshal challenge ≡ some value
      → ltb challenge.time unix_epoch ≡ false
      → commit level (staged challenge value c) ≡ err e
      → take_challenge level json challenge c ≡ (
        err (db_failed e),
        record c { stage = staged challenge value c; reported = c.reported ++ challenge ∷ [] },
      )
  unfolding take_challenge report_challenge delete_pending_challenge save_challenge staged edits_of
      edits edit of_stage
  take_challenge-commit_failed challenge value c e marshalled late run = ground arith

  -- Edits keep the handles of a stage.
  kept :
      (challenge : Challenge) (value : Bytes) (c : Challenger L)
      → (staged challenge value c).parent ≡ c.stage.parent
  unfolding staged edits edit edits_of reset stage_set stage_delete
  kept challenge value c = refl

  handle_kept :
      (challenge : Challenge) (value : Bytes) (c : Challenger L)
      → (staged challenge value c).key_handle ≡ c.stage.key_handle
  unfolding staged edits edit edits_of reset stage_set stage_delete
  handle_kept challenge value c = refl

  moved-IsOwn :
      (challenge : Challenge) (value : Bytes) (c : Challenger L) (l : L)
      → IsOwn c
      → (moved l (staged challenge value c)).key_handle
        ≡ (moved l (staged challenge value c)).parent
  moved-IsOwn challenge value c l own =
      ap (λ (d : LevelDb L). record d { db = l })
        (handle_kept challenge value c ∙ own ∙ sym (kept challenge value c))

  moved-read :
      (challenge : Challenge) (value : Bytes) (c : Challenger L) (l : L)
      → IsOwn c
      → commit level (staged challenge value c) ≡ ok l
      → (k : Bytes)
      → level_get level (moved l (staged challenge value c)).parent k ≡ (
          if bytes_equal (key_of challenge) k
          then ok value
          else if bytes_equal (prefixed_pending_challenge challenge.id) k
          then err not_found
          else level_get level c.stage.parent k)
  unfolding staged reset new_stage
  moved-read challenge value c l own run k =
      let fresh : commit level (edits (edits_of challenge value) (new_stage c.stage.parent))
          ≡ ok l =
        sym (
          ap
            (λ (d : LevelDb L). commit level (
              edits (edits_of challenge value)
                (record { batch = []; kvmap = []; parent = c.stage.parent; key_handle = d })))
            own)
        ∙ run in
      ap (λ (d : LevelDb L). level_get level (record d { db = l }) k) (kept challenge value c)
      ∙ commit-read challenge value c.stage.parent l fresh k

  -- The other failures come before the commit.
  take_challenge-unmarshalled :
      (challenge : Challenge) (c : Challenger L)
      → json.marshal challenge ≡ none
      → (c' : Challenger L) × (take_challenge level json challenge c ≡ (err marshal_failed, c'))
        × IsUntouched c c'
  unfolding take_challenge delete_pending_challenge save_challenge of_stage stage_delete reset
  take_challenge-unmarshalled challenge c failed = (
    record c { stage = stage_delete (prefixed_pending_challenge challenge.id) (reset c.stage) },
    ground arith,
    record { store = refl; latest = refl },
  )

  take_challenge-early :
      (challenge : Challenge) (value : Bytes) (c : Challenger L)
      → json.marshal challenge ≡ some value
      → ltb challenge.time unix_epoch ≡ true
      → (c' : Challenger L) × (take_challenge level json challenge c ≡ (err panic, c'))
        × IsUntouched c c'
  unfolding take_challenge delete_pending_challenge save_challenge of_stage stage_delete reset
  take_challenge-early challenge value c marshalled early = (
    record c { stage = stage_delete (prefixed_pending_challenge challenge.id) (reset c.stage) },
    ground arith,
    record { store = refl; latest = refl },
  )

  -- When the stage keys by the prefix of its store, taking a challenge from the channel either fails and
  -- leaves the store and the latest challenges as they were; or the pending challenge is gone from the store,
  -- the challenge is under its key, every other key reads what it read before, and it is inserted into the
  -- latest challenges.
  pub take_challenge_lem :
      (challenge : Challenge) (c : Challenger L)
      → IsOwn c
      → ((e : RecordError) × (c' : Challenger L) × (take_challenge level json challenge c
            ≡ (err e, c'))
          × IsUntouched c c')
        ⊎ ((c' : Challenger L) × (take_challenge level json challenge c ≡ (ok tt, c'))
            × IsRecorded challenge c c')
  take_challenge_lem challenge c own = elim (Option-cases (json.marshal challenge)) [
    | inl failed ↦
        let (c', run, same) = take_challenge-unmarshalled challenge c failed in
        inl (marshal_failed, c', run, same)
    | inr (value, marshalled) ↦ elim (Bool-cases (ltb challenge.time unix_epoch)) [
      | inl early ↦
          let (c', run, same) = take_challenge-early challenge value c marshalled early in
          inl (panic, c', run, same)
      | inr late ↦ elim (Result-cases (commit level (staged challenge value c))) [
        | inr (e, failed) ↦ inl (
          db_failed e,
          record c { stage = staged challenge value c; reported = c.reported ++ challenge ∷ [] },
          take_challenge-commit_failed challenge value c e marshalled late failed,
          record { store = kept challenge value c; latest = refl },
        )
        | inl (l, run) ↦ inr (
          record {
            stage = moved l (staged challenge value c);
            latest_challenges = insert_latest_challenges challenge c.latest_challenges;
            reported = c.reported ++ challenge ∷ [];
          },
          take_challenge-ok challenge value c l marshalled late run,
          record {
            value = value;
            marshalled = marshalled;
            read = λ k. moved-read challenge value c l own run k;
            latest = refl;
            reported = refl;
            own = moved-IsOwn challenge value c l own;
          },
        )
      ]
    ]
  ]

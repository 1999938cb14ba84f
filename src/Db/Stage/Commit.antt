-- ===== src/Db/Stage/Commit.antt =====
-- What a stage shows before it is committed, against what the store shows afterwards.
use opinit_bots.Base.{
  ◌≡◌, refl, sym, ap, ◌∙◌, Bool, true, false, Option, none, some, List, [], ◌∷◌, ◌++◌,
  if◌then◌else◌, arith, Bool-cases, Option-cases, inl, inr, ◌||◌,
}
use opinit_bots.Base.Bytes.{bytes_equal}
use opinit_bots.Base.Result.{Result, ok, err}
use opinit_bots.Db.{Bytes, DbError, not_found}
use opinit_bots.Db.Level.{
  Change, put, delete, Level, LevelLaws, LevelDb, prefixed_key, level_get, changed, changed_all,
  found, bytes_equal-prefixed_key,
}
use opinit_bots.Db.Stage.{Stage, lookup, new_stage, stage_set, stage_delete, stage_get, commit}

-- What the stage is told to do.
pub data Edit : Type 0 where
  set : Bytes → Bytes → Edit
  remove : Bytes → Edit

unfoldable pub edit : {L : Type 0} → Edit → Stage L → Stage L
unfolding stage_set stage_delete
edit (set k v) s = stage_set k v s
edit (remove k) s = stage_delete k s

unfoldable pub edits : {L : Type 0} → List Edit → Stage L → Stage L
unfolding edit
edits [] s = s
edits (e ∷ es) s = edits es (edit e s)

-- What the edits leave under a key that held `held` before: an independent description.
abbrev pub left_by : Bytes → List Edit → Option Bytes → Option Bytes
left_by k [] held = held
left_by k (set j v ∷ es) held = left_by k es (if bytes_equal j k then some v else held)
left_by k (remove j ∷ es) held = left_by k es (if bytes_equal j k then none else held)

-- The last edit of a key is a removal.
abbrev pub removed : Bytes → List Edit → Bool → Bool
removed k [] before = before
removed k (set j v ∷ es) before = removed k es (if bytes_equal j k then false else before)
removed k (remove j ∷ es) before = removed k es (if bytes_equal j k then true else before)

-- Keys that are only removed.
abbrev pub removals : List Bytes → List Edit
removals [] = []
removals (k ∷ ks) = remove k ∷ removals ks

abbrev pub among : Bytes → List Bytes → Bool
among k [] = false
among k (j ∷ ks) = bytes_equal j k || among k ks

pub left_by-removals :
    (k : Bytes) (ks : List Bytes) (held : Option Bytes)
    → left_by k (removals ks) held ≡ (if among k ks then none else held)
left_by-removals k [] held = refl
left_by-removals k (j ∷ ks) held = elim (Bool-cases (bytes_equal j k)) [
  | inl same ↦ rw (same, left_by) (left_by-removals k ks none ∙ sym (either (among k ks)))
  | inr other ↦ rw (other, left_by) (left_by-removals k ks held)
]
  where
    either : (b : Bool) → none ≡ (if◌then◌else◌ {A = Option Bytes} b none none)
    either true = refl
    either false = refl

changed_all-append :
    (k : Bytes) (cs ds : List Change) (held : Option Bytes)
    → changed_all k (cs ++ ds) held ≡ changed_all k ds (changed_all k cs held)
changed_all-append k [] ds held = refl
changed_all-append k (c ∷ cs) ds held = changed_all-append k cs ds (changed k c held)

-- A read, from what the map and the store have.
abbrev shown : Option Bytes → Option Bytes → Result DbError Bytes
shown (some v) held = ok v
shown none held = found held

abbrev seen : Bytes → List Edit → Option Bytes → Option Bytes
seen k [] m = m
seen k (set j v ∷ es) m = seen k es (if bytes_equal j k then some v else m)
seen k (remove j ∷ es) m = seen k es (if bytes_equal j k then some [] else m)

-- What the map shows of a key, what the store will hold, and whether it has been removed.
data Agree (before : Option Bytes) : Option Bytes → Option Bytes → Bool → Type 0 where
  untouched : Agree before none before false
  written : (v : Bytes) → Agree before (some v) (some v) false
  gone : Agree before (some []) none true

edits-Agree :
    (k : Bytes) (es : List Edit) (before m held : Option Bytes) (b : Bool)
    → Agree before m held b
    → Agree before (seen k es m) (left_by k es held) (removed k es b)
edits-Agree k [] before m held b a = a
edits-Agree k (set j v ∷ es) before m held b a = elim (Bool-cases (bytes_equal j k)) [
  | inl same ↦ rw same (edits-Agree k es before (some v) (some v) false (written v))
  | inr other ↦ rw other (edits-Agree k es before m held b a)
]
edits-Agree k (remove j ∷ es) before m held b a = elim (Bool-cases (bytes_equal j k)) [
  | inl same ↦ rw same (edits-Agree k es before (some []) none true gone)
  | inr other ↦ rw other (edits-Agree k es before m held b a)
]

module _ {L : Type 0} (level : Level L) (laws : LevelLaws level) (parent : LevelDb L)
    (k : Bytes) where
  abbrev pub pk : Bytes
  pk = prefixed_key parent k

  -- The handles stay, and batch and map follow the edits.
  edits-follow :
      (es : List Edit) (s : Stage L) (held : Option Bytes)
      → s.key_handle ≡ parent
      → s.parent ≡ parent
      → ((edits es s).key_handle ≡ parent)
        × ((edits es s).parent ≡ parent)
        × (changed_all pk (edits es s).batch held ≡ left_by k es (changed_all pk s.batch held))
        × (lookup pk (edits es s).kvmap ≡ seen k es (lookup pk s.kvmap))
  unfolding edits edit stage_set stage_delete
  edits-follow [] s held h p = (h, p, refl, refl)
  edits-follow (set j v ∷ es) s held h p =
      let (h', p', batch, map') = edits-follow es (stage_set j v s) held h p in
      let own : bytes_equal (prefixed_key s.key_handle j) pk ≡ bytes_equal j k =
        rw h (bytes_equal-prefixed_key parent j k) in
      (
        h',
        p',
        batch
            ∙ rw
                (changed_all-append pk s.batch (put (prefixed_key s.key_handle j) v ∷ []) held, own)
                refl,
        map' ∙ rw own refl,
      )
  edits-follow (remove j ∷ es) s held h p =
      let (h', p', batch, map') = edits-follow es (stage_delete j s) held h p in
      let own : bytes_equal (prefixed_key s.key_handle j) pk ≡ bytes_equal j k =
        rw h (bytes_equal-prefixed_key parent j k) in
      (
        h',
        p',
        batch
            ∙ rw
                (
                  changed_all-append pk s.batch (delete (prefixed_key s.key_handle j) ∷ []) held,
                  own,
                )
                refl,
        map' ∙ rw own refl,
      )

  stage_get-shown :
      (s : Stage L)
      → stage_get level s k
        ≡ shown
            (lookup (prefixed_key s.key_handle k) s.kvmap)
            (level.held s.parent.db (prefixed_key s.parent k))
  unfolding stage_get level_get
  stage_get-shown s = elim (Option-cases (lookup (prefixed_key s.key_handle k) s.kvmap)) [
    | inl missing ↦ rw (missing, stage_get) refl
    | inr (v, held) ↦ rw (held, stage_get) refl
  ]

  -- Reads of the stage and of the store after the commit, from what map and store hold.
  stage_get-edits :
      (es : List Edit)
      → stage_get level (edits es (new_stage parent)) k
        ≡ shown (seen k es none) (level.held parent.db pk)
  unfolding new_stage
  stage_get-edits es =
      let (h, p, batch, map') = edits-follow es (new_stage parent) none refl refl in
      stage_get-shown (edits es (new_stage parent))
      ∙ (λ i.
          shown (lookup (prefixed_key (h i) k) (edits es (new_stage parent)).kvmap)
            (level.held (p i).db (prefixed_key (p i) k)))
      ∙ ap (λ m. shown m (level.held parent.db pk)) map'

  held-commit :
      (es : List Edit) (l' : L)
      → commit level (edits es (new_stage parent)) ≡ ok l'
      → level.held l' pk ≡ left_by k es (level.held parent.db pk)
  unfolding commit new_stage
  held-commit es l' run =
      let s = edits es (new_stage parent) in
      let (h, p, batch, map') =
        edits-follow es (new_stage parent) (level.held parent.db pk) refl refl in
      laws.held-write s.parent.db s.batch pk run
      ∙ ap (λ d. changed_all pk s.batch (level.held d.db pk)) p
      ∙ batch

  pub level_get-commit :
      (es : List Edit) (l' : L)
      → commit level (edits es (new_stage parent)) ≡ ok l'
      → level_get level (record parent { db = l' }) k
        ≡ found (left_by k es (level.held parent.db pk))
  unfolding level_get
  level_get-commit es l' run = ap found (held-commit es l' run)

  -- Take a fresh stage of a store, any writes and deletions through it, and a commit that succeeds. If
  -- the last of these for a key is not a deletion, then reading the key from the stage before the commit
  -- gives what reading it from the store after the commit gives.
  pub stage_get-commit :
      (es : List Edit) (l' : L)
      → commit level (edits es (new_stage parent)) ≡ ok l'
      → removed k es false ≡ false
      → stage_get level (edits es (new_stage parent)) k
        ≡ level_get level (record parent { db = l' }) k
  unfolding level_get
  stage_get-commit es l' run kept =
      stage_get-edits es
      ∙ agree
          (edits-Agree k es (level.held parent.db pk) none (level.held parent.db pk) false
            untouched)
          kept
      ∙ ap found (sym (held-commit es l' run))
    where
      agree :
          {before m held : Option Bytes} {b : Bool}
          → Agree before m held b
          → b ≡ false
          → shown m before ≡ found held
      agree untouched kept = refl
      agree (written v) kept = refl
      agree gone kept = absurd (ground arith)

  -- If the last of these for a key is a deletion, then the stage reads it as empty bytes without an
  -- error, and after the commit the store reports that it is not found.
  pub stage_get-removed :
      (es : List Edit) (l' : L)
      → commit level (edits es (new_stage parent)) ≡ ok l'
      → removed k es false ≡ true
      → (stage_get level (edits es (new_stage parent)) k ≡ ok [])
        × (level_get level (record parent { db = l' }) k ≡ err not_found)
  unfolding level_get
  stage_get-removed es l' run last =
      let (shows, holds) =
        agree
          (edits-Agree k es (level.held parent.db pk) none (level.held parent.db pk) false
            untouched)
          last in
      (stage_get-edits es ∙ shows, ap found (held-commit es l' run ∙ holds))
    where
      agree :
          {before m held : Option Bytes} {b : Bool}
          → Agree before m held b
          → b ≡ true
          → (shown m before ≡ ok []) × (held ≡ none)
      agree untouched last = absurd (ground arith)
      agree (written v) last = absurd (ground arith)
      agree gone last = (refl, refl)

module _ {L : Type 0} (level : Level L) (laws : LevelLaws level) (parent : LevelDb L)
    (k : Bytes) where
  -- Take a fresh stage of a store, any writes and deletions through it, and a commit that succeeds. If the
  -- last of these for a key is a deletion, the stage read it as empty bytes without an error, and the store
  -- reports that it is not found; otherwise reading the key from the stage before the commit gives what
  -- reading it from the store after the commit gives.
  pub stage_get-committed :
      (es : List Edit) (l' : L)
      → commit level (edits es (new_stage parent)) ≡ ok l'
      → (stage_get level (edits es (new_stage parent)) k
          ≡ (if removed k es false then ok [] else level_get level (record parent { db = l' }) k))
        × (level_get level (record parent { db = l' }) k ≡ (
            if removed k es false
            then err not_found
            else stage_get level (edits es (new_stage parent)) k))
  stage_get-committed es l' run = elim (Bool-cases (removed k es false)) [
    | inl last ↦
        let (shows, missing) = stage_get-removed level laws parent k es l' run last in
        (rw last shows, rw last missing)
    | inr kept ↦
        let same = stage_get-commit level laws parent k es l' run kept in
        (rw kept same, rw kept (sym same))
  ]

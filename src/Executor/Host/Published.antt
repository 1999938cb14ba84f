-- ===== src/Executor/Host/Published.antt =====
-- What the end of a block of the host chain writes to the store and gives to the broadcaster.
use mathlib.Core.List.{append-nil}
use opinit_bots.Base.{
  ℕ, ◌≡◌, ◌≢◌, refl, ap, sym, ◌∙◌, true, List, [], ◌∷◌, ◌++◌, ◌⊎◌, inl, inr, arith, some,
  if◌then◌else◌, Bool-cases, Option-cases, append_assoc,
}
use opinit_bots.Base.Result.{Result, ok, err, Result-cases}
use opinit_bots.Clock.{Clock}
use opinit_bots.Db.{Bytes, DbError}
use opinit_bots.Db.Basic.{of_stage}
use opinit_bots.Db.Level.{Change, put, prefixed_key}
use opinit_bots.Db.Stage.{Stage, stage_set, with_prefixed_key, commit}
use opinit_bots.Batch.Store.{synced_height_key, internal_status_key}
use opinit_bots.Broadcaster.Types.{ProcessedMsgs}
use opinit_bots.Broadcaster.Chunks.{msgs_to_processed_msgs}
use opinit_bots.Broadcaster.Store.Saved.{Saves, nothing, Kept, save_batch-Saves}
use opinit_bots.Broadcaster.Store.{StoreError}
use opinit_bots.Provider.Messages.{has_broadcaster}
use opinit_bots.Executor.Host.{
  Environment, Host, HostError, batch_failed, status_failed, db_failed, panic, save_for_child,
  add_processed_msgs, process_msgs, save_internal_status, broadcast_processed_msgs, commit_stage,
  end_block_handler, with_msgs,
}

module _ {L M : Type 0} (env : Environment L M) where
  -- The groups of a block: those that are there, and the queues in groups.
  abbrev pub outgoing : Host L M → List (ProcessedMsgs M)
  outgoing h =
      if has_broadcaster env.child
      then h.processed_msgs ++ (msgs_to_processed_msgs env.readings h.msg_queue h.clock).0
      else []

  -- The changes of a block.
  abbrev pub block_changes : (height : ℕ) → Host L M → List Change → Bytes → List Change
  block_changes height h saves status =
      (h.stage.batch
        ++ put (prefixed_key h.stage.key_handle synced_height_key) (env.format_int height) ∷ saves)
      ++ put (prefixed_key h.stage.key_handle internal_status_key) status ∷ []

  abbrev with_groups :
      Host L M → Stage L → List (ProcessedMsgs M) → Clock → Result HostError (Unit {0}) × Host L M
  with_groups h s batch c = (
    ok tt,
    record h {
      stage = record s { key_handle = h.stage.key_handle };
      processed_msgs = batch;
      clock = c;
    },
  )

  -- The processed messages of the block, in the store's stage when there is a broadcaster.
  process_msgs-cases :
      (h : Host L M)
      → ((cs : List Change) × (s : Stage L) × (c : Clock) × (process_msgs env h
            ≡ (ok tt, record h { stage = s; processed_msgs = outgoing h; clock = c }))
          × Saves env.codec env.child_db (outgoing h) cs
          × (s.batch ≡ h.stage.batch ++ cs)
          × Kept h.stage s)
        ⊎ ((e : StoreError) × (h' : Host L M) × (process_msgs env h ≡ (err (batch_failed e), h'))
            × (h'.stage.parent ≡ h.stage.parent)
            × (h'.broadcast ≡ h.broadcast))
  unfolding process_msgs add_processed_msgs save_for_child with_prefixed_key
  process_msgs-cases h = elim (Bool-cases (has_broadcaster env.child)) [
    | inr without ↦ inl (
      [],
      h.stage,
      h.clock,
      rw without refl,
      rw without nothing,
      sym (append-nil h.stage.batch),
      (refl, refl),
    )
    | inl has ↦
        let (groups, c) = msgs_to_processed_msgs env.readings h.msg_queue h.clock in
        elim (save_batch-Saves env.level env.codec (h.processed_msgs ++ groups)
          (with_prefixed_key env.child_db h.stage)) [
            | inl (cs, s', run, saves, batch, kept) ↦ inl (
              cs,
              record s' { key_handle = h.stage.key_handle },
              c,
              by_case has ∙ rw (run, save_for_child) refl ∙ outgoing_eq s' has,
              rw has saves,
              batch,
              (kept.0, refl),
            )
            | inr (e, run) ↦ inr (
              e,
              record h { processed_msgs = h.processed_msgs ++ groups; clock = c },
              by_case has ∙ rw (run, save_for_child) refl,
              refl,
              refl,
            )
          ]
  ]
    where
      by_case : has_broadcaster env.child ≡ true → process_msgs env h ≡ add_processed_msgs env h
      by_case has = rw has refl

      outgoing_eq :
          (s : Stage L)
          → has_broadcaster env.child ≡ true
          → let (groups, c) = msgs_to_processed_msgs env.readings h.msg_queue h.clock in
            with_groups h s (h.processed_msgs ++ groups) c ≡ with_groups h s (outgoing h) c
      outgoing_eq s has = rw has refl

  -- With a broadcaster, or without groups, nothing panics.
  broadcast_processed_msgs-given :
      (h : Host L M) (batch : List (ProcessedMsgs M))
      → (has_broadcaster env.child ≡ true) ⊎ (batch ≡ [])
      → broadcast_processed_msgs env batch h
        ≡ (ok tt, record h { broadcast = h.broadcast ++ with_msgs batch })
  unfolding broadcast_processed_msgs with_msgs
  broadcast_processed_msgs-given h [] given =
      ap (λ b. (ok tt, record h { broadcast = b })) (sym (append-nil h.broadcast))
  broadcast_processed_msgs-given h (group ∷ batch) (inl has) = rw has refl
  broadcast_processed_msgs-given h (group ∷ batch) (inr none') = absurd (ground arith)

  outgoing-given : (h : Host L M) → (has_broadcaster env.child ≡ true) ⊎ (outgoing h ≡ [])
  outgoing-given h = elim (Bool-cases (has_broadcaster env.child)) [
    | inl has ↦ inl has
    | inr without ↦ inr (rw without refl)
  ]

  committed :
      (height : ℕ) (h : Host L M) (s : Stage L) (cs : List Change) (status : Bytes) {l : L}
      → s.batch
        ≡ (h.stage.batch
            ++ put (prefixed_key h.stage.key_handle synced_height_key) (env.format_int height) ∷ [])
          ++ cs
      → Kept h.stage s
      → commit env.level (stage_set internal_status_key status s) ≡ ok l
      → env.level.write h.stage.parent.db (block_changes height h cs status) ≡ ok l
  unfolding commit stage_set
  committed height h s cs status batch kept run =
      (λ i.
        env.level.write (sym kept.0 i).db
          (sym changes i ++ put (prefixed_key (sym kept.1 i) internal_status_key) status ∷ []))
      ∙ run
    where
      changes :
          s.batch
          ≡ h.stage.batch
            ++ put (prefixed_key h.stage.key_handle synced_height_key) (env.format_int height) ∷ cs
      changes =
          batch
          ∙ append_assoc h.stage.batch
              (put (prefixed_key h.stage.key_handle synced_height_key) (env.format_int height) ∷ [])
              cs

  save_internal_status-cases :
      (h : Host L M)
      → ((status : Bytes) × (env.status_json.marshal h.status ≡ some status)
          × (save_internal_status env h
              ≡ (ok tt, record h { stage = stage_set internal_status_key status h.stage })))
        ⊎ (save_internal_status env h ≡ (err status_failed, h))
  unfolding save_internal_status of_stage
  save_internal_status-cases h = elim (Option-cases (env.status_json.marshal h.status)) [
    | inl failed ↦ inr (rw (failed, save_internal_status) refl)
    | inr (status, marshalled) ↦
        inl (status, marshalled, rw (marshalled, save_internal_status) refl)
  ]

  commit_stage-cases :
      (h : Host L M)
      → ((l : L) × (commit env.level h.stage ≡ ok l)
          × (commit_stage env h ≡ (
            ok tt,
            record h { stage = record h.stage { parent = record h.stage.parent { db = l } } },
          )))
        ⊎ ((e : DbError) × (commit_stage env h ≡ (err (db_failed e), h)))
  unfolding commit_stage
  commit_stage-cases h = elim (Result-cases (commit env.level h.stage)) [
    | inl (l, wrote) ↦ inl (l, wrote, rw (wrote, commit_stage) refl)
    | inr (e, failed) ↦ inr (e, rw (failed, commit_stage) refl)
  ]

  -- If the end of a block fails, then not by a panic, the store is what it was, and nothing has been given
  -- to the broadcaster. If it succeeds, then one write has brought what the block had staged, the height,
  -- the groups of the block that are to be saved, under the prefix of the child, and the status into the
  -- store, and the groups of the block that have messages, saved or not, have been given to the
  -- broadcaster; without a broadcaster there are no groups.
  pub end_block_handler-Published :
      (height : ℕ) (h : Host L M)
      → let (r, h') = end_block_handler env height h in
        ((e : HostError) × (r ≡ err e)
          × (e ≢ panic)
          × (h'.stage.parent ≡ h.stage.parent)
          × (h'.broadcast ≡ h.broadcast))
        ⊎ ((saves : List Change) × (status : Bytes) × (r ≡ ok tt)
            × Saves env.codec env.child_db (outgoing h) saves
            × (env.status_json.marshal h.status ≡ some status)
            × (env.level.write h.stage.parent.db (block_changes height h saves status)
                ≡ ok h'.stage.parent.db)
            × (h'.broadcast ≡ h.broadcast ++ with_msgs (outgoing h)))
  unfolding end_block_handler of_stage stage_set
  end_block_handler-Published height h =
      let h0 : Host L M = record h {
        stage = stage_set synced_height_key (env.format_int height) h.stage;
      } in
      elim (process_msgs-cases h0) [
        | inr (e, h', failed, parent, given) ↦
            inl (batch_failed e, rw failed refl, ground arith, rw failed parent, rw failed given)
        | inl (cs, s, c, run, saves, batch, kept) ↦
            let h1 : Host L M = record h { stage = s; processed_msgs = outgoing h; clock = c } in
            elim (save_internal_status-cases h1) [
              | inr failed ↦ inl (
                status_failed,
                rw (run, failed) refl,
                ground arith,
                rw (run, failed) kept.0,
                rw (run, failed) refl,
              )
              | inl (status, marshalled, set) ↦
                  let h2 : Host L M = record h1 {
                    stage = stage_set internal_status_key status s;
                  } in
                  elim (commit_stage-cases h2) [
                    | inr (e, failed) ↦ inl (
                      db_failed e,
                      rw (run, set, failed) refl,
                      ground arith,
                      rw (run, set, failed) kept.0,
                      rw (run, set, failed) refl,
                    )
                    | inl (l, wrote, done) ↦
                        let h3 : Host L M = record h2 {
                          stage = record h2.stage { parent = record h2.stage.parent { db = l } };
                        } in
                        let given =
                          broadcast_processed_msgs-given h3 (outgoing h) (outgoing-given h) in
                        inr (
                          cs,
                          status,
                          rw (run, set, done, given) refl,
                          saves,
                          marshalled,
                          rw (run, set, done, given)
                              (committed height h s cs status batch kept wrote),
                          rw (run, set, done, given) refl,
                        )
                  ]
            ]
      ]

-- ===== src/Batch/Block/Content.antt =====
-- What handling a block leaves in the stage and among the messages, when it succeeds.
use mathlib.Core.List.{append-nil}
use opinit_bots.Base.{
  ℕ, ◌≡◌, refl, ap, sym, ◌∙◌, Bool, true, false, ◌==◌, Option, none, some, List, [], ◌∷◌, ◌++◌, ◌⊎◌,
  inl, inr, arith, Bool-cases, Option-cases, subst, append_assoc,
}
use opinit_bots.Base.Result.{Result, ok, err, Result-cases}
use opinit_bots.Base.Machine.{after-ok, try, try-ok}
use opinit_bots.Db.{Bytes}
use opinit_bots.Db.Basic.{of_stage, of_level}
use opinit_bots.Db.Level.{Change, put, prefixed_key}
use opinit_bots.Db.Stage.{Stage, stage_set, with_prefixed_key, reset}
use opinit_bots.Broadcaster.Store.Saved.{Saves, nothing, save_batch-Saves}
use opinit_bots.Batch.Store.{
  get_local_batch_info, save_local_batch_info, save_internal_status, set_synced_height,
  local_batch_info_key, synced_height_key, internal_status_key,
}
use opinit_bots.Batch.Submitter.{BatchSubmitter, SubmitError, zipped, handle_batch}
use opinit_bots.Batch.Info.{next_batch_info}
use opinit_bots.Batch.Block.Ends.{Ends, zipped_to-quiet, handle_batch-quiet, finalize_batch-Ends}
use opinit_bots.Batch.Block.{
  BlockState, Environment, RawBlockArgs, lifted, submitter_does, ended, sized, genesis_when,
  finalize_when, finalize_if_due, write_block, stage_msgs, stage_block, prepare_batch,
  load_local_batch_info, reset_finalized, handle_block, fill_block, converted,
}

module _ (M Z L : Type 0) (env : Environment M Z L) (args : RawBlockArgs) where
  -- There are no messages, or the batch has ended at this block, or this is the first block.
  abbrev pub IsUnsent : BlockState M Z L → Type 0
  IsUnsent r =
      (r.submitter.processed_msgs ≡ [])
      ⊎ ((r.submitter.last_batch_end_block_number ≡ args.block_height)
          × (r.submitter.local_batch_info.end ≡ args.block_height))
      ⊎ (args.block_height ≡ 1)

  abbrev Fills : BlockState M Z L → BlockState M Z L → Type 0
  Fills r r' = (r'.stage ≡ r.stage) × IsUnsent r'

  lifted-ok :
      (x : Result SubmitError (Unit {0}) × BatchSubmitter M Z) (r r' : BlockState M Z L)
      → lifted x r ≡ (ok tt, r')
      → record r { submitter = x.1 } ≡ r'
  lifted-ok (ok u, bs) r r' run = ap (λ x. x.1) run
  lifted-ok (err e, bs) r r' run = absurd (ground (arith, ap (λ x. x.0) run))

  finalize_when-Fills :
      (due : Bool) (time : ℕ) (r r' : BlockState M Z L)
      → finalize_when env due args time r ≡ (ok tt, r')
      → IsUnsent r
      → Fills r r'
  unfolding Ends
  finalize_when-Fills false time r r' run before =
      subst (Fills r) (ap (λ x. x.1) run) (refl, before)
  finalize_when-Fills true time r r' run before =
      let bs = ended args.block_height time r.submitter in
      subst (Fills r) (lifted-ok _ _ r' run) (
        refl,
        inr (
            inl (
              finalize_batch-Ends M Z env.readings env.da env.zip env.sha256 env.cfg args.raw_commit
                bs)),
      )

  genesis_when-Fills :
      (first : Bool) (genesis : Option Bytes) (r r' : BlockState M Z L)
      → genesis_when env first genesis r ≡ (ok tt, r')
      → (args.block_height == 1) ≡ first
      → IsUnsent r
      → Fills r r'
  genesis_when-Fills false genesis r r' run at_one before =
      subst (Fills r) (ap (λ x. x.1) run) (refl, before)
  genesis_when-Fills true none r r' run at_one before = absurd (ground (arith, ap (λ x. x.0) run))
  genesis_when-Fills true (some bytes) r r' run at_one before =
      subst (Fills r) (lifted-ok _ _ r' run) (refl, inr (inr (ground (arith, at_one))))

  write_block-Fills :
      (bytes : Bytes) (time : ℕ) (r r' : BlockState M Z L)
      → write_block env args (bytes, time) r ≡ (ok tt, r')
      → r.submitter.processed_msgs ≡ []
      → Fills r r'
  unfolding write_block finalize_if_due
  write_block-Fills bytes time r r' run empty =
      let (u1, r1, first, rest1) = after-ok (submitter_does (handle_batch env.zip bytes) r) _ run in
      let same1 = lifted-ok _ r r1 first in
      let (u2, r2, second, rest2) = after-ok (submitter_does (zipped env.zip.flush) r1) _ rest1 in
      let same2 = lifted-ok _ r1 r2 second in
      let r3 : BlockState M Z L = record r2 { submitter = sized r2.submitter } in
      let (u4, r4, fourth, last) =
        after-ok (genesis_when env (args.block_height == 1) args.genesis r3)
          (λ _. finalize_if_due env args time) rest2 in
      let empty1 : r1.submitter.processed_msgs ≡ [] =
        ap (λ x. x.submitter.processed_msgs) (sym same1)
        ∙ handle_batch-quiet M Z env.zip bytes r.submitter
        ∙ empty in
      let empty2 : r2.submitter.processed_msgs ≡ [] =
        ap (λ x. x.submitter.processed_msgs) (sym same2)
        ∙ (zipped_to-quiet M Z (env.zip.flush (r1.submitter.batch_writer, r1.submitter.batch_file))
            r1.submitter).1
        ∙ empty1 in
      let (stage4, unsent4) =
        genesis_when-Fills (args.block_height == 1) args.genesis r3 r4 fourth refl (inl empty2) in
      let (stage5, unsent5) = finalize_when-Fills _ time r4 r' last unsent4 in
      (stage5 ∙ stage4 ∙ ap (λ x. x.stage) (sym same2) ∙ ap (λ x. x.stage) (sym same1), unsent5)

  -- The writes of a block: its height, the groups of messages that are to be saved, under the prefix of
  -- the data availability layer, the info of the batch and the status.
  abbrev pub block_writes : Stage L → List Change → (info status : Bytes) → List Change
  block_writes s saves info status =
      put (prefixed_key s.key_handle synced_height_key) (env.encodings.format_int args.block_height)
      ∷ (saves
          ++ put (prefixed_key s.key_handle local_batch_info_key) info
            ∷ put (prefixed_key s.key_handle internal_status_key) status
            ∷ [])

  -- What the stage holds of a block, when it held `before`.
  abbrev pub Holds : Stage L → BlockState M Z L → List Change → Bytes → Bytes → Type 0
  Holds before r saves info status =
      Saves env.codec env.da_db r.submitter.processed_msgs saves
      × (env.encodings.info.marshal r.submitter.local_batch_info ≡ some info)
      × (env.encodings.status.marshal r.submitter.last_batch_end_block_number ≡ some status)
      × (r.stage.batch ≡ before.batch ++ block_writes before saves info status)
      × (r.stage.parent ≡ before.parent)

  stage_msgs-Saves :
      (r r' : BlockState M Z L)
      → stage_msgs env r ≡ (ok tt, r')
      → (saves : List Change) × Saves env.codec env.da_db r'.submitter.processed_msgs saves
        × (r'.stage.batch ≡ r.stage.batch ++ saves)
        × (r'.stage.parent ≡ r.stage.parent)
        × (r'.stage.key_handle ≡ r.stage.key_handle)
        × (IsUnsent r → IsUnsent r')
  unfolding stage_msgs with_prefixed_key
  stage_msgs-Saves r r' run = elim (Bool-cases env.da.has_broadcaster) [
    | inr without ↦
        let same : record r { submitter = record r.submitter { processed_msgs = [] } } ≡ r' =
          ap (λ x. x.1) (rw without at run) in
        (
          [],
          subst (λ x. Saves env.codec env.da_db x.submitter.processed_msgs []) same nothing,
          ap (λ x. x.stage.batch) (sym same) ∙ sym (append-nil r.stage.batch),
          ap (λ x. x.stage.parent) (sym same),
          ap (λ x. x.stage.key_handle) (sym same),
          λ before. subst IsUnsent same (inl refl),
        )
    | inl has ↦
        elim (save_batch-Saves env.level env.codec r.submitter.processed_msgs
          (with_prefixed_key env.da_db r.stage)) [
            | inr (e, failed) ↦ absurd (ground (arith, ap (λ x. x.0) (rw (has, failed) at run)))
            | inl (saves, s', done, written, batch, kept) ↦
                let same : record r { stage = record s' { key_handle = r.stage.key_handle } } ≡ r' =
                  ap (λ x. x.1) (rw (has, done) at run) in
                (
                  saves,
                  subst (λ x. Saves env.codec env.da_db x.submitter.processed_msgs saves) same
                      written,
                  ap (λ x. x.stage.batch) (sym same) ∙ batch,
                  ap (λ x. x.stage.parent) (sym same) ∙ kept.0,
                  ap (λ x. x.stage.key_handle) (sym same),
                  λ before. subst IsUnsent same before,
                )
          ]
  ]

  stage_block-Holds :
      (r r' : BlockState M Z L)
      → stage_block env args r ≡ (ok tt, r')
      → IsUnsent r
      → ((saves : List Change) × (info status : Bytes) × Holds r.stage r' saves info status)
        × IsUnsent r'
  unfolding stage_block set_synced_height save_local_batch_info save_internal_status of_stage
      stage_set
  stage_block-Holds r r' run before =
      let height =
        put (prefixed_key r.stage.key_handle synced_height_key)
          (env.encodings.format_int args.block_height) in
      let r0 : BlockState M Z L = record r {
        stage = stage_set synced_height_key (env.encodings.format_int args.block_height) r.stage;
      } in
      let (u, r1, first, rest) = after-ok (stage_msgs env r0) _ run in
      let (saves, written, batch, parent, handle, unsent) = stage_msgs-Saves r0 r1 first in
      elim (Option-cases (env.encodings.info.marshal r1.submitter.local_batch_info)) [
        | inl failed ↦ absurd (ground (arith, ap (λ x. x.0) (rw failed at rest)))
        | inr (info, coded) ↦
            elim (Option-cases
              (env.encodings.status.marshal r1.submitter.last_batch_end_block_number)) [
                | inl failed ↦ absurd (ground (arith, ap (λ x. x.0) (rw (coded, failed) at rest)))
                | inr (status, coded') ↦
                    let last : BlockState M Z L = record r1 {
                      stage =
                          stage_set internal_status_key status
                            (stage_set local_batch_info_key info r1.stage);
                    } in
                    let same : last ≡ r' = ap (λ x. x.1) (rw (coded, coded') at rest) in
                    subst
                      (λ x.
                        ((saves : List Change) × (info status : Bytes) × Holds r.stage x saves info
                            status)
                        × IsUnsent x)
                      same
                      (
                        (
                          saves,
                          info,
                          status,
                          (
                            written,
                            coded,
                            coded',
                            (λ i.
                                  (batch i
                                    ++ put (prefixed_key (handle i) local_batch_info_key) info ∷ [])
                                  ++ put (prefixed_key (handle i) internal_status_key) status ∷ [])
                                ∙ joined r.stage.batch saves height _ _,
                            parent,
                          ),
                        ),
                        unsent before,
                      )
              ]
      ]
    where
      joined :
          (cs saves : List Change) (x y z : Change)
          → (((cs ++ x ∷ []) ++ saves) ++ y ∷ []) ++ z ∷ [] ≡ cs ++ x ∷ (saves ++ y ∷ z ∷ [])
      joined cs saves x y z =
          append_assoc ((cs ++ x ∷ []) ++ saves) (y ∷ []) (z ∷ [])
          ∙ append_assoc (cs ++ x ∷ []) saves (y ∷ z ∷ [])
          ∙ append_assoc cs (x ∷ []) (saves ++ y ∷ z ∷ [])

  -- The preparation, when there is no next batch info.
  prepare_batch-quiet :
      (r r' : BlockState M Z L)
      → next_batch_info r.submitter.batch_infos ≡ some none
      → prepare_batch env args r ≡ (ok tt, r')
      → (r'.stage ≡ r.stage) × (r'.submitter.processed_msgs ≡ r.submitter.processed_msgs)
  unfolding prepare_batch load_local_batch_info reset_finalized
  prepare_batch-quiet r r' only run =
      elim (Result-cases (get_local_batch_info env.encodings (of_level env.level) r.db)) [
        | inr (e, failed) ↦ absurd (ground (arith, ap (λ x. x.0) (rw failed at run)))
        | inl (info, loaded) ↦ elim (Bool-cases (info.end == 0)) [
          | inl open' ↦
              let same = ap (λ x. x.1) (rw (loaded, only, open') at run) in
              (ap (λ x. x.stage) (sym same), ap (λ x. x.submitter.processed_msgs) (sym same))
          | inr over ↦
              let same = ap (λ x. x.1) (rw (loaded, only, over) at run) in
              (ap (λ x. x.stage) (sym same), ap (λ x. x.submitter.processed_msgs) (sym same))
        ]
      ]

  pub handle_block-Holds :
      (r r' : BlockState M Z L)
      → next_batch_info r.submitter.batch_infos ≡ some none
      → handle_block env args r ≡ (ok tt, r')
      → ((saves : List Change) × (info status : Bytes) × Holds
            (record (reset r.stage) { parent = r.db })
            r'
            saves
            info
            status)
        × IsUnsent r'
  unfolding handle_block fill_block
  handle_block-Holds r r' only run =
      let r1 : BlockState M Z L = record r {
        submitter = record r.submitter { processed_msgs = [] };
        stage = record (reset r.stage) { parent = r.db };
      } in
      let (u2, r2, prepared, rest) = after-ok (prepare_batch env args r1) _ run in
      let (stage2, none2) = prepare_batch-quiet r1 r2 only prepared in
      let (block, r3, converts, rest3) =
        after-ok (try (λ e. e) (converted (env.convert args.block_bytes)) r2) _ rest in
      let same3 = (try-ok (λ e. e) (converted (env.convert args.block_bytes)) r2 converts).1 in
      let (u4, r4, wrote, rest4) = after-ok (write_block env args block r3) _ rest3 in
      let (stage4, unsent4) =
        write_block-Fills block.0 block.1 r3 r4 wrote
          (ap (λ x. x.submitter.processed_msgs) (sym same3) ∙ none2) in
      let stages : r4.stage ≡ r1.stage = stage4 ∙ ap (λ x. x.stage) (sym same3) ∙ stage2 in
      subst
        (λ s.
          ((saves : List Change) × (info status : Bytes) × Holds s r' saves info status)
          × IsUnsent r')
        stages (stage_block-Holds r4 r' rest4 unsent4)

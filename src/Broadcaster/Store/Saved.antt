-- ===== src/Broadcaster/Store/Saved.antt =====
-- The writes to a stage that save groups of messages.
use mathlib.Core.List.{append-nil}
use opinit_bots.Base.{
  ◌≡◌, refl, sym, ◌∙◌, true, false, List, [], ◌∷◌, ◌++◌, ◌⊎◌, inl, inr, some, Bool-cases,
  Option-cases, append_assoc,
}
use opinit_bots.Base.Result.{ok, err}
use opinit_bots.Db.{Bytes}
use opinit_bots.Db.Basic.{of_stage}
use opinit_bots.Db.Level.{Change, Level, put, LevelDb, prefixed_key}
use opinit_bots.Db.Stage.{Stage, stage_set}
use opinit_bots.Broadcaster.Types.{ProcessedMsgs, Codec, msgs_key, marshal_interface_json}
use opinit_bots.Broadcaster.Store.{StoreError, save_processed_msgs, save_processed_msgs_batch}

module _ {L M : Type 0} (codec : Codec M) (handle : LevelDb L) where
  -- The writes for the groups that are to be saved, in their order.
  pub data Saves : List (ProcessedMsgs M) → List Change → Type 0 where
    nothing : Saves [] []
    passed :
        {p : ProcessedMsgs M} {ps : List (ProcessedMsgs M)} {cs : List Change}
        → p.save ≡ false
        → Saves ps cs
        → Saves (p ∷ ps) cs
    saved :
        {p : ProcessedMsgs M} {ps : List (ProcessedMsgs M)} {cs : List Change} {bytes : Bytes}
        → p.save ≡ true
        → marshal_interface_json codec p ≡ some bytes
        → Saves ps cs
        → Saves (p ∷ ps) (put (prefixed_key handle (msgs_key p)) bytes ∷ cs)

abbrev pub Kept : {L : Type 0} → Stage L → Stage L → Type 0
Kept s s' = (s'.parent ≡ s.parent) × (s'.key_handle ≡ s.key_handle)

module _ {L M : Type 0} (level : Level L) (codec : Codec M) where
  pub save_batch-Saves :
      (ps : List (ProcessedMsgs M)) (s : Stage L)
      → ((cs : List Change) × (s' : Stage L) × (save_processed_msgs_batch codec
              (of_stage level)
              ps
              s
            ≡ ok s')
          × Saves codec s.key_handle ps cs
          × (s'.batch ≡ s.batch ++ cs)
          × Kept s s')
        ⊎ ((e : StoreError) × (save_processed_msgs_batch codec (of_stage level) ps s ≡ err e))
  unfolding save_processed_msgs_batch save_processed_msgs of_stage stage_set
  save_batch-Saves [] s = inl ([], s, refl, nothing, sym (append-nil s.batch), (refl, refl))
  save_batch-Saves (p ∷ ps) s = elim (Bool-cases p.save) [
    | inr skip ↦ elim (save_batch-Saves ps s) [
      | inl (cs, s', run, saves, batch, kept) ↦
          inl (cs, s', rw skip run, passed skip saves, batch, kept)
      | inr (e, run) ↦ inr (e, rw skip run)
    ]
    | inl save ↦ elim (Option-cases (marshal_interface_json codec p)) [
      | inl failed ↦ inr (StoreError.marshal_failed, rw (failed, save) refl)
      | inr (bytes, marshalled) ↦ elim (save_batch-Saves ps (stage_set (msgs_key p) bytes s)) [
        | inl (cs, s', run, saves, batch, kept) ↦ inl (
          put (prefixed_key s.key_handle (msgs_key p)) bytes ∷ cs,
          s',
          rw (marshalled, save) run,
          saved save marshalled saves,
          batch ∙ append_assoc s.batch (put (prefixed_key s.key_handle (msgs_key p)) bytes ∷ []) cs,
          kept,
        )
        | inr (e, run) ↦ inr (e, rw (marshalled, save) run)
      ]
    ]
  ]

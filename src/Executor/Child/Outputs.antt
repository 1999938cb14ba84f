-- ===== src/Executor/Child/Outputs.antt =====
-- When the tree of a block leads to an output.
use opinit_bots.Base.{
  ℕ, ◌+◌, ◌*◌, ◌/◌, ◌≡◌, ◌<◌, ltb, refl, true, not, ◌==◌, ◌&&◌, Option, none, some, ◌⊎◌, arith,
  Bool-cases, Option-cases, inl, inr,
}
use opinit_bots.Base.Result.{ok, err, Result-cases}
use opinit_bots.Db.{Bytes}
use opinit_bots.Merkle.{FinalizedTreeInfo, finalize_working_tree, get_working_tree}
use opinit_bots.Merkle.Store.{save_nodes, save_finalized_tree, save_working_tree}
use opinit_bots.Executor.Child.{
  Environment, Child, ChildError, trees, Header, scheduled, finalizes, finalize_tree,
  save_finalized, must_get_working_tree, handle_tree,
}

module _ {S D M : Type 0} (env : Environment S D M) where
  -- Saving the tree changes the stage only.
  save_finalized-cases :
      (info : Option FinalizedTreeInfo) (ch : Child S D M)
      → ((s : S) × (save_finalized env info ch ≡ (ok tt, record ch { stage = s })))
        ⊎ ((e : ChildError) × (save_finalized env info ch ≡ (err e, ch)))
  unfolding save_finalized
  save_finalized-cases none ch = inl (ch.stage, refl)
  save_finalized-cases (some info) ch =
      elim (Result-cases (save_finalized_tree env.staged env.finalized_json info ch.stage)) [
        | inl (s, saved) ↦ inl (s, rw saved refl)
        | inr (e, failed) ↦ inr (trees e, rw failed refl)
      ]

  -- What finalizing the tree of a block leaves, when it succeeds.
  finalize_tree-ok :
      (header : Header) (block_id : Bytes) (ch ch' : Child S D M) (root : Option Bytes)
      → finalize_tree env header block_id ch ≡ (ok root, ch')
      → (ch'.finalizing_block_height ≡ 0)
        × (ch'.next_output_time ≡ scheduled env header.time)
        × (ch'.last_output_time ≡ header.time)
        × ((ch.finalizing_block_height == header.height) ≡ true → root ≡ none)
  unfolding finalize_tree must_get_working_tree get_working_tree
  finalize_tree-ok header block_id ch ch' root run =
      elim (Option-cases (env.marshal_tree_extra_data header.height header.time block_id)) [
        | inl failed ↦ absurd (ground arith)
        | inr (extra, marshalled) ↦
            elim (Result-cases (finalize_working_tree env.generate_node_hash extra ch.mk)) [
              | inr (e, failed) ↦ absurd (ground arith)
              | inl (r, finalized) ↦ elim (save_finalized-cases r.0 (record ch { mk = r.3 })) [
                | inr (e, failed) ↦ absurd (ground arith)
                | inl (s, saved) ↦ elim (Result-cases (save_nodes env.staged r.1 s)) [
                  | inr (e, failed) ↦ absurd (ground arith)
                  | inl (s', written) ↦ elim (Option-cases r.3.working_tree) [
                    | inl missing ↦ absurd (ground arith)
                    | inr (t, found) ↦ (ground arith, ground arith, ground arith, ground arith)
                  ]
                ]
              ]
            ]
      ]

  -- If handle_tree succeeds with a storage root to propose, then no height to finalize at was known, the
  -- block is the latest one, and its time is past the time of the next output; afterwards that time is
  -- two thirds of the submission interval past the block's.
  pub handle_tree-proposes :
      (latest_height : ℕ) (block_id : Bytes) (header : Header) (ch ch' : Child S D M) (root : Bytes)
      → handle_tree env latest_height block_id header ch ≡ (ok (some root), ch')
      → (ch.finalizing_block_height ≡ 0)
        × (header.height ≡ latest_height)
        × (ch.next_output_time < header.time)
        × (ch'.next_output_time ≡ header.time + env.submission_interval * 2 / 3)
        × (ch'.finalizing_block_height ≡ 0)
  unfolding handle_tree must_get_working_tree get_working_tree finalizes
  handle_tree-proposes latest_height block_id header ch ch' root run =
      elim (Bool-cases
        (not (ch.finalizing_block_height == 0) && ltb ch.finalizing_block_height header.height)) [
          | inl passed ↦ absurd (ground arith)
          | inr behind ↦ elim (Bool-cases (finalizes env ch latest_height header)) [
            | inr waits ↦ elim (Option-cases ch.mk.working_tree) [
              | inl missing ↦ absurd (ground arith)
              | inr (t, found) ↦
                  elim (Result-cases (save_working_tree env.staged env.tree_json t ch.stage)) [
                    | inr (e, failed) ↦ absurd (ground arith)
                    | inl (s, saved) ↦ absurd (ground arith)
                  ]
            ]
            | inl now ↦ elim (Result-cases (finalize_tree env header block_id ch).0) [
              | inr (e, failed) ↦ absurd (ground arith)
              | inl (storage, finalized) ↦
                  let c = (finalize_tree env header block_id ch).1 in
                  let (f, n, l, synced) =
                    finalize_tree-ok header block_id ch c storage (λ i. (finalized i, c)) in
                  elim (Option-cases c.mk.working_tree) [
                    | inl missing ↦ absurd (ground arith)
                    | inr (t, found) ↦
                        elim (Result-cases (save_working_tree env.staged env.tree_json t c.stage)) [
                          | inr (e, failed) ↦ absurd (ground arith)
                          | inl (s, saved) ↦ (
                            ground (arith, synced),
                            ground (arith, synced),
                            ground (arith, synced),
                            ground (arith, n),
                            ground (arith, f),
                          )
                        ]
                  ]
            ]
          ]
        ]

-- ===== src/Executor/Child/Preparation.antt =====
-- The working tree at the beginning of a block.
use opinit_bots.Base.{
  ℕ, ◌+◌, ◌-◌, ◌≡◌, ◌≤◌, ◌<◌, ◌^◌, refl, true, false, ◌==◌, ◌||◌, ltb, some, arith,
}
use opinit_bots.Base.Words.{u64}
use opinit_bots.Base.Result.{ok, err}
use opinit_bots.Db.{not_found}
use opinit_bots.Merkle.{TreeInfo, initialize_working_tree, get_working_tree, no_siblings}
use opinit_bots.Merkle.Prepare.{Continues, prepare_working_tree-Continues}
use opinit_bots.Merkle.Store
use opinit_bots.Merkle.Store.{StoreError, db}
use opinit_bots.Executor.Child.{
  Environment, Child, TreeStart, prepare_tree, initialize_tree, must_get_working_tree,
}

module _ {S D M : Type 0} (env : Environment S D M) where
  -- If the database holds the working tree of the block before, with indices of at least 1 and below
  -- their bounds, then prepare_tree succeeds, changes nothing but the working tree, and the new working
  -- tree continues the saved one.
  pub prepare_tree-Continues :
      (block_height : ℕ) (ch : Child S D M) (last : TreeInfo)
      → Store.get_working_tree env.saved env.tree_json ch.db (u64 (block_height + 2 ^ 64 - 1))
        ≡ ok last
      → 1 ≤ last.index
      → last.index + 1 < 2 ^ 64
      → 1 ≤ last.start_leaf_index
      → last.start_leaf_index + last.leaf_count < 2 ^ 64
      → (t : TreeInfo) × (prepare_tree env block_height ch
          ≡ (ok tt, record ch { mk = record { working_tree = some t } }))
        × Continues last t
  unfolding prepare_tree
  prepare_tree-Continues block_height ch last found i1 i2 s1 s2 =
      let (t, run, continues) = prepare_working_tree-Continues last ch.mk i1 i2 s1 s2 in
      (t, rw (found, prepare_tree, run) refl, continues)

  -- If the database holds no working tree of the block before, the block is the first one to process,
  -- and its start indices are at least 1, then prepare_tree succeeds, changes nothing but the working
  -- tree, and the new one is empty, with the block's height as its version and the configured indices.
  pub prepare_tree-initializes :
      (block_height : ℕ) (ch : Child S D M) (start : TreeStart)
      → Store.get_working_tree env.saved env.tree_json ch.db (u64 (block_height + 2 ^ 64 - 1))
        ≡ err (db not_found)
      → ch.initialize_tree_fn ≡ some start
      → start.processed_height + 1 ≡ block_height
      → 1 ≤ start.start_output_index
      → 1 ≤ start.l2_sequence
      → prepare_tree env block_height ch ≡ (
        ok tt,
        record ch {
          mk = record {
            working_tree = some (record {
              version = block_height;
              index = start.start_output_index;
              leaf_count = 0;
              start_leaf_index = start.l2_sequence;
              last_siblings = no_siblings;
              done = false;
            });
          };
        },
      )
  unfolding prepare_tree initialize_tree initialize_working_tree must_get_working_tree
      get_working_tree
  prepare_tree-initializes block_height ch start missing given first i1 s1 =
      let first' : (start.processed_height + 1 == block_height) ≡ true = ground arith in
      let valid : (ltb start.start_output_index 1 || ltb start.l2_sequence 1) ≡ false =
        ground arith in
      ground arith

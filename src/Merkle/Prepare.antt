-- ===== src/Merkle/Prepare.antt =====
-- PrepareWorkingTree: the tree of the next block continues where the last one ended.
use opinit_bots.Base.{
  ◌+◌, ◌≡◌, ◌≤◌, ◌<◌, ◌^◌, refl, true, false, ◌||◌, ltb, some, [], arith, Bool-cases, inl, inr,
}
use opinit_bots.Base.Words.{u64}
use opinit_bots.Base.Result.{ok}
use opinit_bots.Merkle.{Merkle, TreeInfo, initialize_working_tree, prepare_working_tree}

-- A working tree that continues another.
pub record Continues (last t : TreeInfo) : Type 0 where
  pub next_sequence : t.start_leaf_index + t.leaf_count ≡ last.start_leaf_index + last.leaf_count
  pub next_version : t.version ≡ u64 (last.version + 1)
  pub is_open : t.done ≡ false
  pub same_tree : last.done ≡ false → (t.index ≡ last.index) × (t.leaf_count ≡ last.leaf_count)
  pub next_tree : last.done ≡ true → (t.index ≡ last.index + 1) × (t.leaf_count ≡ 0)

-- If the indices of a saved working tree are at least 1 and below their bounds, PrepareWorkingTree
-- succeeds with an open tree of the next version, whose next leaf has the same sequence as that of the
-- saved tree: the same tree if that was open, and otherwise an empty one with the next index.
pub prepare_working_tree-Continues :
    (last : TreeInfo) (m : Merkle)
    → 1 ≤ last.index
    → last.index + 1 < 2 ^ 64
    → 1 ≤ last.start_leaf_index
    → last.start_leaf_index + last.leaf_count < 2 ^ 64
    → (t : TreeInfo) × (prepare_working_tree last m ≡ ok (record { working_tree = some t }))
      × Continues last t
unfolding prepare_working_tree initialize_working_tree
prepare_working_tree-Continues last m i1 i2 s1 s2 = elim (Bool-cases last.done) [
  | inr unfinished ↦ (
    record last { version = u64 (last.version + 1) },
    ground arith,
    record {
      next_sequence = refl;
      next_version = refl;
      is_open = unfinished;
      same_tree = λ _. (refl, refl);
      next_tree = λ done. absurd (ground arith);
    },
  )
  | inl done ↦
      let valid : (ltb (u64 (last.index + 1)) 1
            || ltb (u64 (last.start_leaf_index + last.leaf_count)) 1)
          ≡ false =
        ground arith in
      (
        record {
          version = u64 (last.version + 1);
          index = u64 (last.index + 1);
          leaf_count = 0;
          start_leaf_index = u64 (last.start_leaf_index + last.leaf_count);
          last_siblings = λ h. [];
          done = false;
        },
        ground arith,
        record {
          next_sequence = omega arith;
          next_version = refl;
          is_open = refl;
          same_tree = λ unfinished. absurd (ground arith);
          next_tree = λ _. (omega arith, refl);
        },
      )
]

-- ===== src/Merkle/Build.antt =====
-- A whole tree: initialized, filled with leaves and finalized.
use native.Mathlib.Nat.{zero-add}
use opinit_bots.Base.{
  ltb, ◌||◌, ℕ, ◌-◌, ◌^◌, ◌≤◌, ◌<◌, ◌≡◌, refl, Option, some, List, [], arith, All, get_or, length,
  false, ◌∙◌, sym, ap, subst, get_or-beyond, get_or-default,
}
use opinit_bots.Base.Result.{Result, ok, ◌>>=◌}
use opinit_bots.Merkle.{
  Bytes, Node, TreeInfo, FinalizedTreeInfo, Merkle, Error, finalize_working_tree,
  initialize_working_tree, no_siblings, tree_height_of,
}
use opinit_bots.Merkle.Climb.{IsHash}
use opinit_bots.Merkle.Tree.{Holds, Grows, WritesAll, working}
use opinit_bots.Merkle.Spec.{node_hash, ancestor-zero}
use opinit_bots.Merkle.Finalize.{finalize_lem}
use opinit_bots.Merkle.Run.{insert_leaves, insert_leaves-Grows, padded}

-- The tree that InitializeWorkingTree leaves.
abbrev pub fresh_tree : ℕ → ℕ → ℕ → TreeInfo
fresh_tree version tree_index start_leaf_index = record {
  version = version;
  index = tree_index;
  start_leaf_index = start_leaf_index;
  leaf_count = 0;
  last_siblings = no_siblings;
  done = false;
}

module _ (node_generator : Bytes → Bytes → Bytes) (version tree_index start : ℕ)
    (leaves : List Bytes) where
  abbrev leaf : ℕ → Bytes
  leaf = padded leaves

  abbrev pub tree_root : Bytes
  tree_root = node_hash node_generator leaf (tree_height_of (length leaves)) 0

  abbrev start_tree : TreeInfo
  start_tree = fresh_tree version tree_index start

  fresh-Holds : Holds node_generator leaf (fresh_tree version tree_index start)
  fresh-Holds = record {
    room = omega arith;
    last = λ j k e p. absurd (omega (arith, ancestor-zero j));
  }

  -- The record of the finalized tree, as an independent description of it.
  abbrev pub expected_info : Bytes → FinalizedTreeInfo
  expected_info extra_data = record {
    tree_index = tree_index;
    tree_height = tree_height_of (length leaves);
    root = tree_root;
    start_leaf_index = start;
    leaf_count = length leaves;
    extra_data = extra_data;
  }

  -- The nodes written while the leaves came and while the tree was filled.
  pub record Written (inserted filled : List Node) : Type 0 where
    pub inserted_hashes : All (IsHash node_generator leaf tree_index) inserted
    pub filled_hashes : All (IsHash node_generator leaf tree_index) filled
    pub inserted_all : WritesAll node_generator leaf 0 (length leaves) inserted
    pub filled_all :
        WritesAll node_generator leaf (length leaves) (2 ^ tree_height_of (length leaves)) filled

  unfoldable pub build :
      Bytes
      → Merkle
      → Result Error (Option FinalizedTreeInfo × List Node × List Node × Bytes × Merkle)
  unfolding initialize_working_tree insert_leaves finalize_working_tree
  build extra_data m = do
    m0 ← initialize_working_tree version tree_index start m
    (inserted, m1) ← insert_leaves node_generator leaves m0
    (info, filled, root, m2) ← finalize_working_tree node_generator extra_data m1
    ok (info, inserted, filled, root, m2)

  padding :
      (count k : ℕ) → 0 < count → count ≡ length leaves → count ≤ k → leaf k ≡ leaf (count - 1)
  padding count k p e c =
      get_or-beyond leaves k _ (omega arith)
      ∙ ap (λ c. get_or leaves (c - 1) []) (sym e)
      ∙ get_or-default leaves (count - 1) [] _ (omega arith)

  -- From the run of the insertions on.
  finish :
      (extra_data : Bytes) (m : Merkle) (inserted : List Node) (t : TreeInfo)
      → 1 ≤ tree_index
      → 1 ≤ start
      → 0 < length leaves
      → length leaves ≤ 2 ^ 63
      → insert_leaves node_generator leaves (working start_tree) ≡ ok (inserted, working t)
      → Grows node_generator leaf start_tree inserted t
      → t.leaf_count ≡ length leaves
      → (inserted filled : List Node) × (t : TreeInfo) × (build extra_data m
          ≡ ok (some (expected_info extra_data), inserted, filled, tree_root, working t))
        × Written inserted filled
        × (t.leaf_count ≡ length leaves)
  unfolding build
  finish extra_data m inserted t i1 s1 p q run g n =
      let (filled, t', run', f) =
        finalize_lem node_generator leaf t extra_data g.holds (omega arith) (omega arith)
          (λ k c. padding t.leaf_count k (omega arith) n c) in
      let valid : (ltb tree_index 1 || ltb start 1) ≡ false = ground arith in
      (
        inserted,
        filled,
        t',
        rw (valid, run, run', n, g.same_index, g.same_start) refl,
        record {
          inserted_hashes = g.hashes;
          filled_hashes =
              subst (λ i. All (IsHash node_generator leaf i) filled) g.same_index f.hashes;
          inserted_all = subst (λ c. WritesAll node_generator leaf 0 c inserted) n g.writes;
          filled_all =
              subst (λ c. WritesAll node_generator leaf c (2 ^ tree_height_of c) filled) n f.writes;
        },
        f.same_count ∙ n,
      )

  -- Up to 2 ^ 63 leaves, at least one, inserted into a tree with a tree index and a start index of at
  -- least 1, and finalized: every call succeeds; the tree info returned has the tree's index, its
  -- start, the number of leaves and the height that Height gives for it; its root, and the root
  -- returned, are the root hash of that full tree over the leaves followed by copies of the last; the
  -- nodes returned are nodes of that tree with their hashes, and all of them; and the leaf count of the
  -- working tree is the number of leaves again.
  pub build_lem :
      (extra_data : Bytes) (m : Merkle)
      → 1 ≤ tree_index
      → 1 ≤ start
      → 0 < length leaves
      → length leaves ≤ 2 ^ 63
      → (inserted filled : List Node) × (t : TreeInfo) × (build extra_data m
          ≡ ok (some (expected_info extra_data), inserted, filled, tree_root, working t))
        × Written inserted filled
        × (t.leaf_count ≡ length leaves)
  unfolding build
  build_lem extra_data m i1 s1 p q =
      let (inserted, t, run, g, n) =
        insert_leaves-Grows node_generator leaf leaves start_tree fresh-Holds (omega arith)
          (λ k c. rw zero-add (get_or-default leaves k [] _ c)) in
      finish extra_data m inserted t i1 s1 p q run g (n ∙ zero-add (length leaves))

-- ===== src/Merkle/Finalize.antt =====
-- FinalizeWorkingTree: the fill to a full tree, its root, and what is left of the working tree.
use native.Mathlib.Nat.{add-zero}
use opinit_bots.Base.{
  ℕ, ◌+◌, ◌-◌, ◌^◌, ◌≤◌, ◌<◌, ◌≡◌, ◌==◌, refl, some, List, [], arith, All, true, false, Bool-cases,
  inl, inr, sym, ◌∙◌, subst,
}
use opinit_bots.Base.Result.{ok}
use opinit_bots.Base.Words.{u64}
use opinit_bots.Merkle.{
  Bytes, Node, TreeInfo, FinalizedTreeInfo, tree_height_of, fill_leaves, finalize_working_tree,
}
use opinit_bots.Merkle.Climb.{IsHash}
use opinit_bots.Merkle.Tree.{Holds, Grows, WritesAll, working, insert_copies-Grows, Grows-refl}
use opinit_bots.Merkle.Spec.{ancestor, node_hash, ancestor-pow}
use opinit_bots.Merkle.Height.{le-pow-tree_height, pow-tree_height-small}

module _ (node_generator : Bytes → Bytes → Bytes) (leaf : ℕ → Bytes) where
  -- What the fill of `t` leaves: the tree `t'` of the same leaves with the root in its place.
  pub record Filled (t : TreeInfo) (nodes : List Node) (t' : TreeInfo) : Type 0 where
    pub same_index : t'.index ≡ t.index
    pub same_start : t'.start_leaf_index ≡ t.start_leaf_index
    pub same_version : t'.version ≡ t.version
    pub same_done : t'.done ≡ t.done
    pub same_count : t'.leaf_count ≡ t.leaf_count
    pub root :
        t'.last_siblings (tree_height_of t.leaf_count)
        ≡ node_hash node_generator leaf (tree_height_of t.leaf_count) 0
    pub hashes : All (IsHash node_generator leaf t.index) nodes
    pub writes : WritesAll node_generator leaf t.leaf_count (2 ^ tree_height_of t.leaf_count) nodes

  full_tree-root :
      (h : ℕ) (t : TreeInfo)
      → Holds node_generator leaf t
      → t.leaf_count ≡ 2 ^ h
      → t.last_siblings h ≡ node_hash node_generator leaf h 0
  full_tree-root h t held full =
      let one : ancestor h t.leaf_count ≡ 1 =
        rw full (subst (λ e. ancestor h (2 ^ e) ≡ 1) (add-zero h) (ancestor-pow h 0)) in
      let top = held.last h h (omega arith) (omega (arith, one)) in rw one at top

  -- The tree grown to `2 ^ height` leaves, with the leaf count put back.
  Grows-Filled :
      (t : TreeInfo) (nodes : List Node) (grown : TreeInfo) (count : ℕ)
      → Grows node_generator leaf t nodes grown
      → grown.leaf_count ≡ 2 ^ tree_height_of t.leaf_count
      → count ≡ t.leaf_count
      → Filled t nodes (record grown { leaf_count = count })
  Grows-Filled t nodes grown count g full e = record {
    same_index = g.same_index;
    same_start = g.same_start;
    same_version = g.same_version;
    same_done = g.same_done;
    same_count = e;
    root = full_tree-root _ grown g.holds full;
    hashes = g.hashes;
    writes = subst (λ n. WritesAll node_generator leaf t.leaf_count n nodes) full g.writes;
  }

  pub fill_leaves-Filled :
      (t : TreeInfo)
      → Holds node_generator leaf t
      → 0 < t.leaf_count
      → t.leaf_count ≤ 2 ^ 63
      → ((k : ℕ) → t.leaf_count ≤ k → leaf k ≡ leaf (t.leaf_count - 1))
      → (nodes : List Node) × (t' : TreeInfo) × (fill_leaves node_generator (working t)
          ≡ ok (nodes, working t'))
        × Filled t nodes t'
  unfolding fill_leaves
  fill_leaves-Filled t held p q copies =
      let full = 2 ^ tree_height_of t.leaf_count in
      let small : full < 2 ^ 64 = pow-tree_height-small t.leaf_count p q in
      let fits : t.leaf_count ≤ full = le-pow-tree_height t.leaf_count (omega arith) in
      let rest = u64 (u64 full + 2 ^ 64 - t.leaf_count) in
      let missing : rest ≡ full - t.leaf_count = omega arith in
      let last = held.last 0 0 (omega arith) p in
      let (nodes, grown, run, g, count) =
        insert_copies-Grows node_generator leaf rest (t.last_siblings 0) t held (omega arith)
          (λ k c. last ∙ sym (copies k c)) in
      elim (Bool-cases (rest == 0)) [
        | inl none_missing ↦ (
          [],
          t,
          rw none_missing refl,
          Grows-Filled t [] t t.leaf_count (Grows-refl node_generator leaf t held) (ground arith)
              refl,
        )
        | inr some_missing ↦ (
          nodes,
          record grown { leaf_count = u64 (grown.leaf_count + 2 ^ 64 - rest) },
          rw (some_missing, run) refl,
          Grows-Filled t nodes grown _ g (omega arith) (omega arith),
        )
      ]

  -- The record that a finalization of `t` saves.
  abbrev pub finalized_info : TreeInfo → Bytes → FinalizedTreeInfo
  finalized_info t extra_data = record {
    tree_index = t.index;
    tree_height = tree_height_of t.leaf_count;
    root = node_hash node_generator leaf (tree_height_of t.leaf_count) 0;
    start_leaf_index = t.start_leaf_index;
    leaf_count = t.leaf_count;
    extra_data = extra_data;
  }

  pub finalize_lem :
      (t : TreeInfo) (extra_data : Bytes)
      → Holds node_generator leaf t
      → 0 < t.leaf_count
      → t.leaf_count ≤ 2 ^ 63
      → ((k : ℕ) → t.leaf_count ≤ k → leaf k ≡ leaf (t.leaf_count - 1))
      → (nodes : List Node) × (t' : TreeInfo) × (finalize_working_tree node_generator extra_data
            (working t)
          ≡ ok (
            some (finalized_info t extra_data),
            nodes,
            node_hash node_generator leaf (tree_height_of t.leaf_count) 0,
            working t',
          ))
        × Filled (record t { done = true }) nodes t'
  unfolding finalize_working_tree
  finalize_lem t extra_data held p q copies =
      let marked : TreeInfo = record t { done = true } in
      let (nodes, t', run, f) =
        fill_leaves-Filled marked (record { room = held.room; last = held.last }) p q copies in
      let some_leaves : (t.leaf_count == 0) ≡ false = ground arith in
      (nodes, t', rw (some_leaves, run, f.same_count, f.same_index, f.same_start, f.root) refl, f)

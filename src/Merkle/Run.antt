-- ===== src/Merkle/Run.antt =====
-- Leaves inserted one after another.
use opinit_bots.Base.{
  ℕ, suc, ◌+◌, ◌-◌, ◌^◌, ◌<◌, ◌≡◌, refl, List, [], ◌∷◌, ◌++◌, arith, get_or, length, ◌∙◌, subst,
}
use opinit_bots.Base.Result.{Result, ok, ◌>>=◌}
use opinit_bots.Merkle.{Bytes, Node, TreeInfo, Merkle, Error, insert_leaf, insert_into}
use opinit_bots.Merkle.Tree.{Holds, Grows, working, insert_into-Grows, Grows-refl, Grows-trans}

-- The leaves in the order of their insertion, one InsertLeaf for each.
unfoldable pub insert_leaves :
    (Bytes → Bytes → Bytes) → List Bytes → Merkle → Result Error (List Node × Merkle)
insert_leaves node_generator [] m = ok ([], m)
insert_leaves node_generator (leaf ∷ leaves) m = do
  (nodes, m') ← insert_leaf node_generator leaf m
  (more, m'') ← insert_leaves node_generator leaves m'
  ok (nodes ++ more, m'')

-- The leaves followed by copies of the last one.
abbrev pub padded : List Bytes → ℕ → Bytes
padded leaves i = get_or leaves i (get_or leaves (length leaves - 1) [])

module _ (node_generator : Bytes → Bytes → Bytes) (leaf : ℕ → Bytes) where
  pub insert_leaves-Grows :
      (leaves : List Bytes) (t : TreeInfo)
      → Holds node_generator leaf t
      → t.leaf_count + length leaves < 2 ^ 64
      → ((k : ℕ) → k < length leaves → get_or leaves k [] ≡ leaf (t.leaf_count + k))
      → (nodes : List Node) × (t' : TreeInfo) × (insert_leaves node_generator leaves (working t)
          ≡ ok (nodes, working t'))
        × Grows node_generator leaf t nodes t'
        × (t'.leaf_count ≡ t.leaf_count + length leaves)
  unfolding insert_leaves insert_leaf
  insert_leaves-Grows [] t held room same =
      ([], t, refl, Grows-refl node_generator leaf t held, omega arith)
  insert_leaves-Grows (d ∷ ds) t held room same =
      let first = insert_into node_generator d t in
      let here : t.leaf_count + 0 ≡ t.leaf_count = omega arith in
      let (g, n) =
        insert_into-Grows node_generator leaf d t held (omega arith)
          (subst (λ k. d ≡ leaf k) here (same 0 (omega arith))) in
      let (nodes, t', run, g', n') = insert_leaves-Grows ds first.1 g.holds (omega arith) (λ k p.
        let shift : t.leaf_count + suc k ≡ first.1.leaf_count + k = omega (arith, n) in
        same (suc k) (omega arith) ∙ (λ i. leaf (shift i))) in
      (first.0 ++ nodes, t', rw run refl, Grows-trans node_generator leaf g g', omega arith)

-- ===== src/Merkle/Tree.antt =====
-- InsertLeaf and the fill with copies of the last leaf, on the whole working tree.
use opinit_bots.Base.{
  ℕ, zero, suc, ◌+◌, ◌-◌, ◌^◌, ◌≤◌, ◌<◌, ◌≡◌, refl, some, List, [], ◌∷◌, ◌++◌, arith, All, inl, inr,
  All-append, dec_lt, ◌∙◌, subst,
}
use opinit_bots.Base.Result.{ok}
use opinit_bots.Base.Words.{u64, lt_wf}
use opinit_bots.Merkle.{Bytes, Node, TreeInfo, Merkle, insert_into, insert_copies}
use opinit_bots.Merkle.Insert.{Climb, insert_loop-Climb}
use opinit_bots.Merkle.Climb.{IsLast, IsHash, Writes, Climb-IsLast, Climb-IsHash, Climb-Writes}
use opinit_bots.Merkle.Spec.{ancestor, ancestor-suc_le}

abbrev pub working : TreeInfo → Merkle
working t = record { working_tree = some t }

module _ (node_generator : Bytes → Bytes → Bytes) (leaf : ℕ → Bytes) where
  -- The working tree holds the first `leaf_count` leaves.
  pub record Holds (t : TreeInfo) : Type 0 where
    pub room : t.leaf_count < 2 ^ 64
    pub last : IsLast node_generator leaf 0 t.leaf_count t.last_siblings

  -- The nodes that appear when the tree grows from `m` to `n` leaves.
  abbrev pub WritesAll : ℕ → ℕ → List Node → Type 0
  WritesAll m n nodes = (h i : ℕ) → ancestor h m ≤ i → i < ancestor h n → Writes h i nodes

  -- A growth step: what is written are the new nodes, with their hashes.
  pub record Grows (t : TreeInfo) (nodes : List Node) (t' : TreeInfo) : Type 0 where
    pub same_index : t'.index ≡ t.index
    pub same_start : t'.start_leaf_index ≡ t.start_leaf_index
    pub same_version : t'.version ≡ t.version
    pub same_done : t'.done ≡ t.done
    pub holds : Holds t'
    pub hashes : All (IsHash node_generator leaf t.index) nodes
    pub writes : WritesAll t.leaf_count t'.leaf_count nodes

  new_node :
      {tree_index n : ℕ} {d : Bytes} {s r : ℕ → Bytes} {nodes : List Node}
      → Climb node_generator tree_index 0 n d s nodes r
      → WritesAll n (suc n) nodes
  new_node {n = n} climb h i p q =
      let at : i ≡ ancestor h n = omega (arith, ancestor-suc_le h n) in
      rw at (Climb-Writes node_generator leaf _ climb h h (omega arith) (omega arith))

  pub insert_into-Grows :
      (d : Bytes) (t : TreeInfo)
      → Holds t
      → t.leaf_count < 2 ^ 64 - 1
      → d ≡ leaf t.leaf_count
      → let r = insert_into node_generator d t in
        Grows t r.0 r.1 × (r.1.leaf_count ≡ suc t.leaf_count)
  unfolding insert_into
  insert_into-Grows d t held p e =
      let climb =
        insert_loop-Climb node_generator t.index 64 0 t.leaf_count d (lt_wf.apply t.leaf_count)
          t.last_siblings held.room (omega arith) in
      let next : u64 (t.leaf_count + 1) ≡ suc t.leaf_count = omega arith in
      (
        record {
          same_index = refl;
          same_start = refl;
          same_version = refl;
          same_done = refl;
          holds = record {
            room = omega arith;
            last = rw next (Climb-IsLast node_generator leaf t.index climb e held.last);
          };
          hashes = Climb-IsHash node_generator leaf t.index climb held.room e held.last;
          writes = rw next (new_node climb);
        },
        next,
      )

  pub Grows-refl : (t : TreeInfo) → Holds t → Grows t [] t
  Grows-refl t held = record {
    same_index = refl;
    same_start = refl;
    same_version = refl;
    same_done = refl;
    holds = held;
    hashes = tt;
    writes = λ h i p q. absurd (omega arith);
  }

  Writes-append_left : (h i : ℕ) (xs ys : List Node) → Writes h i xs → Writes h i (xs ++ ys)
  Writes-append_left h i [] ys w = elim w [ ]
  Writes-append_left h i (x ∷ xs) ys (inl here) = inl here
  Writes-append_left h i (x ∷ xs) ys (inr there) = inr (Writes-append_left h i xs ys there)

  Writes-append_right : (h i : ℕ) (xs ys : List Node) → Writes h i ys → Writes h i (xs ++ ys)
  Writes-append_right h i [] ys w = w
  Writes-append_right h i (x ∷ xs) ys w = inr (Writes-append_right h i xs ys w)

  WritesAll-append :
      (m n o : ℕ) (xs ys : List Node)
      → WritesAll m n xs
      → WritesAll n o ys
      → WritesAll m o (xs ++ ys)
  WritesAll-append m n o xs ys p q h i lo hi = elim (dec_lt i (ancestor h n)) [
    | yes low ↦ Writes-append_left h i xs ys (p h i lo low)
    | no high ↦ Writes-append_right h i xs ys (q h i (omega arith) hi)
  ]

  pub Grows-trans :
      {t u v : TreeInfo} {xs ys : List Node} → Grows t xs u → Grows u ys v → Grows t (xs ++ ys) v
  Grows-trans {t} {u} {v} {xs} {ys} g k = record {
    same_index = k.same_index ∙ g.same_index;
    same_start = k.same_start ∙ g.same_start;
    same_version = k.same_version ∙ g.same_version;
    same_done = k.same_done ∙ g.same_done;
    holds = k.holds;
    hashes =
        All-append (IsHash node_generator leaf t.index) xs ys g.hashes
          (subst (λ n. All (IsHash node_generator leaf n) ys) g.same_index k.hashes);
    writes = WritesAll-append t.leaf_count u.leaf_count v.leaf_count xs ys g.writes k.writes;
  }

  -- Copies of one leaf.
  pub insert_copies-Grows :
      (rest : ℕ) (d : Bytes) (t : TreeInfo)
      → Holds t
      → t.leaf_count + rest < 2 ^ 64
      → ((k : ℕ) → t.leaf_count ≤ k → d ≡ leaf k)
      → (nodes : List Node) × (t' : TreeInfo) × (insert_copies node_generator rest d (working t)
          ≡ ok (nodes, working t'))
        × Grows t nodes t'
        × (t'.leaf_count ≡ t.leaf_count + rest)
  unfolding insert_copies
  insert_copies-Grows zero d t held room copies = ([], t, refl, Grows-refl t held, omega arith)
  insert_copies-Grows (suc rest) d t held room copies =
      let first = insert_into node_generator d t in
      let (g, n) = insert_into-Grows d t held (omega arith) (copies t.leaf_count (omega arith)) in
      let (nodes, t', run, g', n') =
        insert_copies-Grows rest d first.1 g.holds (omega arith) (λ k p. copies k (omega arith)) in
      (first.0 ++ nodes, t', rw run refl, Grows-trans g g', omega arith)

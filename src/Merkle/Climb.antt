-- ===== src/Merkle/Climb.antt =====
-- What a run of the insertion loop does to the siblings, and which nodes it writes.
use opinit_bots.Base.{
  ℕ, zero, suc, ◌+◌, ◌-◌, ◌*◌, ◌/◌, ◌%◌, ◌^◌, ◌<◌, ◌≡◌, refl, List, [], ◌∷◌, arith, All, ◌⊎◌, inl,
  inr,
}
use opinit_bots.Merkle.{Bytes, Node, update}
use opinit_bots.Merkle.Insert.{Climb, stop, up}
use opinit_bots.Merkle.Spec.{ancestor, node_hash}

-- A node with the given height and index stands in the list.
abbrev pub Writes : ℕ → ℕ → List Node → Type 0
Writes h i [] = ⊥
Writes h i (x ∷ xs) = ((x.height ≡ h) × (x.local_node_index ≡ i)) ⊎ Writes h i xs

module _ (node_generator : Bytes → Bytes → Bytes) (leaf : ℕ → Bytes) where
  -- A node of the tree `tree_index` with the hash of its place, which fits in a uint64.
  pub record IsHash (tree_index : ℕ) (x : Node) : Type 0 where
    pub in_tree : x.tree_index ≡ tree_index
    pub in_range : x.local_node_index < 2 ^ 64
    pub hash : x.bytes ≡ node_hash node_generator leaf x.height x.local_node_index

  -- The siblings from height `h` on are the last complete nodes over `n` nodes of height `h`.
  abbrev pub IsLast : ℕ → ℕ → (ℕ → Bytes) → Type 0
  IsLast h n s =
      (j k : ℕ)
      → h + j ≡ k
      → 0 < ancestor j n
      → s k ≡ node_hash node_generator leaf k (ancestor j n - 1)

  -- One height up.
  IsLast-up :
      (h n : ℕ) (d : Bytes) (s : ℕ → Bytes) → IsLast h n s → IsLast (suc h) (n / 2) (update s h d)
  IsLast-up h n d s last j k e p = ground (arith, last (suc j) k)

  parent_hash :
      (h n : ℕ) (d : Bytes) (s : ℕ → Bytes)
      → n % 2 ≡ 1
      → d ≡ node_hash node_generator leaf h n
      → IsLast h n s
      → node_generator (s h) d ≡ node_hash node_generator leaf (suc h) (n / 2)
  parent_hash h n d s odd e last =
      let left : 2 * (n / 2) ≡ n - 1 = omega arith in
      let right : n - 1 + 1 ≡ n = omega arith in
      let sibling = last 0 h (omega arith) (omega arith) in rw (left, right) (cc (sibling, e))

module _ (node_generator : Bytes → Bytes → Bytes) (leaf : ℕ → Bytes) (tree_index : ℕ) where
  -- The siblings below the height are left alone.
  pub Climb-below :
      {h n : ℕ} {d : Bytes} {s r : ℕ → Bytes} {nodes : List Node}
      → Climb node_generator tree_index h n d s nodes r
      → (k : ℕ) → k < h
      → r k ≡ s k
  Climb-below (stop even) k p = ground arith
  Climb-below {h} (up odd rest) k p = ground (arith, Climb-below rest k)

  pub Climb-IsLast :
      {h n : ℕ} {d : Bytes} {s r : ℕ → Bytes} {nodes : List Node}
      → Climb node_generator tree_index h n d s nodes r
      → d ≡ node_hash node_generator leaf h n
      → IsLast node_generator leaf h n s
      → IsLast node_generator leaf h (suc n) r
  Climb-IsLast {h} {n} (stop even) e last zero k f p =
      let at : h ≡ k = omega arith in
      let count : suc n - 1 ≡ n = omega arith in rw count (ground arith)
  Climb-IsLast {h} {n} (stop even) e last (suc j) k f p =
      let half : suc n / 2 ≡ n / 2 = omega arith in
      rw half (ground (arith, last (suc j) k f (rw half at p)))
  Climb-IsLast {h} {n} {d} {s} (up odd rest) e last zero k f p =
      let at : h ≡ k = omega arith in
      let count : suc n - 1 ≡ n = omega arith in rw count (ground (arith, Climb-below rest k))
  Climb-IsLast {h} {n} {d} {s} (up odd rest) e last (suc j) k f p =
      let half : suc n / 2 ≡ suc (n / 2) = omega arith in
      rw half (
        Climb-IsLast rest (parent_hash node_generator leaf h n d s odd e last)
          (IsLast-up node_generator leaf h n d s last) j k (omega arith) (rw half at p))

  pub Climb-IsHash :
      {h n : ℕ} {d : Bytes} {s r : ℕ → Bytes} {nodes : List Node}
      → Climb node_generator tree_index h n d s nodes r
      → n < 2 ^ 64
      → d ≡ node_hash node_generator leaf h n
      → IsLast node_generator leaf h n s
      → All (IsHash node_generator leaf tree_index) nodes
  Climb-IsHash (stop even) fits e last = (record { in_tree = refl; in_range = fits; hash = e }, tt)
  Climb-IsHash {h} {n} {d} {s} (up odd rest) fits e last = (
    record { in_tree = refl; in_range = fits; hash = e },
    Climb-IsHash rest (omega arith) (parent_hash node_generator leaf h n d s odd e last)
        (IsLast-up node_generator leaf h n d s last),
  )

  pub Climb-Writes :
      {h n : ℕ} {d : Bytes} {s r : ℕ → Bytes} {nodes : List Node}
      → Climb node_generator tree_index h n d s nodes r
      → (j k : ℕ) → h + j ≡ k
      → ancestor j n < ancestor j (suc n)
      → Writes k (ancestor j n) nodes
  Climb-Writes (stop even) zero k f p = inl (omega arith, refl)
  Climb-Writes {h} {n} (stop even) (suc j) k f p =
      let half : suc n / 2 ≡ n / 2 = omega arith in
      let q : ancestor j (n / 2) < ancestor j (n / 2) = rw half at p in absurd (omega arith)
  Climb-Writes (up odd rest) zero k f p = inl (omega arith, refl)
  Climb-Writes {h} {n} (up odd rest) (suc j) k f p =
      let half : suc n / 2 ≡ suc (n / 2) = omega arith in
      inr (Climb-Writes rest j k (omega arith) (rw half at p))

-- ===== src/Merkle/Proofs.antt =====
-- GetProofs on a finalized tree whose nodes were saved.
use Prim.Native.Nat.{bit_xor}
use mathlib.Core.Path.{subst₂}
use native.Mathlib.Nat.{zero-add, add-zero}
use opinit_bots.Base.{
  ℕ, zero, suc, ◌+◌, ◌-◌, ◌^◌, ◌≤◌, ◌<◌, ◌≡◌, refl, Option, some, List, arith, get_or, length, inl,
  inr, dec_lt, get_or-default, sym, ◌∙◌, subst, ltb, leb, false, [],
}
use opinit_bots.Base.Result.{ok}
use opinit_bots.Base.Words.{two_pow-suc, suc-add}
use opinit_bots.Base.Bits.{bit_xor-one}
use opinit_bots.Db.{Database, DbError, Json}
use opinit_bots.Db
use opinit_bots.Merkle.{Bytes, Node, Merkle, FinalizedTreeInfo, tree_height_of}
use opinit_bots.Merkle.Keys.{prefixed_node_key, finalized_tree_prefix, prefixed_finalized_tree_key}
use opinit_bots.Merkle.Store.{save_nodes, siblings, get_proofs}
use opinit_bots.Merkle.Saved.{fold_proof, save_nodes-Has, siblings-fold_proof}
use opinit_bots.Merkle.Spec.{ancestor, node_hash, ancestor-pow, ancestor-lt_pow, ancestor-zero}
use opinit_bots.Merkle.Height.{le-pow-tree_height, pow-tree_height-small}
use opinit_bots.Merkle.Build.{build, build_lem, expected_info, tree_root, Written}
use opinit_bots.Merkle.Run.{padded}

-- The sibling of a node below the top of a full tree is in the tree.
sibling-lt :
    (h d n : ℕ) → n < 2 ^ (h + suc d) → bit_xor (ancestor h n) 1 < ancestor h (2 ^ (h + suc d))
sibling-lt h d n p =
    rw ancestor-pow
      (ground (arith, bit_xor-one (ancestor h n), ancestor-lt_pow h (suc d) n p, two_pow-suc d))

pow-lt-pow_64 : (h d : ℕ) → 2 ^ (h + d) < 2 ^ 64 → 2 ^ d < 2 ^ 64
pow-lt-pow_64 zero d p = rw zero-add at p
pow-lt-pow_64 (suc h) d p =
    let q : 2 ^ suc (h + d) < 2 ^ 64 = rw suc-add at p in
    pow-lt-pow_64 h d (omega (arith, two_pow-suc (h + d)))

sibling_in_tree :
    (j height l : ℕ)
    → j < height
    → l < 2 ^ height
    → 2 ^ height < 2 ^ 64
    → (bit_xor (ancestor j l) 1 < ancestor j (2 ^ height)) × (bit_xor (ancestor j l) 1 < 2 ^ 64)
sibling_in_tree j height l p q small =
    let d = height - suc j in
    let split : height ≡ j + suc d = omega arith in
    let q' : l < 2 ^ (j + suc d) = subst (λ e. l < 2 ^ e) split q in
    let small' : 2 ^ (j + suc d) < 2 ^ 64 = subst (λ e. 2 ^ e < 2 ^ 64) split small in
    let below = sibling-lt j d l q' in
    (
      subst (λ e. bit_xor (ancestor j l) 1 < ancestor j (2 ^ e)) (sym split) below,
      omega (arith, below, ancestor-pow j (suc d), pow-lt-pow_64 j (suc d) small'),
    )

module _ {S : Type 0} (database : Database S) (laws : Db.Writes database)
    (node_generator : Bytes → Bytes → Bytes) (version tree_index start : ℕ)
    (leaves : List Bytes) where
  abbrev leaf : ℕ → Bytes
  leaf = padded leaves

  abbrev HasNode : S → ℕ → ℕ → Type 0
  HasNode s h i =
      database.get s (prefixed_node_key tree_index h i) ≡ ok (node_hash node_generator leaf h i)

  -- After both writes every node of the full tree is in the store.
  all_saved :
      (inserted filled : List Node) (s : S) {s1 s2 : S}
      → tree_index < 2 ^ 64
      → Written node_generator version tree_index start leaves inserted filled
      → save_nodes database inserted s ≡ ok s1
      → save_nodes database filled s1 ≡ ok s2
      → (h i : ℕ) → i < ancestor h (2 ^ tree_height_of (length leaves))
      → i < 2 ^ 64
      → HasNode s2 h i
  all_saved inserted filled s t w run1 run2 h i p q =
      save_nodes-Has database laws node_generator leaf tree_index t filled _ h i run2
        w.filled_hashes q
        (elim (dec_lt i (ancestor h (length leaves))) [
          | yes old ↦ inl (
              save_nodes-Has database laws node_generator leaf tree_index t inserted s h i run1
                w.inserted_hashes q (inr (w.inserted_all h i (omega (arith, ancestor-zero h)) old)))
          | no new ↦ inr (w.filled_all h i (omega arith) p)
        ])

  found :
      (inserted filled : List Node) (s : S) {s1 s2 : S} (l : ℕ)
      → (commutes : (a b : Bytes) → node_generator a b ≡ node_generator b a) → tree_index < 2 ^ 64
      → l < length leaves
      → length leaves ≤ 2 ^ 63
      → Written node_generator version tree_index start leaves inserted filled
      → save_nodes database inserted s ≡ ok s1
      → save_nodes database filled s1 ≡ ok s2
      → (proofs : List Bytes) × (siblings database
            (tree_height_of (length leaves))
            s2
            tree_index
            0
            l
          ≡ ok proofs)
        × (fold_proof node_generator (leaf l) proofs
            ≡ node_hash node_generator leaf
                (tree_height_of (length leaves))
                (ancestor (tree_height_of (length leaves)) l))
  found inserted filled s {s2 = s2} l commutes t p q w run1 run2 =
      siblings-fold_proof database laws node_generator leaf tree_index t commutes
        (tree_height_of (length leaves)) 0 l (tree_height_of (length leaves)) s2 (zero-add _)
        (λ j k e c.
          let (below, fits) =
            sibling_in_tree j (tree_height_of (length leaves)) l c
              (omega (arith, le-pow-tree_height (length leaves)))
              (pow-tree_height-small (length leaves) (omega arith) q) in
          subst (λ k. HasNode s2 k (bit_xor (ancestor j l) 1)) (sym (zero-add j) ∙ e)
            (all_saved inserted filled s t w run1 run2 j (bit_xor (ancestor j l) 1) below fits))

  top :
      (l : ℕ)
      → l < length leaves
      → length leaves ≤ 2 ^ 63
      → ancestor (tree_height_of (length leaves)) l ≡ 0
  top l p q =
      let h = tree_height_of (length leaves) in
      let room : l < 2 ^ (h + 0) =
        rw add-zero (omega (arith, le-pow-tree_height (length leaves))) in
      omega (arith, ancestor-lt_pow h 0 l room)

  -- The statement of `get_proofs-build`, from the nodes that the tree has written.
  proofs-Written :
      (json : Json FinalizedTreeInfo) (extra_data : Bytes) (inserted filled : List Node) (s : S)
      {s1 s2 : S} (l : ℕ) {k value : Bytes}
      → ((a b : Bytes) → node_generator a b ≡ node_generator b a)
      → tree_index < 2 ^ 64
      → l < length leaves
      → length leaves ≤ 2 ^ 63
      → Written node_generator version tree_index start leaves inserted filled
      → save_nodes database inserted s ≡ ok s1
      → save_nodes database filled s1 ≡ ok s2
      → database.seek_prev_inclusive_key s2 finalized_tree_prefix
          (prefixed_finalized_tree_key (start + l))
        ≡ ok (k, value)
      → json.unmarshal value
        ≡ some (expected_info node_generator version tree_index start leaves extra_data)
      → (proofs : List Bytes) × (get_proofs database json s2 (start + l)
          ≡ ok (
            proofs,
            tree_index,
            tree_root node_generator version tree_index start leaves,
            extra_data,
          ))
        × (fold_proof node_generator (get_or leaves l []) proofs
            ≡ tree_root node_generator version tree_index start leaves)
  unfolding get_proofs
  proofs-Written json extra_data inserted filled s {s2 = s2} l commutes t p q w run1 run2 sought
        decoded =
      let (proofs, run, fold) = found inserted filled s l commutes t p q w run1 run2 in
      let after_start : ltb (start + l) start ≡ false = ground arith in
      let local : start + l - start ≡ l = omega arith in
      let inside : leb (length leaves) l ≡ false = ground arith in
      (
        proofs,
        rw (sought, decoded, after_start, local, inside, run) refl,
        rw (top l p q, get_or-default leaves l _ [] p) at fold,
      )

  build-Written :
      (extra_data : Bytes) (m : Merkle) (inserted filled : List Node)
      {info : Option FinalizedTreeInfo} {root : Bytes} {m' : Merkle}
      → 1 ≤ tree_index
      → 1 ≤ start
      → 0 < length leaves
      → length leaves ≤ 2 ^ 63
      → build node_generator version tree_index start leaves extra_data m
        ≡ ok (info, inserted, filled, root, m')
      → Written node_generator version tree_index start leaves inserted filled
  build-Written extra_data m inserted filled i1 s1 p q built =
      let (inserted', filled', t, run, w, count) =
        build_lem node_generator version tree_index start leaves extra_data m i1 s1 p q in
      let same = sym run ∙ built in
      let first : inserted' ≡ inserted = ground arith in
      let second : filled' ≡ filled = ground arith in
      subst₂ (Written node_generator version tree_index start leaves) first second w

  -- Take a tree that was built over `leaves` and finalized with an index below 2 ^ 64, all of whose
  -- nodes were saved in a store that returns what was written last. If the joining of nodes does not
  -- depend on the order of its arguments, and the search below the key of leaf `start + l` finds the
  -- finalized tree, then GetProofs of that leaf succeeds with the tree's index, its root and its extra
  -- data, and joining the leaf's hash with the proofs, one after another, gives the root.
  pub get_proofs-build :
      (json : Json FinalizedTreeInfo) (extra_data : Bytes) (m : Merkle)
      (inserted filled : List Node) (s : S) {s1 s2 : S} (l : ℕ) {k value root : Bytes} {m' : Merkle}
      → ((a b : Bytes) → node_generator a b ≡ node_generator b a)
      → 1 ≤ tree_index
      → tree_index < 2 ^ 64
      → 1 ≤ start
      → l < length leaves
      → length leaves ≤ 2 ^ 63
      → build node_generator version tree_index start leaves extra_data m
        ≡ ok (
          some (expected_info node_generator version tree_index start leaves extra_data),
          inserted,
          filled,
          root,
          m',
        )
      → save_nodes database inserted s ≡ ok s1
      → save_nodes database filled s1 ≡ ok s2
      → database.seek_prev_inclusive_key s2 finalized_tree_prefix
          (prefixed_finalized_tree_key (start + l))
        ≡ ok (k, value)
      → json.unmarshal value
        ≡ some (expected_info node_generator version tree_index start leaves extra_data)
      → (proofs : List Bytes) × (get_proofs database json s2 (start + l)
          ≡ ok (
            proofs,
            tree_index,
            tree_root node_generator version tree_index start leaves,
            extra_data,
          ))
        × (fold_proof node_generator (get_or leaves l []) proofs
            ≡ tree_root node_generator version tree_index start leaves)
  get_proofs-build json extra_data m inserted filled s l commutes i1 t s1 p q built run1 run2 sought
        decoded =
      let w = build-Written extra_data m inserted filled i1 s1 (omega arith) q built in
      proofs-Written json extra_data inserted filled s l commutes t p q w run1 run2 sought decoded

-- ===== src/Merkle/Saved.antt =====
-- What SaveNodes leaves in a store, and that a leaf's proof leads from the leaf to the root.
use Prim.Native.Nat.{bit_xor}
use native.Mathlib.Numerals.{add-one}
use opinit_bots.Base.Bits.{bit_xor-one}
use opinit_bots.Base.{
  ℕ, zero, suc, ◌+◌, ◌*◌, ◌/◌, ◌%◌, ◌^◌, ◌<◌, ◌≡◌, ◌≢◌, refl, List, [], ◌∷◌, arith, All, ◌⊎◌, inl,
  inr, ℕ_discrete, sym, ◌∙◌, ap, subst,
}
use opinit_bots.Base.Result.{ok, Result-cases}
use opinit_bots.Db.{Bytes, Database, DbError}
use opinit_bots.Db
use opinit_bots.Merkle.{Node}
use opinit_bots.Merkle.Keys.{prefixed_node_key, prefixed_node_key-injective}
use opinit_bots.Merkle.Store.{save_nodes, key, siblings}
use opinit_bots.Merkle.Climb.{IsHash, Writes}
use opinit_bots.Merkle.Spec.{ancestor, node_hash}

-- The root that a proof leads to from a node: each sibling is joined to what was computed so far.
unfoldable pub fold_proof : (Bytes → Bytes → Bytes) → Bytes → List Bytes → Bytes
fold_proof node_generator node [] = node
fold_proof node_generator node (proof ∷ proofs) =
    fold_proof node_generator (node_generator node proof) proofs

Place-discrete : Discrete (ℕ × ℕ)
Place-discrete = hlevel ℕ_discrete

module _ {S : Type 0} (database : Database S) (laws : Db.Writes database)
    (node_generator : Bytes → Bytes → Bytes) (leaf : ℕ → Bytes) (tree_index : ℕ)
    (in_range : tree_index < 2 ^ 64) where
  -- The store has the hash of a node.
  abbrev pub Has : S → ℕ → ℕ → Type 0
  Has s h i =
      database.get s (prefixed_node_key tree_index h i) ≡ ok (node_hash node_generator leaf h i)

  other_key :
      (x : Node) (h i : ℕ)
      → x.tree_index ≡ tree_index
      → x.local_node_index < 2 ^ 64
      → i < 2 ^ 64
      → ◌≢◌ {A = ℕ × ℕ} (x.height, x.local_node_index) (h, i)
      → key x ≢ prefixed_node_key tree_index h i
  unfolding key
  other_key x h i e fits p elsewhere same =
      let (hh, ii) =
        prefixed_node_key-injective tree_index x.height x.local_node_index h i in_range fits p
          (ap (λ t. prefixed_node_key t x.height x.local_node_index) (sym e) ∙ same) in
      elsewhere (λ j. (hh j, ii j))

  after_write :
      (x : Node) (xs : List Node) (s : S) {s' : S} (h i : ℕ)
      → database.set s (key x) x.bytes ≡ ok s'
      → IsHash node_generator leaf tree_index x
      → i < 2 ^ 64
      → Has s h i ⊎ Writes h i (x ∷ xs)
      → Has s' h i ⊎ Writes h i xs
  unfolding key
  after_write x xs s {s'} h i write right p has =
      elim (Place-discrete (x.height, x.local_node_index) (h, i)) [
        | yes here ↦ inl (
            subst (λ k. database.get s' k ≡ ok (node_hash node_generator leaf h i))
              (λ j. prefixed_node_key (right.in_tree j) (here j).0 (here j).1)
              (laws.get-set_self s (key x) x.bytes write ∙ λ j.
                ok ((right.hash ∙ (λ j. node_hash node_generator leaf (here j).0 (here j).1)) j)))
        | no elsewhere ↦ elim has [
          | inl old ↦ inl (
              laws.get-set_ne s (key x) _ x.bytes write
                (other_key x h i right.in_tree right.in_range p elsewhere)
              ∙ old)
          | inr (inl here) ↦ absurd (elsewhere (λ j. (here.0 j, here.1 j)))
          | inr (inr there) ↦ inr there
        ]
      ]

  -- Written or there before, a node is in the store after a successful SaveNodes.
  pub save_nodes-Has :
      (nodes : List Node) (s : S) {s' : S} (h i : ℕ)
      → save_nodes database nodes s ≡ ok s'
      → All (IsHash node_generator leaf tree_index) nodes
      → i < 2 ^ 64
      → Has s h i ⊎ Writes h i nodes
      → Has s' h i
  unfolding save_nodes
  save_nodes-Has [] s h i run hashes p (inl old) = ground arith
  save_nodes-Has [] s h i run hashes p (inr new) = elim new [ ]
  save_nodes-Has (x ∷ xs) s h i run hashes p has =
      elim (Result-cases (database.set s (key x) x.bytes)) [
        | inl (s1, e) ↦
            save_nodes-Has xs s1 h i (rw e at run) hashes.1 p
              (after_write x xs s h i e hashes.0 p has)
        | inr (failed, e) ↦ absurd (ground arith)
      ]

  module _ (commutes : (a b : Bytes) → node_generator a b ≡ node_generator b a) where
    -- A node and its sibling make their parent.
    parent_of_sibling :
        (h n : ℕ)
        → node_generator
            (node_hash node_generator leaf h n)
            (node_hash node_generator leaf h (bit_xor n 1))
          ≡ node_hash node_generator leaf (suc h) (n / 2)
    parent_of_sibling h n = elim (ℕ_discrete (n % 2) 0) [
      | yes even ↦
          let there : bit_xor n 1 ≡ 2 * (n / 2) + 1 = ground (arith, bit_xor-one n) in
          let here : n ≡ 2 * (n / 2) = omega arith in
          λ j.
            node_generator (node_hash node_generator leaf h (here j))
              (node_hash node_generator leaf h (there j))
      | no odd ↦
          let there : bit_xor n 1 ≡ 2 * (n / 2) = ground (arith, bit_xor-one n) in
          let here : n ≡ 2 * (n / 2) + 1 = omega arith in
          commutes _ _ ∙ λ j.
          node_generator (node_hash node_generator leaf h (there j))
            (node_hash node_generator leaf h (here j))
    ]

    -- With the siblings of a node and of its ancestors in the store, the proof is found, and leads
    -- to the ancestor `rounds` heights up.
    pub siblings-fold_proof :
        (rounds h n top : ℕ) (s : S)
        → h + rounds ≡ top
        → ((j k : ℕ) → h + j ≡ k → j < rounds → Has s k (bit_xor (ancestor j n) 1))
        → (proofs : List Bytes) × (siblings database rounds s tree_index h n ≡ ok proofs)
          × (fold_proof node_generator (node_hash node_generator leaf h n) proofs
              ≡ node_hash node_generator leaf top (ancestor rounds n))
    unfolding siblings fold_proof
    siblings-fold_proof zero h n top s e has =
        let here : h ≡ top = omega arith in
        ([], refl, λ j. node_hash node_generator leaf (here j) n)
    siblings-fold_proof (suc rounds) h n top s e has =
        let found = has zero h (omega arith) (omega arith) in
        let (proofs, run, fold) =
          siblings-fold_proof rounds (suc h) (n / 2) top s (omega arith)
            (λ j k f p. has (suc j) k (omega arith) (omega arith)) in
        (
          node_hash node_generator leaf h (bit_xor n 1) ∷ proofs,
          rw (found, add-one, run) refl,
          rw parent_of_sibling fold,
        )

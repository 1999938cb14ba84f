-- ===== src/Merkle/Insert.antt =====
-- The insertion loop as a relation, one rule for each way an iteration can go.
use mathlib.Core.Logic.{dif_pos, dif_neg}
use native.Mathlib.Nat.{ℕ_set}
use opinit_bots.Base.{
  ℕ, zero, suc, ◌+◌, ◌/◌, ◌%◌, ◌^◌, ◌<◌, ◌≡◌, List, [], ◌∷◌, Acc, arith, ℕ_discrete,
}
use opinit_bots.Base.Words.{two_pow-suc, half-lt}
use opinit_bots.Merkle.{Bytes, Node, update, insert_loop}

abbrev pub node_at : ℕ → ℕ → ℕ → Bytes → Node
node_at tree_index h n d = record {
  tree_index = tree_index;
  height = h;
  local_node_index = n;
  bytes = d;
}

module _ (node_generator : Bytes → Bytes → Bytes) (tree_index : ℕ) where
  -- From height `h`, with `n` complete nodes there and the next node `d`: the nodes written and the
  -- siblings left.
  pub data Climb : ℕ → ℕ → Bytes → (ℕ → Bytes) → List Node → (ℕ → Bytes) → Type 0 where
    stop :
        {h n : ℕ} {d : Bytes} {s : ℕ → Bytes}
        → n % 2 ≡ 0
        → Climb h n d s (node_at tree_index h n d ∷ []) (update s h d)
    up :
        {h n : ℕ} {d : Bytes} {s r : ℕ → Bytes} {nodes : List Node}
        → n % 2 ≡ 1
        → Climb (suc h) (n / 2) (node_generator (s h) d) (update s h d) nodes r
        → Climb h n d s (node_at tree_index h n d ∷ nodes) r

  pub insert_loop-Climb :
      (b h n : ℕ) (d : Bytes) (w : Acc ◌<◌ n) (s : ℕ → Bytes)
      → n < 2 ^ b
      → h + b < 256
      → let r = insert_loop node_generator tree_index h d n w s in Climb h n d s r.0 r.1
  unfolding insert_loop
  insert_loop-Climb zero h n d (Acc.intro _ smaller) s p q =
      let even : n % 2 ≡ 0 = omega arith in
      rw (dif_pos (ℕ_discrete (n % 2) 0) (ℕ_set _ _) even) (stop even)
  insert_loop-Climb (suc b) h n d (Acc.intro _ smaller) s p q = elim (ℕ_discrete (n % 2) 0) [
    | yes even ↦ rw (dif_pos (ℕ_discrete (n % 2) 0) (ℕ_set _ _) even) (stop even)
    | no odd ↦
        let next : (h + 1) % 256 ≡ suc h = omega arith in
        let rest =
          insert_loop-Climb b (suc h) (n / 2) (node_generator (s h) d)
            (smaller (n / 2) (half-lt n odd)) (update s h d) (omega (arith, two_pow-suc b))
            (omega arith) in
        rw (dif_neg (ℕ_discrete (n % 2) 0) odd, next) (up (omega arith) rest)
  ]

-- ===== src/Merkle/Height.antt =====
-- The height of a tree: the least one whose full tree has room for the leaves, but 1 for one leaf.
use opinit_bots.Base.{
  ℕ, zero, suc, ◌-◌, ◌*◌, ◌/◌, ◌^◌, ◌≤◌, ◌<◌, ◌≡◌, arith, ◌==◌, Bool-cases, inl, inr, leb, dec_lt,
  ap,
}
use opinit_bots.Base.Words.{two_pow-suc, two_pow_pos}
use opinit_bots.Merkle.{bit_len, len64, tree_height_of}

bit_len-covers : (f n : ℕ) → n < 2 ^ f → n < 2 ^ bit_len f n
unfolding bit_len
bit_len-covers zero n p = p
bit_len-covers (suc f) n p = elim (Bool-cases (n == 0)) [
  | inl empty ↦ rw empty (ground arith)
  | inr more ↦ rw more (
      omega (
        arith,
        two_pow-suc f,
        two_pow-suc (bit_len f (n / 2)),
        bit_len-covers f (n / 2) (omega (arith, two_pow-suc f)),
      ))
]

bit_len-le : (f n k : ℕ) → n < 2 ^ k → bit_len f n ≤ k
unfolding bit_len
bit_len-le zero n k p = omega arith
bit_len-le (suc f) n zero p = let empty : n ≡ 0 = omega arith in rw empty (omega arith)
bit_len-le (suc f) n (suc k) p =
    let rest = bit_len-le f (n / 2) k (omega (arith, two_pow-suc k)) in ground (arith, rest)

-- The bit length is the least: half of its power is reached.
bit_len-tight : (f n : ℕ) → 0 < n → n < 2 ^ f → 2 ^ bit_len f n ≤ 2 * n
unfolding bit_len
bit_len-tight zero n p q = absurd (omega arith)
bit_len-tight (suc f) n p q =
    let half = bit_len f (n / 2) in
    elim (dec_lt 0 (n / 2)) [
      | yes more ↦
          ground
            (arith, two_pow-suc half, bit_len-tight f (n / 2) more (omega (arith, two_pow-suc f)))
      | no last ↦
          let empty : half ≡ 0 = omega (arith, bit_len-le f (n / 2) 0) in
          ground (arith, ap (λ k. 2 ^ suc k) empty)
    ]

pub tree_height-le : (n k : ℕ) → 0 < k → n ≤ 2 ^ k → tree_height_of n ≤ k
unfolding tree_height_of len64
tree_height-le n k p q = ground (arith, bit_len-le 64 (n - 1) k, two_pow_pos k)

-- The full tree of that height has room for the leaves.
pub le-pow-tree_height : (n : ℕ) → n ≤ 2 ^ 64 → n ≤ 2 ^ tree_height_of n
unfolding tree_height_of len64
le-pow-tree_height n p = elim (Bool-cases (leb n 1)) [
  | inl few ↦ rw few (ground (arith, two_pow_pos n))
  | inr many ↦ rw many (ground (arith, bit_len-covers 64 (n - 1)))
]

-- It is less than twice as large as need be.
pub pow-tree_height-lt : (n : ℕ) → 1 < n → n ≤ 2 ^ 64 → 2 ^ tree_height_of n < 2 * n
unfolding tree_height_of len64
pow-tree_height-lt n p q = elim (Bool-cases (leb n 1)) [
  | inl few ↦ absurd (ground arith)
  | inr many ↦ rw many (ground (arith, bit_len-tight 64 (n - 1)))
]

-- Up to 2 ^ 63 leaves, `1 << height` does not wrap.
pub pow-tree_height-small : (n : ℕ) → 0 < n → n ≤ 2 ^ 63 → 2 ^ tree_height_of n < 2 ^ 64
pow-tree_height-small n p q = elim (dec_lt 1 n) [
  | yes many ↦ omega (arith, pow-tree_height-lt n)
  | no one ↦ let one' : n ≡ 1 = omega arith in rw one' (unfold tree_height_of in omega arith)
]

-- For 2 to 2^64 leaves, the full tree of the computed height has room for all leaves, and is less than
-- twice as large as their number.
pub tree_height_bounds :
    (n : ℕ) → 1 < n → n ≤ 2 ^ 64 → (n ≤ 2 ^ tree_height_of n) × (2 ^ tree_height_of n < 2 * n)
tree_height_bounds n p q = (le-pow-tree_height n q, pow-tree_height-lt n p q)

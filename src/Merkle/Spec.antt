-- ===== src/Merkle/Spec.antt =====
-- What the working tree stands for: the node hashes of an infinite binary tree over a sequence of
-- leaves, of which the first `count` leaves have been inserted.
use opinit_bots.Base.{ℕ, zero, suc, ◌+◌, ◌*◌, ◌/◌, ◌^◌, ◌≤◌, ◌<◌, ◌≡◌, refl, arith}
use native.Mathlib.Nat.{zero-add}
use opinit_bots.Base.Words.{two_pow-suc, suc-add}
use opinit_bots.Merkle.{Bytes}

-- The number of complete nodes at height `h` over `count` leaves, and the ancestor of a leaf there.
abbrev pub ancestor : ℕ → ℕ → ℕ
ancestor zero count = count
ancestor (suc h) count = ancestor h (count / 2)

module _ (node_generator : Bytes → Bytes → Bytes) (leaf : ℕ → Bytes) where
  -- The hash of the node `i` at height `h`.
  abbrev pub node_hash : ℕ → ℕ → Bytes
  node_hash zero i = leaf i
  node_hash (suc h) i = node_generator (node_hash h (2 * i)) (node_hash h (2 * i + 1))

pub ancestor_mono : (h m n : ℕ) → m ≤ n → ancestor h m ≤ ancestor h n
ancestor_mono zero m n p = p
ancestor_mono (suc h) m n p = ancestor_mono h (m / 2) (n / 2) (omega arith)

pub ancestor-suc : (h n : ℕ) → ancestor (suc h) n ≡ ancestor h n / 2
ancestor-suc zero n = refl
ancestor-suc (suc h) n = ancestor-suc h (n / 2)

-- Over 2 ^ (h + d) leaves there are 2 ^ d nodes at height `h`.
pub ancestor-pow : (h d : ℕ) → ancestor h (2 ^ (h + d)) ≡ 2 ^ d
ancestor-pow zero d = rw zero-add
ancestor-pow (suc h) d =
    let half : 2 ^ suc (h + d) / 2 ≡ 2 ^ (h + d) = omega (arith, two_pow-suc (h + d)) in
    rw (suc-add h d, half) (ancestor-pow h d)

pub ancestor-lt_pow : (h d n : ℕ) → n < 2 ^ (h + d) → ancestor h n < 2 ^ d
ancestor-lt_pow zero d n p = rw zero-add at p
ancestor-lt_pow (suc h) d n p =
    let q : n < 2 ^ suc (h + d) = rw suc-add at p in
    ancestor-lt_pow h d (n / 2) (omega (arith, q, two_pow-suc (h + d)))

-- One more leaf makes at most one more node at each height.
pub ancestor-suc_le : (h n : ℕ) → ancestor h (suc n) ≤ suc (ancestor h n)
ancestor-suc_le zero n = omega arith
ancestor-suc_le (suc h) n =
    omega
      (arith, ancestor-suc_le h (n / 2), ancestor_mono h (suc n / 2) (suc (n / 2)) (omega arith))

-- Over no leaves there is no node.
pub ancestor-zero : (h : ℕ) → ancestor h 0 ≡ 0
ancestor-zero zero = refl
ancestor-zero (suc h) = ancestor-zero h

-- ===== src/Db/Sweep/Ordered.antt =====
-- The order of keys, and stores whose iterators list what they hold in this order.
use opinit_bots.Base.{
  ◌≡◌, refl, true, false, Option, none, some, [], ◌∷◌, if◌then◌else◌, arith, All, Bool-cases, inl,
  inr,
}
use opinit_bots.Base.Bytes.{bytes_equal, bytes_equal_iff}
use opinit_bots.Db.{Bytes}
use opinit_bots.Db.Level.{Level, without}
use opinit_bots.Db.Iterator.{Entries, bytes_lt}

abbrev pub value_in : Bytes → Entries → Option Bytes
value_in k [] = none
value_in k (e ∷ es) = if bytes_equal e.0 k then some e.1 else value_in k es

abbrev pub IsSorted : Entries → Type 0
IsSorted [] = Unit
IsSorted (e ∷ es) = All (λ f. bytes_lt e.0 f.0 ≡ true) es × IsSorted es

pub record IsOrdered {L : Type 0} (level : Level L) (l : L) : Type 0 where
  pub listed : (k : Bytes) → level.held l k ≡ value_in k (level.entries l)
  pub sorted : IsSorted (level.entries l)

-- What follows a key that is not below a bound is not below it either.
pub bytes_lt-above :
    (key x y : Bytes) → bytes_lt x key ≡ false → bytes_lt x y ≡ true → bytes_lt y key ≡ false
unfolding bytes_lt
bytes_lt-above [] x y p q = refl
bytes_lt-above (k ∷ ks) [] y p q = cc
bytes_lt-above (k ∷ ks) (x ∷ xs) [] p q = cc
bytes_lt-above (k ∷ ks) (x ∷ xs) (y ∷ ys) p q = ground (arith, bytes_lt-above ks xs ys)

pub All-without :
    (P : Bytes × Bytes → Type 0) (k : Bytes) (es : Entries) → All P es → All P (without k es)
All-without P k [] all = tt
All-without P k (e ∷ es) all = elim (Bool-cases (bytes_equal e.0 k)) [
  | inl same ↦ rw same (All-without P k es all.1)
  | inr other ↦ rw other (all.0, All-without P k es all.1)
]

pub without-IsSorted : (k : Bytes) (es : Entries) → IsSorted es → IsSorted (without k es)
without-IsSorted k [] sorted = tt
without-IsSorted k (e ∷ es) sorted = elim (Bool-cases (bytes_equal e.0 k)) [
  | inl same ↦ rw same (without-IsSorted k es sorted.1)
  | inr other ↦ rw other (All-without _ k es sorted.0, without-IsSorted k es sorted.1)
]

pub value_in-without :
    (k j : Bytes) (es : Entries)
    → value_in k (without j es) ≡ (if bytes_equal j k then none else value_in k es)
value_in-without k j [] = ground arith
value_in-without k j (e ∷ es) = ground (
  arith,
  value_in-without k j es,
  bytes_equal_iff e.0 j,
  bytes_equal_iff e.0 k,
  bytes_equal_iff j k,
)

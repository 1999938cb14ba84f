-- ===== src/Db/Keys/Order.antt =====
-- Big-endian keys are ordered as the numbers are.
use opinit_bots.Base.{ℕ, ◌+◌, ◌*◌, ◌/◌, ◌%◌, ◌^◌, ◌<◌, ◌≡◌, refl, [], ◌∷◌, ◌++◌, arith, ltb, ◌∙◌}
use opinit_bots.Db.{Bytes}
use opinit_bots.Db.Keys.{from_uint64_key}
use opinit_bots.Db.Iterator.{bytes_lt}

digit-lt : (m x y r s : ℕ) → r < m → x < y → x * m + r < y * m + s
digit-lt m x y r s p q = grind arith

-- One digit in front: `a` is `x` times `m` and a rest `r`, and `b` is `y` times `m` and `s`.
bytes_lt-digit :
    (m x y r s a b : ℕ) (xs ys : Bytes)
    → r < m
    → s < m
    → a ≡ x * m + r
    → b ≡ y * m + s
    → bytes_lt xs ys ≡ ltb r s
    → bytes_lt (x ∷ xs) (y ∷ ys) ≡ ltb a b
unfolding bytes_lt
bytes_lt-digit m x y r s a b xs ys p q e f rest =
    ground (arith, rest, digit-lt m x y r s p, digit-lt m y x s r q)

nil_lt : bytes_lt [] [] ≡ ltb 0 0
unfolding bytes_lt
nil_lt = refl

module _ (a b : ℕ) where
  tail0 : bytes_lt (a % 256 ∷ []) (b % 256 ∷ []) ≡ ltb (a % 2 ^ 8) (b % 2 ^ 8)
  tail0 =
      bytes_lt-digit 1 (a % 256) (b % 256) 0 0 (a % 2 ^ 8) (b % 2 ^ 8) [] [] (omega arith)
        (omega arith) (omega arith) (omega arith) (nil_lt)

  tail1 :
      bytes_lt (a / 2 ^ 8 % 256 ∷ a % 256 ∷ []) (b / 2 ^ 8 % 256 ∷ b % 256 ∷ [])
      ≡ ltb (a % 2 ^ 16) (b % 2 ^ 16)
  tail1 =
      bytes_lt-digit (2 ^ 8) (a / 2 ^ 8 % 256) (b / 2 ^ 8 % 256) (a % 2 ^ 8) (b % 2 ^ 8)
        (a % 2 ^ 16) (b % 2 ^ 16) _ _ (omega arith) (omega arith) (omega arith) (omega arith) tail0

  tail2 :
      bytes_lt
        (a / 2 ^ 16 % 256 ∷ a / 2 ^ 8 % 256 ∷ a % 256 ∷ [])
        (b / 2 ^ 16 % 256 ∷ b / 2 ^ 8 % 256 ∷ b % 256 ∷ [])
      ≡ ltb (a % 2 ^ 24) (b % 2 ^ 24)
  tail2 =
      bytes_lt-digit (2 ^ 16) (a / 2 ^ 16 % 256) (b / 2 ^ 16 % 256) (a % 2 ^ 16) (b % 2 ^ 16)
        (a % 2 ^ 24) (b % 2 ^ 24) _ _ (omega arith) (omega arith) (omega arith) (omega arith) tail1

  tail3 :
      bytes_lt
        (a / 2 ^ 24 % 256 ∷ a / 2 ^ 16 % 256 ∷ a / 2 ^ 8 % 256 ∷ a % 256 ∷ [])
        (b / 2 ^ 24 % 256 ∷ b / 2 ^ 16 % 256 ∷ b / 2 ^ 8 % 256 ∷ b % 256 ∷ [])
      ≡ ltb (a % 2 ^ 32) (b % 2 ^ 32)
  tail3 =
      bytes_lt-digit (2 ^ 24) (a / 2 ^ 24 % 256) (b / 2 ^ 24 % 256) (a % 2 ^ 24) (b % 2 ^ 24)
        (a % 2 ^ 32) (b % 2 ^ 32) _ _ (omega arith) (omega arith) (omega arith) (omega arith) tail2

  tail4 :
      bytes_lt
        (a / 2 ^ 32 % 256 ∷ a / 2 ^ 24 % 256 ∷ a / 2 ^ 16 % 256 ∷ a / 2 ^ 8 % 256 ∷ a % 256 ∷ [])
        (b / 2 ^ 32 % 256 ∷ b / 2 ^ 24 % 256 ∷ b / 2 ^ 16 % 256 ∷ b / 2 ^ 8 % 256 ∷ b % 256 ∷ [])
      ≡ ltb (a % 2 ^ 40) (b % 2 ^ 40)
  tail4 =
      bytes_lt-digit (2 ^ 32) (a / 2 ^ 32 % 256) (b / 2 ^ 32 % 256) (a % 2 ^ 32) (b % 2 ^ 32)
        (a % 2 ^ 40) (b % 2 ^ 40) _ _ (omega arith) (omega arith) (omega arith) (omega arith) tail3

  tail5 :
      bytes_lt
        (a / 2 ^ 40 % 256
          ∷ a / 2 ^ 32 % 256
          ∷ a / 2 ^ 24 % 256
          ∷ a / 2 ^ 16 % 256
          ∷ a / 2 ^ 8 % 256
          ∷ a % 256
          ∷ [])
        (b / 2 ^ 40 % 256
          ∷ b / 2 ^ 32 % 256
          ∷ b / 2 ^ 24 % 256
          ∷ b / 2 ^ 16 % 256
          ∷ b / 2 ^ 8 % 256
          ∷ b % 256
          ∷ [])
      ≡ ltb (a % 2 ^ 48) (b % 2 ^ 48)
  tail5 =
      bytes_lt-digit (2 ^ 40) (a / 2 ^ 40 % 256) (b / 2 ^ 40 % 256) (a % 2 ^ 40) (b % 2 ^ 40)
        (a % 2 ^ 48) (b % 2 ^ 48) _ _ (omega arith) (omega arith) (omega arith) (omega arith) tail4

  tail6 :
      bytes_lt
        (a / 2 ^ 48 % 256
          ∷ a / 2 ^ 40 % 256
          ∷ a / 2 ^ 32 % 256
          ∷ a / 2 ^ 24 % 256
          ∷ a / 2 ^ 16 % 256
          ∷ a / 2 ^ 8 % 256
          ∷ a % 256
          ∷ [])
        (b / 2 ^ 48 % 256
          ∷ b / 2 ^ 40 % 256
          ∷ b / 2 ^ 32 % 256
          ∷ b / 2 ^ 24 % 256
          ∷ b / 2 ^ 16 % 256
          ∷ b / 2 ^ 8 % 256
          ∷ b % 256
          ∷ [])
      ≡ ltb (a % 2 ^ 56) (b % 2 ^ 56)
  tail6 =
      bytes_lt-digit (2 ^ 48) (a / 2 ^ 48 % 256) (b / 2 ^ 48 % 256) (a % 2 ^ 48) (b % 2 ^ 48)
        (a % 2 ^ 56) (b % 2 ^ 56) _ _ (omega arith) (omega arith) (omega arith) (omega arith) tail5

  tail7 :
      bytes_lt
        (a / 2 ^ 56 % 256
          ∷ a / 2 ^ 48 % 256
          ∷ a / 2 ^ 40 % 256
          ∷ a / 2 ^ 32 % 256
          ∷ a / 2 ^ 24 % 256
          ∷ a / 2 ^ 16 % 256
          ∷ a / 2 ^ 8 % 256
          ∷ a % 256
          ∷ [])
        (b / 2 ^ 56 % 256
          ∷ b / 2 ^ 48 % 256
          ∷ b / 2 ^ 40 % 256
          ∷ b / 2 ^ 32 % 256
          ∷ b / 2 ^ 24 % 256
          ∷ b / 2 ^ 16 % 256
          ∷ b / 2 ^ 8 % 256
          ∷ b % 256
          ∷ [])
      ≡ ltb (a % 2 ^ 64) (b % 2 ^ 64)
  tail7 =
      bytes_lt-digit (2 ^ 56) (a / 2 ^ 56 % 256) (b / 2 ^ 56 % 256) (a % 2 ^ 56) (b % 2 ^ 56)
        (a % 2 ^ 64) (b % 2 ^ 64) _ _ (omega arith) (omega arith) (omega arith) (omega arith) tail6

  pub bytes_lt-from_uint64_key :
      a < 2 ^ 64 → b < 2 ^ 64 → bytes_lt (from_uint64_key a) (from_uint64_key b) ≡ ltb a b
  unfolding from_uint64_key
  bytes_lt-from_uint64_key p q = tail7 ∙ (λ i. ltb (small a p i) (small b q i))
    where
      small : (n : ℕ) → n < 2 ^ 64 → n % 2 ^ 64 ≡ n
      small n p = omega arith

-- What two keys have in front does not matter.
pub bytes_lt-append : (p xs ys : Bytes) → bytes_lt (p ++ xs) (p ++ ys) ≡ bytes_lt xs ys
unfolding bytes_lt
bytes_lt-append [] xs ys = refl
bytes_lt-append (x ∷ p) xs ys = ground (arith, bytes_lt-append p xs ys)

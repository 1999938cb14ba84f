-- ===== src/Base/Bits.antt =====
-- `n ^ 1`: the last binary digit flipped.
use Prim.Native.Nat.{
  ℕ, zero, suc, ◌+◌, ◌-◌, ◌/◌, ◌%◌, ◌≤◌, bit_xor, bit_xor-bitwise, digits, differ,
}
use mathlib.Core.Path.{◌≡◌, refl}
use native.Mathlib.Omega.{arith}
use opinit_bots.Base.Tests.{◌==◌, if◌then◌else◌}

differ-zero : (x : ℕ) → differ x 0 ≡ x
differ-zero zero = refl
differ-zero (suc x) = refl

-- The digits of `a` against none.
digits-zero : (f a : ℕ) → a ≤ f → digits (λ b. b) differ f a 0 ≡ a
digits-zero zero a p = omega arith
digits-zero (suc f) zero p = refl
digits-zero (suc f) (suc a) p =
    omega (arith, differ-zero (suc a % 2), digits-zero f (suc a / 2) (omega arith))

differ-one : (x : ℕ) → differ x 1 ≡ (if x == 0 then 1 else x - 1)
differ-one zero = refl
differ-one (suc x) = ground (arith, differ-zero x)

pub bit_xor-one : (n : ℕ) → bit_xor n 1 ≡ (if n % 2 == 0 then n + 1 else n - 1)
bit_xor-one zero = refl
bit_xor-one (suc n) =
    rw bit_xor-bitwise
      (ground (arith, digits-zero n (suc n / 2) (omega arith), differ-one (suc n % 2)))

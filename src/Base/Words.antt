-- ===== src/Base/Words.antt =====
-- uint64 arithmetic, and the order of ℕ for recursions that halve a number.
use Prim.Native.Nat.{ℕ, zero, suc, ◌+◌, ◌*◌, ◌/◌, ◌%◌, ◌^◌, ◌<◌}
use mathlib.Core.Logic.{◌≢◌}
use mathlib.Core.Path.{◌≡◌}
use native.Mathlib.Nat.{pow-succ'}
use mathlib.Core.WellFounded.{Acc, WellFounded}
use native.Mathlib.Omega.{arith}

-- The value of a sum or a difference as a uint64.
abbrev pub u64 : ℕ → ℕ
u64 n = n % 2 ^ 64

Acc-below : (k n : ℕ) → n < k → Acc ◌<◌ n
Acc-below zero n h = elim h [ ]
Acc-below (suc k) n h = Acc.intro n (λ m hm. Acc-below k m (omega arith))

unfoldable pub lt_wf : WellFounded ◌<◌
unfolding Acc-below
lt_wf = record { apply = λ n. Acc-below (suc n) n (omega arith) }

pub two_pow-suc : (n : ℕ) → 2 ^ suc n ≡ 2 * 2 ^ n
two_pow-suc n = pow-succ' 2 n

pub two_pow_pos : (n : ℕ) → 0 < 2 ^ n
two_pow_pos zero = omega arith
two_pow_pos (suc n) = omega (arith, two_pow-suc n, two_pow_pos n)

-- The exponent of a sum, for a rewrite under `2 ^ ◌`.
pub suc-add : (m n : ℕ) → suc m + n ≡ suc (m + n)
suc-add m n = omega arith

pub half-lt : (n : ℕ) → n % 2 ≢ 0 → n / 2 < n
half-lt n odd = omega arith

-- ===== src/Clock.antt =====
-- types/time.go: the time in nanoseconds, with the last result that was given out. `readings` is what the
-- system's clock gives at each call.
use opinit_bots.Base.{ℕ, ◌+◌, ◌≡◌, ◌≢◌, refl, ◌==◌, if◌then◌else◌, arith}

pub record Clock : Type 0 where
  pub last_timestamp : ℕ
  pub calls : ℕ

module _ (readings : ℕ → ℕ) where
  unfoldable pub current_nano_timestamp : Clock → ℕ × Clock
  current_nano_timestamp c =
      let now = readings c.calls in
      let res = if now == c.last_timestamp then now + 1 else now in
      (res, record { last_timestamp = res; calls = c.calls + 1 })

  -- A result is not the last one, and is the reading of the clock or one more than it.
  pub current_nano_timestamp-fresh :
      (c : Clock)
      → ((current_nano_timestamp c).0 ≢ c.last_timestamp)
        × ((current_nano_timestamp c).1.last_timestamp ≡ (current_nano_timestamp c).0)
  unfolding current_nano_timestamp
  current_nano_timestamp-fresh c = (ground arith, refl)

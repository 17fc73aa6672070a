-- ===== src/Bucket.antt =====
-- The token bucket of core/diagnostics.py and of plugins/filters/rate_limit.py. Tokens are counted
-- in parts, `scale` to the token, and `rate` parts are refilled in a unit of time, so that all
-- amounts are whole numbers.
pub mod Rate
mod Tests
use fapilog.Prelude.{
  ℕ, zero, suc, ◌+◌, ◌-◌, ◌*◌, Bool, true, false, List, [], ◌∷◌, min, leb, if◌then◌else◌,
}

pub record Limits : Type 0 where
  pub scale : ℕ
  pub capacity : ℕ
  pub rate : ℕ

pub record Bucket : Type 0 where
  pub tokens : ℕ
  pub last : ℕ

unfoldable pub full : Limits → ℕ → Bucket
full l now = record { tokens = l.capacity * l.scale; last = now }

-- `max(0.0, now - last)` is the subtraction of ℕ
unfoldable pub refill : Limits → Bucket → ℕ → ℕ
refill l b now = min (l.capacity * l.scale) (b.tokens + (now - b.last) * l.rate)

-- Refill, then take a token if there is one.
unfoldable pub draw : Limits → Bucket → ℕ → Bucket × Bool
unfolding refill
draw l b now =
    if leb l.scale (refill l b now)
    then (record { tokens = refill l b now - l.scale; last = now }, true)
    else (record { tokens = refill l b now; last = now }, false)

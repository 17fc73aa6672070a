-- ===== src/Bucket/Rate.antt =====
-- What a token bucket lets through in a stretch of time.
use fapilog.Prelude.{ℕ, ◌+◌, ◌-◌, ◌*◌, ◌≤◌, ◌≡◌, Bool, true, false, arith}
use fapilog.Bucket.{Limits, Bucket, refill, draw}

-- the parts of a token that a draw has used
abbrev pub spent : Limits → Bool → ℕ
spent l true = l.scale
spent l false = 0

pub split_time :
    (last now until rate : ℕ)
    → last ≤ now
    → now ≤ until
    → (now - last) * rate + (until - now) * rate ≡ (until - last) * rate
split_time last now until rate h k = grind arith

-- A draw pays for the token that it takes out of what was there and what has been refilled, and
-- leaves the bucket within its capacity.
pub draw_pays :
    (l : Limits) (b : Bucket) (now : ℕ)
    → (spent l (draw l b now).1 + (draw l b now).0.tokens ≤ b.tokens + (now - b.last) * l.rate)
      × ((draw l b now).0.tokens ≤ l.capacity * l.scale)
      × ((draw l b now).0.last ≡ now)
unfolding draw refill
draw_pays l b now = ground arith

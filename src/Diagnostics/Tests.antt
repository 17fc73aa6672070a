-- ===== src/Diagnostics/Tests.antt =====
-- A run of the rate limiter of the diagnostics.
use fapilog.Prelude.{ℕ, ◌+◌, ◌-◌, ◌*◌, ◌≤◌, List, [], ◌∷◌, Text, codes, arith}
use fapilog.Bucket.{Limits}
use fapilog.Diagnostics.Limit.{allowed, allowed-le}

abbrev limits : Limits
limits = record { scale = 1; capacity = 5; rate = 5 }

abbrev calls : List (Text × ℕ)
calls = (codes "sink", 1) ∷ (codes "worker", 2) ∷ (codes "sink", 2) ∷ []

allowed-le_example :
    allowed (record { limits = limits; buckets = [] }) (codes "sink") calls * 1
    ≤ 5 * 1 + (3 - 1) * 5
allowed-le_example =
    allowed-le limits (codes "sink") 1 3 calls
      (omega arith, (omega arith, (omega arith, omega arith)))

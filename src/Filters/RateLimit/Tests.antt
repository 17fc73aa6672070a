-- ===== src/Filters/RateLimit/Tests.antt =====
-- Runs of RateLimitFilter.
use fapilog.Prelude.{true, false, some, [], Text, codes, arith}
use fapilog.Prelude.Value.{str, Fields, field, end}
use fapilog.Filters.RateLimit.{RateLimit}
use fapilog.Filters.RateLimit.Keys.{IsBounded}

abbrev limiter : RateLimit
limiter = record {
  limits = record { scale = 1; capacity = 1; rate = 1 };
  key_field = some (codes "user");
  max_keys = 1;
  marks_overflow = true;
  buckets = [];
  warned_capacity = false;
  warnings = 0;
}

abbrev limiter-IsBounded : IsBounded limiter
limiter-IsBounded = record { unique = tt; bounded = omega arith; positive = omega arith }

abbrev event : Text → Fields
event user = field (codes "user") (str user) end

-- ===== src/Filters/RateLimit.antt =====
-- plugins/filters/rate_limit.py, RateLimitFilter: a token bucket for each key, the least recently
-- used first, at most `max_keys` of them.
pub mod Keys
mod Tests
use fapilog.Prelude.{
  ℕ, ◌+◌, ◌*◌, ◌/◌, Bool, true, false, not, ◌&&◌, Option, none, some, List, [], ◌∷◌, Text, codes,
  length, ltb, leb, max, if◌then◌else◌,
}
use fapilog.Prelude.Value.{Value, bool, Fields, get, put}
use fapilog.Prelude.Dict.{lookup, contains, pop_first, put_last}
use fapilog.Bucket.{Limits, Bucket, full, draw}
use fapilog.Filters.Rendered.{to_str_or}
use fapilog.Filters.Chain.{Answer, keep, drop}

-- `warnings` counts the calls of `diagnostics.warn`
pub record RateLimit : Type 0 where
  pub limits : Limits
  pub key_field : Option Text
  pub max_keys : ℕ
  pub marks_overflow : Bool
  pub buckets : List (Text × Bucket)
  pub warned_capacity : Bool
  pub warnings : ℕ

abbrev pub global_key : Text
global_key = codes "global"

-- no field, or an empty name, puts all events in one bucket
unfoldable pub resolve_key : (Value → Text) → Option Text → Fields → Text
unfolding to_str_or
resolve_key render none event = global_key
resolve_key render (some []) event = global_key
resolve_key render (some (c ∷ field)) event = to_str_or render global_key (get (c ∷ field) event)

-- the warning is given once while the number of keys stays high
unfoldable pub check_capacity_warn : RateLimit → RateLimit
check_capacity_warn f =
    let size = length f.buckets in
    if leb (f.max_keys * 9 / 10) size
    then record f {
      warned_capacity = true;
      warnings = if f.warned_capacity then f.warnings else f.warnings + 1;
    }
    else if ltb size (max 1 (f.max_keys * 8 / 10))
    then record f { warned_capacity = false }
    else f

unfoldable pub make_room : RateLimit → Text → RateLimit
make_room f key =
    if not (contains key f.buckets) && leb f.max_keys (length f.buckets)
    then record f { buckets = pop_first f.buckets }
    else f

bucket_or_full : Limits → ℕ → Option Bucket → Bucket
bucket_or_full l now none = full l now
bucket_or_full l now (some b) = b

-- the draw on the bucket of the key
unfoldable pub attempt : RateLimit → Text → ℕ → Bucket × Bool
unfolding bucket_or_full
attempt f key now = draw f.limits (bucket_or_full f.limits now (lookup key f.buckets)) now

answer : RateLimit → Fields → Bool → Answer
answer f event true = keep event
answer f event false =
    if f.marks_overflow then keep (put (codes "rate_limited") (bool true) event) else drop

unfoldable pub filter_key : RateLimit → Text → Fields → ℕ → RateLimit × Answer
unfolding make_room attempt answer
filter_key f key event now =
    let roomy = make_room f key in
    let (b, allowed) = attempt roomy key now in
    (
      check_capacity_warn (record roomy { buckets = put_last key b roomy.buckets }),
      answer f event allowed,
    )

unfoldable pub filter : (Value → Text) → RateLimit → Fields → ℕ → RateLimit × Answer
unfolding resolve_key filter_key
filter render f event now = filter_key f (resolve_key render f.key_field event) event now

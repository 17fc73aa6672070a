-- ===== src/Diagnostics.antt =====
-- core/diagnostics.py: warnings about the pipeline itself, off by default and rate-limited per
-- component. The three module variables and what has been written are one record.
pub mod Limit
mod Tests
use fapilog.Prelude.{
  ℕ, Bool, true, false, Option, none, some, List, [], ◌∷◌, ◌++◌, Text, codes, if◌then◌else◌,
}
use fapilog.Prelude.Dict.{lookup, insert}
use fapilog.Bucket.{Limits, Bucket, full, draw}

pub record Limiter : Type 0 where
  pub limits : Limits
  pub buckets : List (Text × Bucket)

bucket_or_full : Limits → ℕ → Option Bucket → Bucket
bucket_or_full l now none = full l now
bucket_or_full l now (some b) = b

store : Limiter → Text → Bucket × Bool → Limiter × Bool
store r key (b, ok) = (record r { buckets = insert key b r.buckets }, ok)

-- `_RateLimiter.allow`: a key that is new starts with a full bucket
unfoldable pub allow : Limiter → Text → ℕ → Limiter × Bool
unfolding bucket_or_full store
allow r key now =
    store r key (draw r.limits (bucket_or_full r.limits now (lookup key r.buckets)) now)

-- A message as it is written: level, component, text.
pub record Message : Type 0 where
  pub level : Text
  pub component : Text
  pub text : Text

pub record Diagnostics : Type 0 where
  pub enabled : Option Bool
  pub limiter : Limiter
  pub written : List Message

unfoldable pub configure : Diagnostics → Bool → Diagnostics
configure d on = record d { enabled = some on }

settled : Option Bool → Bool
settled none = false
settled (some on) = on

enabled_from : Diagnostics → Option Bool → Option Bool → Diagnostics × Bool
enabled_from d (some on) settings = (d, on)
enabled_from d none settings = (record d { enabled = some (settled settings) }, settled settings)

-- The setting is read once and kept; `settings` is what reading it gives, none where it raises.
unfoldable pub is_enabled : Diagnostics → Option Bool → Diagnostics × Bool
unfolding settled enabled_from
is_enabled d settings = enabled_from d d.enabled settings

limiter_key : Text → Option Text → Text
limiter_key component none = component
limiter_key component (some []) = component
limiter_key component (some extra) = component ++ codes ":" ++ extra

written_if : Diagnostics → Message → Limiter × Bool → Diagnostics
written_if d m (r, true) = record d { limiter = r; written = d.written ++ m ∷ [] }
written_if d m (r, false) = record d { limiter = r }

emit_if : Diagnostics × Bool → Message → Option Text → ℕ → Diagnostics
unfolding limiter_key written_if
emit_if (d, false) m extra now = d
emit_if (d, true) m extra now = written_if d m (allow d.limiter (limiter_key m.component extra) now)

-- `extra` is the field `_rate_limit_key`; a writer that raises is contained.
unfoldable pub emit : Diagnostics → Option Bool → Message → Option Text → ℕ → Diagnostics
unfolding is_enabled emit_if
emit d settings m extra now = emit_if (is_enabled d settings) m extra now

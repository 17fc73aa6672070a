-- ===== src/Diagnostics/Limit.antt =====
-- How often a key is let through by the rate limiter.
use fapilog.Prelude.{
  ℕ, ◌+◌, ◌-◌, ◌*◌, ◌≤◌, ◌≡◌, refl, Bool, true, false, ◌&&◌, Option, none, some, List, [], ◌∷◌,
  Text, text_eq, text_eq_sound, subst, text_eq_refl, Bool-cases, inl, inr, arith, if◌then◌else◌,
}
use mathlib.Core.Path.{subst₂}
use fapilog.Prelude.Dict.{lookup, lookup-insert}
use fapilog.Bucket.{Limits, Bucket, full, draw}
use fapilog.Bucket.Rate.{spent, draw_pays, split_time}
use fapilog.Diagnostics.{Limiter, allow, bucket_or_full, store}

-- how many of the calls are for `key` and allowed
pub allowed : Limiter → Text → List (Text × ℕ) → ℕ
allowed r key [] = 0
allowed r key ((k, now) ∷ calls) =
    let (r', ok) = allow r k now in (if text_eq k key && ok then 1 else 0) + allowed r' key calls

-- the readings of the clock do not fall, from `last` on and up to `until`
abbrev pub Ascending : ℕ → ℕ → List (Text × ℕ) → Type 0
Ascending last until [] = last ≤ until
Ascending last until ((k, now) ∷ calls) = (last ≤ now) × Ascending now until calls

-- the parts of a token that a key can still draw on at `now`
abbrev pub credit : Limits → ℕ → Option Bucket → ℕ
credit l now none = l.capacity * l.scale
credit l now (some b) = b.tokens + (now - b.last) * l.rate

-- a bucket is not stamped with a time to come
abbrev pub IsStamped : ℕ → Option Bucket → Type 0
IsStamped now none = Unit
IsStamped now (some b) = b.last ≤ now

credit-wait :
    (l : Limits) (last now : ℕ) (o : Option Bucket)
    → last ≤ now
    → IsStamped last o
    → (credit l now o ≤ credit l last o + (now - last) * l.rate) × IsStamped now o
credit-wait l last now none h s = (omega arith, tt)
credit-wait l last now (some b) h s =
    (omega (arith, split_time b.last last now l.rate s h), omega arith)

draw-credit :
    (l : Limits) (now : ℕ) (o : Option Bucket)
    → let (b, ok) = draw l (bucket_or_full l now o) now in
      (spent l ok + b.tokens ≤ credit l now o) × (b.last ≡ now)
unfolding bucket_or_full full
draw-credit l now none = let pays = draw_pays l (full l now) now in (grind (arith, pays.0), pays.2)
draw-credit l now (some b) = let pays = draw_pays l b now in (pays.0, pays.2)

hit_count :
    (l : Limits) (ok : Bool) (n : ℕ)
    → ((if ok then 1 else 0) + n) * l.scale ≡ spent l ok + n * l.scale
hit_count l true n = omega arith
hit_count l false n = omega arith

-- One call for the key: what it takes and what it leaves is covered by the credit.
allow_self :
    (r : Limiter) (key : Text) (now : ℕ)
    → let (r', ok) = allow r key now in
      (spent r.limits ok + credit r.limits now (lookup key r'.buckets)
        ≤ credit r.limits now (lookup key r.buckets))
      × IsStamped now (lookup key r'.buckets)
      × (r'.limits ≡ r.limits)
unfolding allow store
allow_self r key now =
    let (b, ok) = draw r.limits (bucket_or_full r.limits now (lookup key r.buckets)) now in
    let pays = draw-credit r.limits now (lookup key r.buckets) in
    rw (lookup-insert key key b r.buckets, text_eq_refl key)
      (grind (arith, pays), omega (arith, pays), refl)

allow_other :
    (r : Limiter) (k key : Text) (now : ℕ)
    → text_eq k key ≡ false
    → let (r', ok) = allow r k now in
      (lookup key r'.buckets ≡ lookup key r.buckets) × (r'.limits ≡ r.limits)
unfolding allow store
allow_other r k key now miss =
    let (b, ok) = draw r.limits (bucket_or_full r.limits now (lookup k r.buckets)) now in
    (rw (lookup-insert k key b r.buckets, miss) refl, refl)

Ascending-le :
    (last until : ℕ) (calls : List (Text × ℕ)) → Ascending last until calls → last ≤ until
Ascending-le last until [] up = up
Ascending-le last until ((k, now) ∷ calls) up =
    omega (arith, up.0, Ascending-le now until calls up.1)

-- what the rest of the calls may use, in the limits of the limiter before the call
abbrev Covered : Limits → ℕ → ℕ → ℕ → Option Bucket → Type 0
Covered l now until n o = n * l.scale ≤ credit l now o + (until - now) * l.rate

cover_hit :
    (l : Limits) (last now until n : ℕ) (ok : Bool) (o o' : Option Bucket)
    → last ≤ now
    → now ≤ until
    → IsStamped last o
    → spent l ok + credit l now o' ≤ credit l now o
    → Covered l now until n o'
    → Covered l last until ((if ok then 1 else 0) + n) o
cover_hit l last now until n ok o o' h k s pays rest =
    omega
      (arith, hit_count l ok n, credit-wait l last now o h s, split_time last now until l.rate h k)

cover_miss :
    (l : Limits) (last now until n : ℕ) (o : Option Bucket)
    → last ≤ now
    → now ≤ until
    → IsStamped last o
    → Covered l now until n o
    → Covered l last until (0 + n) o
cover_miss l last now until n o h k s rest =
    omega (arith, credit-wait l last now o h s, split_time last now until l.rate h k)

allowed-credit :
    (r : Limiter) (key : Text) (last until : ℕ) (calls : List (Text × ℕ))
    → Ascending last until calls
    → IsStamped last (lookup key r.buckets)
    → Covered r.limits last until (allowed r key calls) (lookup key r.buckets)
unfolding allowed
allowed-credit r key last until [] up s = omega arith
allowed-credit r key last until ((k, now) ∷ calls) up s = elim (Bool-cases (text_eq k key)) [
  | inl hit ↦
      let self = allow_self r key now in
      let (r', ok) = allow r key now in
      let n = allowed r' key calls in
      rw (text_eq_sound k key hit) (
        rw (text_eq_refl key) (
          cover_hit r.limits last now until n ok (lookup key r.buckets) (lookup key r'.buckets) up.0
            (Ascending-le now until calls up.1) s self.0
            (subst (λ l. Covered l now until n (lookup key r'.buckets)) self.2
              (allowed-credit r' key now until calls up.1 self.1))))
  | inr miss ↦
      let other = allow_other r k key now miss in
      let (r', ok) = allow r k now in
      let n = allowed r' key calls in
      rw miss (
        cover_miss r.limits last now until n (lookup key r.buckets) up.0
          (Ascending-le now until calls up.1) s
          (subst₂ (λ l o. Covered l now until n o) other.1 other.0
            (allowed-credit r' key now until calls up.1
              (rw other.0 (credit-wait r.limits last now (lookup key r.buckets) up.0 s).1))))
]

-- Over calls at rising times up to `until`, for whatever keys, a limiter that starts with no
-- buckets lets a key through at most as often as its capacity and the refill since `start` pay for.
pub allowed-le :
    (l : Limits) (key : Text) (start until : ℕ) (calls : List (Text × ℕ))
    → Ascending start until calls
    → allowed (record { limits = l; buckets = [] }) key calls * l.scale
      ≤ l.capacity * l.scale + (until - start) * l.rate
unfolding lookup
allowed-le l key start until calls up =
    allowed-credit (record { limits = l; buckets = [] }) key start until calls up tt

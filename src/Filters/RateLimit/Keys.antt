-- ===== src/Filters/RateLimit/Keys.antt =====
-- The buckets of RateLimitFilter, over any events.
use fapilog.Prelude.{
  ℕ, ◌≤◌, ◌<◌, ◌≡◌, refl, true, false, ◌||◌, some, List, [], ◌∷◌, Text, text_eq, length, subst, ltb,
  leb, arith, if◌then◌else◌, Bool-cases, inl, inr,
}
use fapilog.Prelude.Value.{Value, Fields}
use fapilog.Prelude.Dict.{
  lookup, contains, pop_first, put_last, HasUniqueKeys, put_last-HasUniqueKeys, length-put_last,
  lookup-put_last,
}
use fapilog.Bucket.{Bucket}
use fapilog.Filters.RateLimit.{
  RateLimit, filter, filter_key, make_room, attempt, check_capacity_warn, resolve_key,
}

pub record IsBounded (f : RateLimit) : Type 0 where
  pub unique : HasUniqueKeys f.buckets
  pub bounded : length f.buckets ≤ f.max_keys
  pub positive : 0 < f.max_keys

-- there is room for the key, new or old
abbrev HasRoom : RateLimit → Text → Type 0
HasRoom f key = contains key f.buckets ≡ false → length f.buckets < f.max_keys

evicted :
    (f : RateLimit) (d : List (Text × Bucket))
    → f.buckets ≡ d
    → IsBounded f
    → IsBounded (record f { buckets = pop_first d }) × (length (pop_first d) < f.max_keys)
unfolding pop_first
evicted f [] e v = (ground (arith, v), ground (arith, v))
evicted f (b ∷ d) e v =
    let u = subst HasUniqueKeys e v.unique in
    (record { unique = u.1; bounded = ground (arith, v); positive = v.positive }, ground (arith, v))

make_room-IsBounded :
    (f : RateLimit) (key : Text)
    → IsBounded f
    → IsBounded (make_room f key) × HasRoom (make_room f key) key
unfolding make_room
make_room-IsBounded f key v = elim (Bool-cases (contains key f.buckets)) [
  | inl old ↦ rw (old, make_room) (v, λ absent. cc)
  | inr new ↦ elim (Bool-cases (leb f.max_keys (length f.buckets))) [
    | inl full ↦
        rw (new, full, make_room) (let out = evicted f f.buckets refl v in (out.0, λ absent. out.1))
    | inr free ↦ rw (new, free, make_room) (v, λ absent. ground arith)
  ]
]

warn-IsBounded : (f : RateLimit) → IsBounded f → IsBounded (check_capacity_warn f)
unfolding check_capacity_warn
warn-IsBounded f v = ground (arith, v)

store-IsBounded :
    (f : RateLimit) (key : Text) (b : Bucket)
    → IsBounded f
    → HasRoom f key
    → IsBounded (record f { buckets = put_last key b f.buckets })
store-IsBounded f key b v room = record {
  unique = put_last-HasUniqueKeys key b f.buckets v.unique;
  bounded = elim (Bool-cases (contains key f.buckets)) [
    | inl old ↦ ground (arith, length-put_last key b f.buckets, v, old)
    | inr new ↦ ground (arith, length-put_last key b f.buckets, room new, new)
  ];
  positive = v.positive;
}

filter_key-IsBounded :
    (f : RateLimit) (key : Text) (event : Fields) (now : ℕ)
    → IsBounded f
    → IsBounded (filter_key f key event now).0
unfolding filter_key
filter_key-IsBounded f key event now v =
    let roomy = make_room-IsBounded f key v in
    warn-IsBounded _ (store-IsBounded (make_room f key) key _ roomy.0 roomy.1)

pub run : (Value → Text) → RateLimit → List (Fields × ℕ) → RateLimit
run render f [] = f
run render f ((event, now) ∷ events) = run render (filter render f event now).0 events

-- Whatever events come, the filter never tracks more than `max_keys` keys, and none twice.
pub run-IsBounded :
    (render : Value → Text) (f : RateLimit) (events : List (Fields × ℕ))
    → IsBounded f
    → IsBounded (run render f events)
unfolding run filter
run-IsBounded render f [] v = v
run-IsBounded render f ((event, now) ∷ events) v =
    run-IsBounded render (filter render f event now).0 events
      (filter_key-IsBounded f (resolve_key render f.key_field event) event now v)

warn-buckets : (f : RateLimit) → (check_capacity_warn f).buckets ≡ f.buckets
unfolding check_capacity_warn
warn-buckets f = ground arith

-- An event whose key is tracked, or for which there is room, draws on the bucket of its own key and
-- leaves every other key's bucket as it was.
pub filter_key-buckets :
    (f : RateLimit) (key other : Text) (event : Fields) (now : ℕ)
    → IsBounded f
    → (contains key f.buckets || ltb (length f.buckets) f.max_keys) ≡ true
    → lookup other (filter_key f key event now).0.buckets
      ≡ (if text_eq key other then some (attempt f key now).0 else lookup other f.buckets)
unfolding filter_key make_room
filter_key-buckets f key other event now v room =
    rw (keeps, warn-buckets) (lookup-put_last key other (attempt f key now).0 f.buckets v.unique)
  where
    keeps : make_room f key ≡ f
    keeps = ground arith

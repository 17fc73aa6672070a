-- ===== src/Filters/FirstOccurrence/Window.antt =====
-- Which events the first-occurrence filter passes, and how many keys it remembers.
use fapilog.Prelude.{
  ℕ, suc, ◌+◌, ◌≤◌, ◌≡◌, refl, Bool, false, not, ◌||◌, List, [], ◌∷◌, ◌++◌, Text, text_eq, length,
  ltb, leb, arith, if◌then◌else◌, Bool-cases, inl, inr,
}
use fapilog.Prelude.Value.{Fields}
use fapilog.Prelude.Dict.{contains}
use fapilog.Filters.Chain.{keep, drop}
use fapilog.Filters.FirstOccurrence.{FirstOccurrence, filter_key, prune_expired, shrink}

-- the times of the entries rise along the list, from `from` to `until`
abbrev pub Rising : ℕ → ℕ → List (Text × ℕ) → Type 0
Rising from until [] = from ≤ until
Rising from until ((k, t) ∷ d) = (from ≤ t) × Rising t until d

-- the key has been seen within the window
unfoldable pub seen_within : ℕ → ℕ → Text → List (Text × ℕ) → Bool
seen_within window now key [] = false
seen_within window now key ((k, t) ∷ d) =
    (if text_eq k key then leb now (t + window) else false) || seen_within window now key d

Rising-le : (from until : ℕ) (d : List (Text × ℕ)) → Rising from until d → from ≤ until
Rising-le from until [] r = r
Rising-le from until ((k, t) ∷ d) r = omega (arith, r.0, Rising-le t until d r.1)

-- behind an entry that is not expired nothing is
seen_within-live :
    (window now from until : ℕ) (key : Text) (d : List (Text × ℕ))
    → Rising from until d
    → now ≤ from + window
    → seen_within window now key d ≡ contains key d
unfolding seen_within contains
seen_within-live window now from until key [] r h = refl
seen_within-live window now from until key ((k, t) ∷ d) r h =
    ground (arith, r.0, seen_within-live window now t until key d r.1)

pub contains-prune :
    (window now from until : ℕ) (key : Text) (d : List (Text × ℕ))
    → Rising from until d
    → contains key (prune_expired window now d) ≡ seen_within window now key d
unfolding contains prune_expired seen_within
contains-prune window now from until key [] r = refl
contains-prune window now from until key ((k, t) ∷ d) r = ground (
  arith,
  contains-prune window now t until key d r.1,
  seen_within-live window now t until key d r.1,
)

-- With its entries in the order of their times, the filter keeps an event, unchanged, exactly when
-- its key has not been seen within the window, or when later occurrences are sampled and this one is.
pub filter_key-answer :
    (f : FirstOccurrence) (key : Text) (event : Fields) (from until now : ℕ) (sampled : Bool)
    → Rising from until f.seen
    → (filter_key f key event now sampled).1 ≡ (
        if not (seen_within f.window now key f.seen)
          || (if leb f.subsequent_rate 0 then false else sampled)
        then keep event
        else drop)
unfolding filter_key
filter_key-answer f key event from until now sampled r =
    ground (arith, contains-prune f.window now from until key f.seen r)

Rising-from : (a b c : ℕ) (d : List (Text × ℕ)) → a ≤ b → Rising b c d → Rising a c d
Rising-from a b c [] h r = omega arith
Rising-from a b c ((k, t) ∷ d) h r = (omega arith, r.1)

pub Rising-until :
    (from until now : ℕ) (d : List (Text × ℕ))
    → until ≤ now
    → Rising from until d
    → Rising from now d
Rising-until from until now [] h r = omega arith
Rising-until from until now ((k, t) ∷ d) h r = (r.0, Rising-until t until now d h r.1)

pub Rising-prune :
    (window now from until : ℕ) (d : List (Text × ℕ))
    → Rising from until d
    → Rising from until (prune_expired window now d)
unfolding prune_expired
Rising-prune window now from until [] r = r
Rising-prune window now from until ((k, t) ∷ d) r = elim (Bool-cases (ltb (t + window) now)) [
  | inl old ↦ rw old (Rising-from from t until _ r.0 (Rising-prune window now t until d r.1))
  | inr new ↦ rw new r
]

Rising-shrink :
    (max_keys from until : ℕ) (d : List (Text × ℕ))
    → Rising from until d
    → Rising from until (shrink max_keys d)
unfolding shrink
Rising-shrink m from until [] r = r
Rising-shrink m from until ((k, t) ∷ d) r = elim (Bool-cases (ltb m (suc (length d)))) [
  | inl over ↦ rw over (Rising-from from t until _ r.0 (Rising-shrink m t until d r.1))
  | inr fits ↦ rw fits r
]

pub Rising-snoc :
    (from until now : ℕ) (key : Text) (d : List (Text × ℕ))
    → Rising from until d
    → until ≤ now
    → Rising from now (d ++ (key, now) ∷ [])
Rising-snoc from until now key [] r h = (omega arith, omega arith)
Rising-snoc from until now key ((k, t) ∷ d) r h = (r.0, Rising-snoc t until now key d r.1 h)

length-shrink-le : (max_keys : ℕ) (d : List (Text × ℕ)) → length (shrink max_keys d) ≤ max_keys
unfolding shrink
length-shrink-le m [] = omega arith
length-shrink-le m (e ∷ d) = ground (arith, length-shrink-le m d)

pub length-prune-le :
    (window now : ℕ) (d : List (Text × ℕ)) → length (prune_expired window now d) ≤ length d
unfolding prune_expired
length-prune-le window now [] = omega arith
length-prune-le window now ((k, t) ∷ d) = ground (arith, length-prune-le window now d)

-- the entries are in the order of their times, none later than `now`, and not too many
pub record IsOrderly (f : FirstOccurrence) (now : ℕ) : Type 0 where
  pub rising : Rising 0 now f.seen
  pub bounded : length f.seen ≤ f.max_keys

-- The order and the bound survive every event at a later time, whatever its key.
pub filter_key-IsOrderly :
    (f : FirstOccurrence) (key : Text) (event : Fields) (before now : ℕ) (sampled : Bool)
    → before ≤ now
    → IsOrderly f before
    → IsOrderly (filter_key f key event now sampled).0 now
unfolding filter_key
filter_key-IsOrderly f key event before now sampled h v =
    elim (Bool-cases (contains key (prune_expired f.window now f.seen))) [
      | inl old ↦
          rw (old, filter_key)
            (record {
              rising =
                  Rising-until 0 before now _ h
                    (Rising-prune f.window now 0 before f.seen v.rising);
              bounded = omega (arith, length-prune-le f.window now f.seen, v.bounded);
            })
      | inr new ↦
          rw (new, filter_key)
            (record {
              rising = Rising-shrink f.max_keys 0 now _ (
                  Rising-snoc 0 before now key _
                    (Rising-prune f.window now 0 before f.seen v.rising) h);
              bounded = length-shrink-le f.max_keys _;
            })
    ]

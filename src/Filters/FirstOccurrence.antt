-- ===== src/Filters/FirstOccurrence.antt =====
-- plugins/filters/first_occurrence.py, FirstOccurrenceFilter. `seen` has the time of each first
-- occurrence, in the order of insertion. The random draw is an argument: `sampled` says whether it
-- fell below the rate.
pub mod Window
pub mod History
mod Tests
use fapilog.Prelude.{
  ℕ, ◌+◌, Bool, true, false, Option, none, some, List, [], ◌∷◌, ◌++◌, Text, codes, length, ltb, leb,
  if◌then◌else◌,
}
use fapilog.Prelude.Value.{Value, Fields, get}
use fapilog.Prelude.Dict.{contains}
use fapilog.Filters.Rendered.{to_str_or}
use fapilog.Filters.Chain.{Answer, keep, drop}

pub record FirstOccurrence : Type 0 where
  pub key_fields : List Text
  pub window : ℕ
  pub max_keys : ℕ
  pub subsequent_rate : ℕ
  pub seen : List (Text × ℕ)

unfoldable pub start : FirstOccurrence → FirstOccurrence
start f = record f { seen = [] }

-- `"|".join(str(event.get(field, "")) for field in fields)`
unfoldable pub make_key : (Value → Text) → List Text → Fields → Text
unfolding to_str_or
make_key render [] event = []
make_key render (field ∷ []) event = to_str_or render [] (get field event)
make_key render (field ∷ next ∷ fields) event =
    to_str_or render [] (get field event) ++ codes "|" ++ make_key render (next ∷ fields) event

-- the loop takes entries from the front while they are older than `now - window`
unfoldable pub prune_expired : ℕ → ℕ → List (Text × ℕ) → List (Text × ℕ)
prune_expired window now [] = []
prune_expired window now ((k, t) ∷ d) =
    let rest = prune_expired window now d in if ltb (t + window) now then rest else (k, t) ∷ d

-- `while len(seen) > max_keys: seen.popitem(last=False)`
unfoldable pub shrink : ℕ → List (Text × ℕ) → List (Text × ℕ)
shrink max_keys [] = []
shrink max_keys (e ∷ d) =
    let rest = shrink max_keys d in if ltb max_keys (length (e ∷ d)) then rest else e ∷ d

unfoldable pub filter_key : FirstOccurrence → Text → Fields → ℕ → Bool → FirstOccurrence × Answer
unfolding prune_expired shrink
filter_key f key event now sampled =
    let live = prune_expired f.window now f.seen in
    if contains key live
    then (
      record f { seen = live },
      if leb f.subsequent_rate 0 then drop else if sampled then keep event else drop,
    )
    else (record f { seen = shrink f.max_keys (live ++ (key, now) ∷ []) }, keep event)

unfoldable pub filter :
    (Value → Text) → FirstOccurrence → Fields → ℕ → Bool → FirstOccurrence × Answer
unfolding make_key filter_key
filter render f event now sampled =
    filter_key f (make_key render f.key_fields event) event now sampled

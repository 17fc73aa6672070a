-- ===== src/Filters/Ladder/Passes.antt =====
-- Which events the ladder lets through.
use fapilog.Prelude.{
  ℕ, subst, sym, ◌≡◌, refl, ◌∙◌, ap, Bool, true, false, none, some, List, [], ◌∷◌, Text, codes,
  upper, upper_idem, ltb, leb, arith, if◌then◌else◌, text_in, text_eq, text_eq_sound, Bool-cases,
  inl, inr, ◌||◌,
}
use fapilog.Prelude.Value.{Value, Fields}
use fapilog.Levels.Priorities.{get_level_priority-upper}
use fapilog.Levels.{Registry, get_level_priority}
use fapilog.Filters.Chain.{Filter, filter_in_order}
use fapilog.Filters.Gate.{new_filter, filter, level_text}
use fapilog.Filters.Ladder.{build_high_filters, build_critical_filters, min_level}

-- the priority that the gates compare
pub event_priority : Registry → (Value → Text) → Fields → ℕ
event_priority r render event = get_level_priority r (level_text render event)

-- whether some level of the list has a priority of `p` or less
pub some_at_most : Registry → ℕ → List Text → Bool
some_at_most r p [] = false
some_at_most r p (l ∷ levels) = leb (get_level_priority r l) p || some_at_most r p levels

min_level-leb :
    (r : Registry) (best : Text) (levels : List Text) (p : ℕ)
    → leb (get_level_priority r (min_level r best levels)) p ≡ some_at_most r p (best ∷ levels)
unfolding min_level some_at_most
min_level-leb r best [] p = ground arith
min_level-leb r best (l ∷ levels) p =
    elim (Bool-cases (ltb (get_level_priority r l) (get_level_priority r best))) [
      | inl lower ↦ rw lower (min_level-leb r l levels p ∙ ground arith)
      | inr other ↦ rw other (min_level-leb r best levels p ∙ ground arith)
    ]

gate_passes :
    (r : Registry) (render : Value → Text) (min_level : Text) (rest : List Filter) (event : Fields)
    → filter_in_order (filter r render (new_filter r min_level true) ∷ rest) event ≡ (
        if leb (get_level_priority r min_level) (event_priority r render event)
        then filter_in_order rest event
        else none)
unfolding filter_in_order filter new_filter event_priority
gate_passes r render min_level rest event = ground arith

-- whether the CRITICAL gate lets a priority through
abbrev pub critical_admits : Registry → List Text → ℕ → Bool
critical_admits r [] p = leb (get_level_priority r (codes "FATAL")) p
critical_admits r (l ∷ levels) p = some_at_most r p (l ∷ levels)

-- Under CRITICAL pressure an event passes, unchanged, exactly when its priority is at least that of
-- some protected level; where no level is protected, exactly when it is at least that of FATAL.
pub critical_passes :
    (r : Registry) (render : Value → Text) (levels : List Text) (event : Fields)
    → filter_in_order (build_critical_filters r render levels) event
      ≡ (if critical_admits r levels (event_priority r render event) then some event else none)
unfolding build_critical_filters filter_in_order
critical_passes r render [] event = gate_passes r render (codes "FATAL") [] event
critical_passes r render (l ∷ levels) event =
    gate_passes r render (min_level r l levels) [] event
    ∙ rw (min_level-leb r l levels (event_priority r render event)) refl

-- Under HIGH pressure an event below WARNING is dropped whatever levels are protected, and any
-- other goes through the user's filters as before.
pub high_passes :
    (r : Registry) (render : Value → Text) (base : List Filter) (event : Fields)
    → filter_in_order (build_high_filters r render base) event ≡ (
        if leb (get_level_priority r (codes "WARNING")) (event_priority r render event)
        then filter_in_order base event
        else none)
unfolding build_high_filters
high_passes r render base event = gate_passes r render (codes "WARNING") base event

some_at_most-mem :
    (r : Registry) (level : Text) (levels : List Text)
    → text_in (upper level) levels ≡ true
    → some_at_most r (get_level_priority r level) levels ≡ true
unfolding some_at_most
some_at_most-mem r level [] h = cc
some_at_most-mem r level (l ∷ levels) h = elim (Bool-cases (text_eq l (upper level))) [
  | inl e ↦
      let equal : get_level_priority r l ≡ get_level_priority r level =
        ap (get_level_priority r) (text_eq_sound l (upper level) e)
        ∙ get_level_priority-upper r level in
      ground (arith, equal)
  | inr e ↦ ground (arith, e, some_at_most-mem r level levels)
]

level_text-upper :
    (render : Value → Text) (event : Fields)
    → upper (level_text render event) ≡ level_text render event
unfolding level_text
level_text-upper render event = upper_idem _

-- Under CRITICAL pressure an event passes whose level, in upper case, is among the protected ones.
pub protected_passes :
    (r : Registry) (render : Value → Text) (levels : List Text) (event : Fields)
    → text_in (level_text render event) levels ≡ true
    → filter_in_order (build_critical_filters r render levels) event ≡ some event
unfolding event_priority
protected_passes r render [] event h = cc
protected_passes r render (l ∷ levels) event h =
    critical_passes r render (l ∷ levels) event ∙ rw admitted refl
  where
    admitted : some_at_most r (get_level_priority r (level_text render event)) (l ∷ levels) ≡ true
    admitted =
        some_at_most-mem r (level_text render event) (l ∷ levels)
          (subst (λ t. text_in t (l ∷ levels) ≡ true) (sym (level_text-upper render event)) h)

-- ===== src/Worker/Flush/Accounts.antt =====
-- What `_flush_batch` counts, and when it fails.
use fapilog.Prelude.{
  ℕ, suc, ◌+◌, ◌≤◌, ◌≡◌, refl, ◌⊎◌, inl, inr, ap, sym, subst, Bool, true, false, Option, none, some,
  List, [], ◌∷◌, length, length-append, map, Text, arith, Option-cases, Bool-cases,
}
use mathlib.Core.Option.{some-injective, none-ne-some}
use fapilog.Prelude.Value.{Fields}
use fapilog.Worker.{
  Pipeline, after_filters, Prepared, filtered, dropped, raises, ready, prepare, serialized, view_of,
  Redacted, passed, refused, fails, apply_filters, apply_enrichers, apply_redactors,
}
use fapilog.Worker.Flush.{
  Sent, Delivery, flush_batch, prepare_all, then_rest, write_concurrent, write_one_event, successes,
  counted, after_prepared,
}

length-successes : (results : List (Option Delivery)) → length (successes results) ≤ length results
length-successes [] = omega arith
length-successes (none ∷ results) = omega (arith, length-successes results)
length-successes (some d ∷ results) = omega (arith, length-successes results)

length-map : {A B : Type 0} (f : A → B) (xs : List A) → length (map f xs) ≡ length xs
length-map f [] = refl
length-map f (x ∷ xs) = ap suc (length-map f xs)

abbrev one_more_if_none : Option Fields → ℕ → ℕ
one_more_if_none none n = suc n
one_more_if_none (some kept) n = n

-- the events of a batch that the filters drop
abbrev pub filtered_out : Pipeline → List Fields → ℕ
filtered_out p [] = 0
filtered_out p (entry ∷ batch) = one_more_if_none (apply_filters p entry) (filtered_out p batch)

pub apply_filters-cases :
    (p : Pipeline) (entry : Fields)
    → (apply_filters p entry ≡ none) ⊎ ((kept : Fields) × (apply_filters p entry ≡ some kept))
apply_filters-cases p entry = Option-cases (apply_filters p entry)

abbrev pub IsKept : Prepared → Type 0
IsKept filtered = ⊥
IsKept _ = Unit

view_of-IsKept :
    (p : Pipeline) (entry : Fields) (view : Option Text × Bool) → IsKept (view_of p entry view)
unfolding view_of
view_of-IsKept p entry (none, true) = tt
view_of-IsKept p entry (some v, true) = tt
view_of-IsKept p entry (none, false) = tt
view_of-IsKept p entry (some v, false) = tt

serialized-IsKept : (p : Pipeline) (r : Redacted) → IsKept (serialized p r)
unfolding serialized
serialized-IsKept p fails = tt
serialized-IsKept p refused = tt
serialized-IsKept p (passed entry) = elim (Bool-cases p.serialize_in_flush) [
  | inr e ↦ rw e tt
  | inl e ↦ elim (Option-cases p.sink_write_serialized) [
    | inl f ↦ rw (e, f) tt
    | inr (w, f) ↦ rw (e, f) (view_of-IsKept _ entry _)
  ]
]

abbrev pub Adds : Pipeline → List Fields → Option (List (Fields × Option Text) × ℕ) → Type 0
Adds p batch none = Unit
Adds p batch (some (tasks, n)) = length tasks + n + filtered_out p batch ≡ length batch

kept-Adds :
    (p : Pipeline) (entry : Fields) (batch : List Fields) (first : Prepared)
    → IsKept first
    → filtered_out p (entry ∷ batch) ≡ filtered_out p batch
    → (rest : Option (List (Fields × Option Text) × ℕ)) → Adds p batch rest
    → Adds p (entry ∷ batch) (then_rest first rest)
unfolding then_rest
kept-Adds p entry batch first k e none h = tt
kept-Adds p entry batch filtered k e (some (tasks, n)) h = absurd k
kept-Adds p entry batch dropped k e (some (tasks, n)) h = omega (arith, e, h)
kept-Adds p entry batch raises k e (some (tasks, n)) h = tt
kept-Adds p entry batch (ready r view) k e (some (tasks, n)) h = omega (arith, e, h)

filtered-Adds :
    (p : Pipeline) (entry : Fields) (batch : List Fields)
    → filtered_out p (entry ∷ batch) ≡ suc (filtered_out p batch)
    → (rest : Option (List (Fields × Option Text) × ℕ)) → Adds p batch rest
    → Adds p (entry ∷ batch) (then_rest filtered rest)
unfolding then_rest
filtered-Adds p entry batch e none h = tt
filtered-Adds p entry batch e (some (tasks, n)) h = omega (arith, e, h)

prepare-filtered :
    (p : Pipeline) (entry : Fields) → apply_filters p entry ≡ none → prepare p entry ≡ filtered
unfolding prepare after_filters
prepare-filtered p entry e = ap (after_filters p) e

prepare-IsKept :
    (p : Pipeline) (entry kept : Fields)
    → apply_filters p entry ≡ some kept
    → IsKept (prepare p entry)
unfolding prepare after_filters
prepare-IsKept p entry kept e =
    subst IsKept (sym (ap (after_filters p) e))
      (serialized-IsKept p (apply_redactors p (apply_enrichers p kept)))

prepare_all-Adds : (p : Pipeline) (batch : List Fields) → Adds p batch (prepare_all p batch)
unfolding prepare_all
prepare_all-Adds p [] = refl
prepare_all-Adds p (entry ∷ batch) = elim (apply_filters-cases p entry) [
  | inl e ↦
      subst (λ first. Adds p (entry ∷ batch) (then_rest first (prepare_all p batch)))
        (sym (prepare-filtered p entry e))
        (filtered-Adds p entry batch (ap (λ o. one_more_if_none o (filtered_out p batch)) e)
          (prepare_all p batch) (prepare_all-Adds p batch))
  | inr (kept, e) ↦
      kept-Adds p entry batch (prepare p entry) (prepare-IsKept p entry kept e)
        (ap (λ o. one_more_if_none o (filtered_out p batch)) e) (prepare_all p batch)
        (prepare_all-Adds p batch)
]

-- A batch that is flushed is accounted for: each of its events was dropped by a filter, or counted
-- as processed, or counted as dropped; and as many deliveries were made as events were counted as
-- processed.
pub flush_batch-accounted :
    (p : Pipeline) (s s' : Sent) (batch : List Fields)
    → flush_batch p s batch ≡ some s'
    → (s'.processed + s'.dropped_count + filtered_out p batch
        ≡ s.processed + s.dropped_count + length batch)
      × (length s'.delivered + s.processed ≡ length s.delivered + s'.processed)
unfolding flush_batch after_prepared counted write_concurrent
flush_batch-accounted p s s' [] e = rw⁻¹ (some-injective _ _ e) (omega arith, omega arith)
flush_batch-accounted p s s' (entry ∷ batch) e =
    counted_lem (prepare_all p (entry ∷ batch)) (prepare_all-Adds p (entry ∷ batch)) e
  where
    counted_lem :
        (prepared : Option (List (Fields × Option Text) × ℕ))
        → Adds p (entry ∷ batch) prepared
        → after_prepared p s prepared ≡ some s'
        → (s'.processed + s'.dropped_count + filtered_out p (entry ∷ batch)
            ≡ s.processed + s.dropped_count + length (entry ∷ batch))
          × (length s'.delivered + s.processed ≡ length s.delivered + s'.processed)
    counted_lem none a e = absurd (none-ne-some s' e)
    counted_lem (some (tasks, n)) a e =
        let results = map (write_one_event p) tasks in
        let sizes = length-map (write_one_event p) tasks in
        let most = length-successes results in
        let joined = length-append s.delivered (successes results) in
        rw⁻¹ (some-injective _ _ e) (omega (arith, a, sizes, most), omega (arith, joined))

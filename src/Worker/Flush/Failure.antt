-- ===== src/Worker/Flush/Failure.antt =====
-- When `_flush_batch` ends in an exception, which ends the worker's loop.
use fapilog.Prelude.{
  ◌≡◌, refl, ◌↔◌, ◌⊎◌, inl, inr, ap, ◌∙◌, sym, subst, ℕ, Bool, true, false, Option, none, some,
  List, [], ◌∷◌, Text, Any, Bool-cases, Option-cases,
}
use mathlib.Core.Option.{some-injective, none-ne-some}
use fapilog.Prelude.Value.{Value, null, bool, num, str, list, dict, Fields, get}
use fapilog.Worker.{
  Pipeline, Prepared, filtered, dropped, raises, ready, prepare, after_filters, serialized, view_of,
  passed, apply_filters, apply_enrichers, apply_redactors, is_unsafe, unsafe_in, data_key,
}
use fapilog.Worker.Flush.{Sent, flush_batch, prepare_all, then_rest, after_prepared}
use fapilog.Worker.Flush.Redaction.{apply_redactors_lem}

abbrev pub IsNoDict : Value → Type 0
IsNoDict (dict d) = ⊥
IsNoDict _ = Unit

-- the event has data, and they are no dict
pub HasBadData : Fields → Type 0
HasBadData entry = (v : Value) × (get data_key entry ≡ some v) × IsNoDict v

-- the filters keep the event, and its data are no dict once it is enriched
unfoldable pub IsPoison : Pipeline → Fields → Type 0
IsPoison p entry =
    (kept : Fields) × (apply_filters p entry ≡ some kept) × HasBadData (apply_enrichers p kept)

unsafe_in-none :
    (o : Option Value) → (unsafe_in o ≡ none) ↔ ((v : Value) × (o ≡ some v) × IsNoDict v)
unfolding unsafe_in
unsafe_in-none none =
    (λ e. absurd (none-ne-some false (sym e)), λ (v, e, bad). absurd (none-ne-some v e))
unsafe_in-none (some (dict d)) = (
  λ e. absurd (none-ne-some _ (sym e)),
  λ (v, e, bad). absurd (subst IsNoDict (sym (some-injective _ _ e)) bad),
)
unsafe_in-none (some null) = (λ e. (null, refl, tt), λ _. refl)
unsafe_in-none (some (bool b)) = (λ e. (bool b, refl, tt), λ _. refl)
unsafe_in-none (some (num n)) = (λ e. (num n, refl, tt), λ _. refl)
unsafe_in-none (some (str t)) = (λ e. (str t, refl, tt), λ _. refl)
unsafe_in-none (some (list vs)) = (λ e. (list vs, refl, tt), λ _. refl)

pub is_unsafe-none : (entry : Fields) → (is_unsafe entry ≡ none) ↔ HasBadData entry
unfolding is_unsafe HasBadData
is_unsafe-none entry = unsafe_in-none (get data_key entry)

abbrev IsContained : Prepared → Type 0
IsContained raises = ⊥
IsContained _ = Unit

view_of-IsContained :
    (p : Pipeline) (entry : Fields) (view : Option Text × Bool) → IsContained (view_of p entry view)
unfolding view_of
view_of-IsContained p entry (none, true) = tt
view_of-IsContained p entry (some v, true) = tt
view_of-IsContained p entry (none, false) = tt
view_of-IsContained p entry (some v, false) = tt

passed-IsContained : (p : Pipeline) (r : Fields) → IsContained (serialized p (passed r))
unfolding serialized
passed-IsContained p r = elim (Bool-cases p.serialize_in_flush) [
  | inr e ↦ rw e tt
  | inl e ↦ elim (Option-cases p.sink_write_serialized) [
    | inl f ↦ rw (e, f) tt
    | inr (w, f) ↦ rw (e, f) (view_of-IsContained _ r _)
  ]
]

passed-cases :
    (p : Pipeline) (entry kept result : Fields) (flag : Bool)
    → apply_filters p entry ≡ some kept
    → is_unsafe (apply_enrichers p kept) ≡ some flag
    → apply_redactors p (apply_enrichers p kept) ≡ passed result
    → (IsPoison p entry → ⊥) × IsContained (prepare p entry)
unfolding prepare after_filters IsPoison
passed-cases p entry kept result flag e g r = (
  λ (kept', f, h).
      let same = some-injective _ _ (sym e ∙ f) in
      none-ne-some flag
        (sym ((is_unsafe-none _).1 h) ∙ ap (λ k. is_unsafe (apply_enrichers p k)) (sym same) ∙ g),
  subst IsContained (sym (ap (after_filters p) e ∙ ap (serialized p) r))
      (passed-IsContained p result),
)

prepare-cases :
    (p : Pipeline) (entry : Fields)
    → (IsPoison p entry × (prepare p entry ≡ raises))
      ⊎ ((IsPoison p entry → ⊥) × IsContained (prepare p entry))
unfolding prepare after_filters IsPoison serialized
prepare-cases p entry = elim (Option-cases (apply_filters p entry)) [
  | inl e ↦ inr (
    λ (kept, f, g). none-ne-some kept (sym e ∙ f),
    subst IsContained (sym (ap (after_filters p) e)) tt,
  )
  | inr (kept, e) ↦ elim (apply_redactors_lem p (apply_enrichers p kept)) [
    | inl (g, r) ↦
        inl ((kept, e, (is_unsafe-none _).0 g), ap (after_filters p) e ∙ ap (serialized p) r)
    | inr (inl (g, r)) ↦ inr (passed-cases p entry kept _ true e g r)
    | inr (inr (result, g, chain, r)) ↦ inr (passed-cases p entry kept result false e g r)
  ]
]

then_rest-none :
    (first : Prepared) (rest : Option (List (Fields × Option Text) × ℕ))
    → IsContained first
    → then_rest first rest ≡ none
    → rest ≡ none
unfolding then_rest
then_rest-none first none c e = refl
then_rest-none filtered (some (tasks, n)) c e = e
then_rest-none dropped (some (tasks, n)) c e = absurd (none-ne-some _ (sym e))
then_rest-none raises (some (tasks, n)) c e = absurd c
then_rest-none (ready r v) (some (tasks, n)) c e = absurd (none-ne-some _ (sym e))

then_rest-raises : (rest : Option (List (Fields × Option Text) × ℕ)) → then_rest raises rest ≡ none
unfolding then_rest
then_rest-raises none = refl
then_rest-raises (some (tasks, n)) = refl

then_none : (first : Prepared) → then_rest first none ≡ none
unfolding then_rest
then_none first = refl

prepare_all-none :
    (p : Pipeline) (batch : List Fields) → (prepare_all p batch ≡ none) ↔ Any (IsPoison p) batch
unfolding prepare_all
prepare_all-none p [] = (λ e. none-ne-some _ (sym e), absurd)
prepare_all-none p (entry ∷ batch) =
    let (down, up) = prepare_all-none p batch in
    elim (prepare-cases p entry) [
      | inl (poison, e) ↦ (
        λ _. inl poison,
        λ _. ap (λ first. then_rest first (prepare_all p batch)) e ∙ then_rest-raises _,
      )
      | inr (sound, contained) ↦ (
        λ e. inr (down (then_rest-none _ _ contained e)),
        λ any. elim any [
          | inl poison ↦ absurd (sound poison)
          | inr later ↦ ap (then_rest (prepare p entry)) (up later) ∙ then_none (prepare p entry)
        ],
      )
    ]

after_prepared-none :
    (p : Pipeline) (s : Sent) (prepared : Option (List (Fields × Option Text) × ℕ))
    → (after_prepared p s prepared ≡ none) ↔ (prepared ≡ none)
unfolding after_prepared
after_prepared-none p s none = (λ e. refl, λ e. refl)
after_prepared-none p s (some (tasks, n)) =
    (λ e. absurd (none-ne-some _ (sym e)), λ e. absurd (none-ne-some _ (sym e)))

-- Flushing a batch ends in an exception exactly when the batch has an event that the filters keep
-- and whose data, once it is enriched, are there and no dict. Nothing is written then, whatever
-- else the batch holds. Every other batch is flushed.
pub flush_batch-fails :
    (p : Pipeline) (s : Sent) (batch : List Fields)
    → (flush_batch p s batch ≡ none) ↔ Any (IsPoison p) batch
unfolding flush_batch
flush_batch-fails p s [] = (λ e. none-ne-some s (sym e), absurd)
flush_batch-fails p s (entry ∷ batch) =
    let (down, up) = prepare_all-none p (entry ∷ batch) in
    let (empty, fill) = after_prepared-none p s (prepare_all p (entry ∷ batch)) in
    (λ e. down (empty e), λ any. fill (up any))

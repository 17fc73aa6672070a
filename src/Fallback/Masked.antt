-- ===== src/Fallback/Masked.antt =====
-- What the fallback's redaction leaves of an event.
use fapilog.Prelude.{
  ℕ, zero, suc, ◌≡◌, refl, ap, true, Option, some, Text, if◌then◌else◌, Bool-cases, inl, inr,
}
use mathlib.Core.Option.{some-injective}
use fapilog.Fallback.{
  Value, null, bool, num, str, list, tuple, dict, Items, nil, cons, Fields, end, field,
  is_sensitive, mask, redact_fields, redact_value, redact_items, max_redact_depth, minimal_redact,
  minimal, Payload, plain, serialized, json, written_parsed, write_to_stderr,
}

-- every sensitive key, at any depth, holds the mask
unfoldable mutual
  pub AreMasked : Fields → Type 0
  AreMasked end = Unit
  AreMasked (field k v d) = (is_sensitive k ≡ true → v ≡ mask) × IsMasked v × AreMasked d

  pub IsMasked : Value → Type 0
  IsMasked (dict d) = AreMasked d
  IsMasked (list vs) = AllMasked vs
  IsMasked (tuple vs) = AllMasked vs
  IsMasked _ = Unit

  pub AllMasked : Items → Type 0
  AllMasked nil = Unit
  AllMasked (cons v vs) = IsMasked v × AllMasked vs

-- no dict at any depth
unfoldable mutual
  pub NoDict : Value → Type 0
  NoDict (dict d) = ⊥
  NoDict (list vs) = NoDicts vs
  NoDict (tuple vs) = NoDicts vs
  NoDict _ = Unit

  pub NoDicts : Items → Type 0
  NoDicts nil = Unit
  NoDicts (cons v vs) = NoDict v × NoDicts vs

mutual
  unfolding NoDict AreMasked

  NoDict-IsMasked : (v : Value) → NoDict v → IsMasked v
  NoDict-IsMasked (dict d) h = absurd h
  NoDict-IsMasked (list vs) h = NoDicts-AllMasked vs h
  NoDict-IsMasked (tuple vs) h = NoDicts-AllMasked vs h
  NoDict-IsMasked null h = tt
  NoDict-IsMasked (bool b) h = tt
  NoDict-IsMasked (num n) h = tt
  NoDict-IsMasked (str t) h = tt

  NoDicts-AllMasked : (vs : Items) → NoDicts vs → AllMasked vs
  NoDicts-AllMasked nil h = tt
  NoDicts-AllMasked (cons v vs) (a, b) = (NoDict-IsMasked v a, NoDicts-AllMasked vs b)

-- nested in at most so many levels of dicts and lists, with no dict in a tuple
unfoldable mutual
  pub FieldsFit : ℕ → Fields → Type 0
  FieldsFit zero d = ⊥
  FieldsFit (suc left) end = Unit
  FieldsFit (suc left) (field k v d) = ValueFits left v × FieldsFit (suc left) d

  pub ValueFits : ℕ → Value → Type 0
  ValueFits left (dict d) = FieldsFit left d
  ValueFits left (list vs) = ItemsFit left vs
  ValueFits left (tuple vs) = NoDicts vs
  ValueFits left _ = Unit

  pub ItemsFit : ℕ → Items → Type 0
  ItemsFit zero vs = ⊥
  ItemsFit (suc left) nil = Unit
  ItemsFit (suc left) (cons v vs) = ValueFits left v × ItemsFit (suc left) vs

masked_field :
    (k : Text) (v : Value) (d : Fields)
    → IsMasked v
    → AreMasked d
    → AreMasked (field k (if is_sensitive k then mask else v) d)
unfolding AreMasked
masked_field k v d h t = elim (Bool-cases (is_sensitive k)) [
  | inl e ↦ rw e ((λ x. refl), tt, t)
  | inr e ↦ rw e ((λ x. cc), h, t)
]

mutual
  unfolding AreMasked FieldsFit redact_fields

  redact_fields-AreMasked :
      (left : ℕ) (d : Fields) → FieldsFit left d → AreMasked (redact_fields left d)
  redact_fields-AreMasked zero d h = absurd h
  redact_fields-AreMasked (suc left) end h = tt
  redact_fields-AreMasked (suc left) (field k v d) (a, b) =
      masked_field k (redact_value left v) (redact_fields (suc left) d)
        (redact_value-IsMasked left v a) (redact_fields-AreMasked (suc left) d b)

  redact_value-IsMasked : (left : ℕ) (v : Value) → ValueFits left v → IsMasked (redact_value left v)
  redact_value-IsMasked left (dict d) h = redact_fields-AreMasked left d h
  redact_value-IsMasked left (list vs) h = redact_items-AllMasked left vs h
  redact_value-IsMasked left (tuple vs) h = NoDicts-AllMasked vs h
  redact_value-IsMasked left null h = tt
  redact_value-IsMasked left (bool b) h = tt
  redact_value-IsMasked left (num n) h = tt
  redact_value-IsMasked left (str t) h = tt

  redact_items-AllMasked :
      (left : ℕ) (vs : Items) → ItemsFit left vs → AllMasked (redact_items left vs)
  redact_items-AllMasked zero vs h = absurd h
  redact_items-AllMasked (suc left) nil h = tt
  redact_items-AllMasked (suc left) (cons v vs) (a, b) =
      (redact_value-IsMasked left v a, redact_items-AllMasked (suc left) vs b)

-- the events of a payload: its dict, or the dict that its view reads as
abbrev pub event_of : (Text → Option Value) → Payload → Option Value
event_of loads (plain d) = some (dict d)
event_of loads (serialized view) = loads view

abbrev fields_in : Value → Fields
fields_in (dict d) = d
fields_in _ = end

-- In the redact mode `minimal`, an event nested in at most 32 levels of dicts and lists and without a
-- dict in a tuple that a failed sink hands to stderr, as a dict or as a view that reads as one, is
-- written as JSON in which every field with a sensitive name, at any depth and in any case, holds the
-- mask.
pub write_to_stderr-AreMasked :
    (loads : Text → Option Value) (scrub : Text → Text) (p : Payload) (d : Fields)
    → event_of loads p ≡ some (dict d)
    → FieldsFit max_redact_depth d
    → (w : Fields) × (write_to_stderr loads scrub minimal p ≡ json (dict w)) × AreMasked w
unfolding write_to_stderr written_parsed minimal_redact
write_to_stderr-AreMasked loads scrub (serialized view) d e h = (
  minimal_redact d,
  ap (written_parsed scrub view) e,
  redact_fields-AreMasked max_redact_depth d h,
)
write_to_stderr-AreMasked loads scrub (plain d') d e h = (
  minimal_redact d,
  ap (λ x. json (dict (minimal_redact (fields_in x)))) (some-injective _ _ e),
  redact_fields-AreMasked max_redact_depth d h,
)

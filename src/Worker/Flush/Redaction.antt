-- ===== src/Worker/Flush/Redaction.antt =====
-- What `_flush_batch` lets through to the sink, and when it fails.
use fapilog.Prelude.{
  ◌≡◌, refl, ◌⊎◌, inl, inr, ap, ◌∙◌, true, false, Option, none, some, List, [], ◌∷◌, Option-cases,
}
use fapilog.Prelude.Value.{Fields}
use fapilog.Redactors.{Redactor, redact_in_order, redact_one}
use fapilog.Worker.{Pipeline, passed, fails, apply_redactors, redact_unless, by_mode, is_unsafe}

-- The chain of redactors never raises, whatever its redactors do.
redact_in_order-total :
    (copy : Fields → Option Fields) (redactors : List Redactor) (event : Fields)
    → (result : Fields) × (redact_in_order copy redactors event ≡ some result)
unfolding redact_in_order
redact_in_order-total copy [] event = (event, refl)
redact_in_order-total copy (r ∷ redactors) event =
    redact_in_order-total copy redactors (redact_one r event (copy event))

-- Whatever the fail mode, the redactors and what they raise, no event is dropped by redaction: an
-- event whose mark cannot be read ends in an exception, one that is marked unsafe passes as it is,
-- and any other passes with what `redact_in_order` makes of it.
pub apply_redactors_lem :
    (p : Pipeline) (entry : Fields)
    → ((is_unsafe entry ≡ none) × (apply_redactors p entry ≡ fails))
      ⊎ (((is_unsafe entry ≡ some true) × (apply_redactors p entry ≡ passed entry))
          ⊎ ((result : Fields) × (is_unsafe entry ≡ some false)
              × (redact_in_order p.copy p.redactors entry ≡ some result)
              × (apply_redactors p entry ≡ passed result)))
unfolding apply_redactors redact_unless by_mode
apply_redactors_lem p entry = elim (Option-cases (is_unsafe entry)) [
  | inl e ↦ inl (e, ap (redact_unless p entry) e)
  | inr (true, e) ↦ inr (inl (e, ap (redact_unless p entry) e))
  | inr (false, e) ↦
      let (result, done) = redact_in_order-total p.copy p.redactors entry in
      inr
        (inr (result, e, done, ap (redact_unless p entry) e ∙ ap (by_mode p.fail_mode entry) done))
]

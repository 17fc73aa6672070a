-- ===== src/Fallback/Tests.antt =====
-- The redaction of the fallback at concrete events.
use fapilog.Prelude.{ℕ, ◌≡◌, refl, Bool, true, false, Option, none, some, Text, codes}
use fapilog.Fallback.{
  Value, num, str, list, tuple, dict, nil, cons, Fields, end, field, mask, is_sensitive,
  redact_fields, minimal_redact, minimal, serialized, json, write_to_stderr,
}
use fapilog.Fallback.Masked.{AreMasked, FieldsFit, write_to_stderr-AreMasked}

abbrev event : Fields
event = field (codes "user") (str (codes "ann")) (
    field (codes "Password") (str (codes "x"))
      (field (codes "list") (list (cons (dict (field (codes "token") (num 1) end)) nil)) end))

abbrev loads : Text → Option Value
loads view = some (dict event)

write_to_stderr-AreMasked_example :
    (w : Fields) × (write_to_stderr loads (λ t. t) minimal (serialized (codes "{}"))
      ≡ json (dict w))
    × AreMasked w
unfolding FieldsFit
write_to_stderr-AreMasked_example =
    write_to_stderr-AreMasked loads (λ t. t) (serialized (codes "{}")) event refl
      (tt, (tt, (((tt, tt), tt), tt)))

masked_event :
    minimal_redact event
    ≡ field (codes "user") (str (codes "ann")) (
        field
          (codes "Password")
          mask
          (field (codes "list") (list (cons (dict (field (codes "token") mask end)) nil)) end))
unfolding minimal_redact redact_fields is_sensitive fapilog.Prelude.to_lower
masked_event = refl

-- a secret that only the depth hides from the recursion passes
deep_secret :
    redact_fields 1 (field (codes "a") (dict (field (codes "token") (num 1) end)) end)
    ≡ field (codes "a") (dict (field (codes "token") (num 1) end)) end
unfolding redact_fields is_sensitive fapilog.Prelude.to_lower
deep_secret = refl

-- and so does one in a tuple
secret_in_tuple :
    let d = field (codes "a") (tuple (cons (dict (field (codes "token") (num 1) end)) nil)) end in
    minimal_redact d ≡ d
unfolding minimal_redact redact_fields is_sensitive fapilog.Prelude.to_lower
secret_in_tuple = refl

-- ===== src/Redactors.antt =====
-- plugins/redactors/__init__.py, redact_in_order. A redactor answers for a snapshot of the event
-- with a value, or raises. `copy` stands for the round trip through orjson that makes the
-- snapshot; it raises on an event that is not JSON. Metrics and diagnostics only observe.
pub mod FieldBlocker
use fapilog.Prelude.{Option, none, some, List, [], ◌∷◌}
use fapilog.Prelude.Value.{Value, dict, Fields}

-- `none` for an exception
abbrev pub Redactor : Type 0
Redactor = Fields → Option Value

-- Only a dict replaces the event.
replaced : Fields → Option Value → Fields
replaced event (some (dict next)) = next
replaced event _ = event

-- one round of the loop, its exceptions contained
unfoldable pub redact_one : Redactor → Fields → Option Fields → Fields
unfolding replaced
redact_one r event none = event
redact_one r event (some snapshot) = replaced event (r snapshot)

unfoldable pub redact_in_order : (Fields → Option Fields) → List Redactor → Fields → Option Fields
unfolding redact_one
redact_in_order copy [] event = some event
redact_in_order copy (r ∷ redactors) event =
    redact_in_order copy redactors (redact_one r event (copy event))

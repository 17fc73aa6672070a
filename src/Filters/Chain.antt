-- ===== src/Filters/Chain.antt =====
-- plugins/filters/__init__.py, filter_in_order. A filter's answer for a snapshot of the event is
-- one of three: keep (with the event it returns), drop (None), or raise. Metrics and diagnostics
-- only observe.
use fapilog.Prelude.{Option, none, some, List, [], ◌∷◌}
use fapilog.Prelude.Value.{Fields}

pub data Answer : Type 0 where
  keep : Fields → Answer
  drop raises : Answer

abbrev pub Filter : Type 0
Filter = Fields → Answer

-- A filter that raises is passed over with the event as it was.
unfoldable pub filter_in_order : List Filter → Fields → Option Fields
filter_in_order [] event = some event
filter_in_order (f ∷ filters) event = elim (f event) [
  | keep result ↦ filter_in_order filters result
  | drop ↦ none
  | raises ↦ filter_in_order filters event
]

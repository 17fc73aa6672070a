-- ===== src/Filters/Ladder/Tests.antt =====
-- The gates of the ladder on one event.
use fapilog.Prelude.{true, ◌≡◌, some, none, [], ◌∷◌, Text, codes, leb, if◌then◌else◌}
use fapilog.Prelude.Value.{Value, str, Fields, field, end}
use fapilog.Queue.Level.{level_key}
use fapilog.Levels.{Registry, get_level_priority}
use fapilog.Filters.Chain.{filter_in_order}
use fapilog.Filters.Ladder.{build_high_filters, build_critical_filters}
use fapilog.Filters.Ladder.Passes.{event_priority, critical_admits, critical_passes, high_passes}

abbrev registry : Registry
registry = record { custom_levels = []; pending_methods = []; frozen = true }

abbrev render : Value → Text
render v = []

abbrev audit : Fields
audit = field level_key (str (codes "AUDIT")) end

critical_passes_example :
    filter_in_order (build_critical_filters registry render (codes "ERROR" ∷ [])) audit ≡ (
      if critical_admits registry (codes "ERROR" ∷ []) (event_priority registry render audit)
      then some audit
      else none)
critical_passes_example = critical_passes registry render (codes "ERROR" ∷ []) audit

high_passes_example : filter_in_order (build_high_filters registry render []) audit ≡ (
    if leb (get_level_priority registry (codes "WARNING")) (event_priority registry render audit)
    then filter_in_order [] audit
    else none)
high_passes_example = high_passes registry render [] audit

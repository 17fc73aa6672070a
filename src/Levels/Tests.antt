-- ===== src/Levels/Tests.antt =====
-- Runs of the level registry.
use fapilog.Prelude.{◌≤◌, true, false, List, [], ◌∷◌, Text, codes}
use fapilog.Prelude.Int.{pos}
use fapilog.Levels.{Registry, get_level_priority, reset_registry}
use fapilog.Levels.Priorities.{Op, register, freeze, run, get_level_priority-le}

abbrev trace : Text
trace = codes "trace"

abbrev ops : List Op
ops = register trace (pos 5) true ∷ register (codes "info") (pos 5) false ∷ freeze ∷ []

abbrev with_trace : Registry
with_trace = record {
  custom_levels = (codes "TRACE", 5) ∷ [];
  pending_methods = codes "TRACE" ∷ [];
  frozen = false;
}

get_level_priority-le_example : get_level_priority (run reset_registry ops) trace ≤ 99
get_level_priority-le_example = get_level_priority-le ops trace

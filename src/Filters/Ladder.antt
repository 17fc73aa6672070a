-- ===== src/Filters/Ladder.antt =====
-- core/filter_ladder.py: the chains of the pressure levels HIGH and CRITICAL, and what they let
-- through.
pub mod Passes
mod Tests
use fapilog.Prelude.{
  ℕ, Bool, true, false, Option, none, some, List, [], ◌∷◌, Text, codes, ltb, if◌then◌else◌,
}
use fapilog.Prelude.Value.{Value, Fields}
use fapilog.Levels.{Registry, get_level_priority}
use fapilog.Filters.Chain.{Filter}
use fapilog.Filters.Gate.{LevelFilter, new_filter, filter}

-- the gate first, then the user's filters
unfoldable pub build_high_filters : Registry → (Value → Text) → List Filter → List Filter
build_high_filters r render base = filter r render (new_filter r (codes "WARNING") true) ∷ base

-- `min(levels, key=get_level_priority)`, with the first of the levels in hand
unfoldable pub min_level : Registry → Text → List Text → Text
min_level r best [] = best
min_level r best (l ∷ levels) =
    min_level r (if ltb (get_level_priority r l) (get_level_priority r best) then l else best)
      levels

unfoldable pub build_critical_filters : Registry → (Value → Text) → List Text → List Filter
build_critical_filters r render [] = filter r render (new_filter r (codes "FATAL") true) ∷ []
build_critical_filters r render (l ∷ levels) =
    filter r render (new_filter r (min_level r l levels) true) ∷ []

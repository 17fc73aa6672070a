-- ===== src/Filters.antt =====
-- plugins/filters and core/filter_ladder.py: the filters, the chain that runs them, and the ladder
-- of chains for the pressure levels.
pub mod Chain
pub mod Gate
pub mod Ladder
pub mod Rendered
pub mod RateLimit
pub mod FirstOccurrence

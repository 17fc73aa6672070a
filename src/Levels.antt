-- ===== src/Levels.antt =====
-- core/levels.py: the registry of log levels. The three module variables are one record.
pub mod Priorities
mod Tests
use fapilog.Prelude.{
  ℕ, Bool, true, false, not, ◌&&◌, ◌||◌, Option, none, some, List, [], ◌∷◌, ◌++◌, Text, codes,
  text_eq, upper, leb, if◌then◌else◌,
}
use fapilog.Prelude.Int.{ℤ, pos, negsuc}

abbrev pub Table : Type 0
Table = List (Text × ℕ)

abbrev pub default_levels : Table
default_levels =
    (codes "DEBUG", 10)
    ∷ (codes "INFO", 20)
    ∷ (codes "WARNING", 30)
    ∷ (codes "WARN", 30)
    ∷ (codes "ERROR", 40)
    ∷ (codes "CRITICAL", 50)
    ∷ (codes "FATAL", 50)
    ∷ (codes "AUDIT", 60)
    ∷ (codes "SECURITY", 70)
    ∷ []

pub record Registry : Type 0 where
  pub custom_levels : Table
  pub pending_methods : List Text
  pub frozen : Bool

unfoldable pub find : Text → Table → Option ℕ
find name [] = none
find name ((n, p) ∷ table) = if text_eq n name then some p else find name table

-- `name in table`
unfoldable pub has_level : Text → Table → Bool
has_level name [] = false
has_level name ((n, p) ∷ table) = text_eq n name || has_level name table

pub data Error : Type 0 where
  already_frozen already_exists bad_priority : Error

pub data Result : Type 0 where
  ok : Registry → Result
  err : Error → Result

-- 0 <= priority <= 99
in_range : ℤ → Bool
in_range (pos n) = leb n 99
in_range (negsuc n) = false

magnitude : ℤ → ℕ
magnitude (pos n) = n
magnitude (negsuc n) = 0

unfoldable pub register_level : Registry → Text → ℤ → Bool → Result
unfolding in_range magnitude
register_level r name priority add_method =
    if r.frozen
    then err already_frozen
    else if has_level (upper name) default_levels || has_level (upper name) r.custom_levels
    then err already_exists
    else if not (in_range priority)
    then err bad_priority
    else ok (record r {
      custom_levels = r.custom_levels ++ (upper name, magnitude priority) ∷ [];
      pending_methods =
          if add_method then r.pending_methods ++ upper name ∷ [] else r.pending_methods;
    })

or_info : Option ℕ → ℕ
or_info none = 20
or_info (some p) = p

custom_or_default : Option ℕ → Text → ℕ
unfolding or_info find
custom_or_default none name = or_info (find name default_levels)
custom_or_default (some p) name = p

unfoldable pub get_level_priority : Registry → Text → ℕ
unfolding custom_or_default
get_level_priority r level = custom_or_default (find (upper level) r.custom_levels) (upper level)

unfoldable pub freeze_registry : Registry → Registry
freeze_registry r = record r { frozen = true }

unfoldable pub reset_registry : Registry
reset_registry = record { custom_levels = []; pending_methods = []; frozen = false }

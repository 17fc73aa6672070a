-- ===== src/Filters/Gate.antt =====
-- plugins/filters/level.py, LevelFilter.
use fapilog.Prelude.{ℕ, Bool, ◌&&◌, Text, upper, ltb, if◌then◌else◌}
use fapilog.Prelude.Value.{Value, Fields, get}
use fapilog.Levels.{Registry, get_level_priority}
use fapilog.Queue.Level.{level_key, info}
use fapilog.Filters.Rendered.{to_str_or}
use fapilog.Filters.Chain.{Answer, keep, drop}

pub record LevelFilter : Type 0 where
  pub min_priority : ℕ
  pub drop_below : Bool

-- the minimum level is looked up when the filter is built
unfoldable pub new_filter : Registry → Text → Bool → LevelFilter
new_filter r min_level drop_below = record {
  min_priority = get_level_priority r min_level;
  drop_below = drop_below;
}

-- the level of an event as text, in upper case
unfoldable pub level_text : (Value → Text) → Fields → Text
unfolding to_str_or
level_text render event = upper (to_str_or render info (get level_key event))

unfoldable pub filter : Registry → (Value → Text) → LevelFilter → Fields → Answer
filter r render f event =
    let priority = get_level_priority r (level_text render event) in
    if f.drop_below && ltb priority f.min_priority then drop else keep event

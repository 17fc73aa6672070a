-- ===== src/Routing.antt =====
-- core/routing.py: RoutingSinkWriter. The sinks stand in one dictionary, to whose entries the lists
-- of a level refer by name. A sink answers a write with a result or an exception; what the writer
-- does with an event for a target is noted. Targets are written one after the other, also where the
-- code gathers the writes. A set of levels is the list of its members.
pub mod Routes
pub mod Targets
pub mod Meetings
pub mod Writes
pub mod Lost
mod Tests
use fapilog.Prelude.{
  ℕ, Bool, true, false, ◌&&◌, Option, none, some, List, [], ◌∷◌, ◌++◌, map, Text, codes, text_eq,
  upper, lower, ◌==◌, if◌then◌else◌,
}
use fapilog.Prelude.Value.{Fields}
use fapilog.Prelude.Dict.{lookup, insert, contains}
use fapilog.Breaker.{Breaker, Config, should_allow, record_failure, record_success}

-- what a sink's write comes to; an AttributeError is told apart
pub data Answer : Type 0 where
  done returned_false raises raises_attribute_error : Answer

pub record SinkEntry : Type 0 where
  pub write : Fields → Answer
  pub write_serialized : Text → Answer
  pub breaker : Option Breaker

pub data Fate : Type 0 where
  refused delivered fell_back lost : Fate

pub record Writer : Type 0 where
  pub overlap : Bool
  pub sink_entries : List (Text × SinkEntry)
  pub level_to_entries : List (Text × List Text)
  pub fallback_entries : List Text
  pub fates : List (Text × Fate)

abbrev pub Rule : Type 0
Rule = List Text × List Text

-- `-` is 45 and `_` 95
abbrev underscored : ℕ → ℕ
underscored c = if c == 45 then 95 else c

unfoldable pub normalize_plugin_name : Text → Text
normalize_plugin_name name = lower (map underscored name)

unfoldable pub normalize_level : Text → Text
normalize_level level = upper level

abbrev pub star : Text
star = codes "*"

-- the names among these that are sinks
unfoldable pub resolved : List (Text × SinkEntry) → List Text → List Text
unfolding normalize_plugin_name
resolved entries [] = []
resolved entries (name ∷ names) =
    let rest = resolved entries names in
    if contains (normalize_plugin_name name) entries
    then normalize_plugin_name name ∷ rest
    else rest

unfoldable pub extended :
    Bool → Text → List Text → List (Text × List Text) → Option (List Text) → List (Text × List Text)
extended overlap level sinks d none = insert level sinks d
extended overlap level sinks d (some old) = if overlap then insert level (old ++ sinks) d else d

-- `dict.setdefault(level, [])` extended, or `dict.setdefault(level, sinks)`
unfoldable pub add_route :
    Bool → Text → List Text → List (Text × List Text) → List (Text × List Text)
unfolding extended
add_route overlap level sinks d = extended overlap level sinks d (lookup level d)

unfoldable pub add_levels :
    Bool → List Text → List Text → List (Text × List Text) → List (Text × List Text)
unfolding add_route normalize_level
add_levels overlap [] sinks d = d
add_levels overlap (level ∷ levels) sinks d =
    if text_eq (normalize_level level) star
    then add_levels overlap levels sinks d
    else add_levels overlap levels sinks (add_route overlap (normalize_level level) sinks d)

unfoldable pub add_rules :
    Bool → List (Text × SinkEntry) → List Rule → List (Text × List Text) → List (Text × List Text)
unfolding add_levels resolved
add_rules overlap entries [] d = d
add_rules overlap entries ((levels, names) ∷ rules) d =
    add_rules overlap entries rules (add_levels overlap levels (resolved entries names) d)

unfoldable pub has_star : List Text → Bool
unfolding normalize_level
has_star [] = false
has_star (level ∷ levels) =
    let rest = has_star levels in if text_eq (normalize_level level) star then true else rest

-- the sinks of the rules with a star
unfoldable pub wildcards : List (Text × SinkEntry) → List Rule → List Text
unfolding has_star resolved
wildcards entries [] = []
wildcards entries ((levels, names) ∷ rules) =
    let rest = wildcards entries rules in
    if has_star levels then resolved entries names ++ rest else rest

-- `{e.name: e for e in entries}`
unfoldable pub entries_of :
    List (Text × SinkEntry) → List (Text × SinkEntry) → List (Text × SinkEntry)
unfolding normalize_plugin_name
entries_of [] d = d
entries_of ((name, e) ∷ sinks) d = entries_of sinks (insert (normalize_plugin_name name) e d)

unfoldable pub init : List (Text × SinkEntry) → List Rule → List Text → Bool → Writer
unfolding entries_of add_rules wildcards resolved
init sinks rules fallback overlap =
    let entries = entries_of sinks [] in
    record {
      overlap = overlap;
      sink_entries = entries;
      level_to_entries = add_rules overlap entries rules [];
      fallback_entries = wildcards entries rules ++ resolved entries fallback;
      fates = [];
    }

unfoldable pub update_rules : Writer → List Rule → List Text → Writer
unfolding add_rules wildcards resolved
update_rules w rules fallback = record w {
  level_to_entries = add_rules w.overlap w.sink_entries rules [];
  fallback_entries = resolved w.sink_entries fallback ++ wildcards w.sink_entries rules;
}

abbrev pub routed : Option (List Text) → List Text → List Text
routed none fallback = fallback
routed (some sinks) fallback = sinks

unfoldable pub get_sinks_for_level : Writer → Text → List Text
unfolding normalize_level
get_sinks_for_level w level =
    routed (lookup (normalize_level level) w.level_to_entries) w.fallback_entries

-- `write_serialized` of an entry contains an AttributeError and answers None
unfoldable pub answer_serialized : Answer → Answer × Fate
answer_serialized done = (done, delivered)
answer_serialized returned_false = (returned_false, fell_back)
answer_serialized raises = (raises, fell_back)
answer_serialized raises_attribute_error = (done, lost)

unfoldable pub answer_plain : Answer → Answer × Fate
answer_plain done = (done, delivered)
answer_plain a = (a, fell_back)

-- the breaker after an answer
unfoldable pub recorded : Breaker → ℕ → Answer → Breaker
recorded b now done = record_success b
recorded b now _ = record_failure b now

-- the write to one target, with its breaker
unfoldable pub attempt : SinkEntry → ℕ → Answer × Fate → Option Breaker → SinkEntry × Fate
unfolding recorded
attempt e now answer none = (e, answer.1)
attempt e now answer (some b) =
    let asked = should_allow b now in
    if asked.1
    then (record e { breaker = some (recorded asked.0 now answer.0) }, answer.1)
    else (record e { breaker = some asked.0 }, refused)

unfoldable pub noted : Writer → Text → SinkEntry × Fate → Writer
noted w name r = record w {
  sink_entries = insert name r.0 w.sink_entries;
  fates = w.fates ++ (name, r.1) ∷ [];
}

pub data Payload : Type 0 where
  plain : Fields → Payload
  serialized : Text → Payload

unfoldable pub answer_of : SinkEntry → Payload → Answer × Fate
unfolding answer_plain answer_serialized
answer_of e (plain x) = answer_plain (e.write x)
answer_of e (serialized v) = answer_serialized (e.write_serialized v)

unfoldable pub one_noted : Writer → ℕ → Text → Payload → Option SinkEntry → Writer
unfolding attempt noted answer_of
one_noted w now name payload none = w
one_noted w now name payload (some e) = noted w name (attempt e now (answer_of e payload) e.breaker)

unfoldable pub write_one : Writer → ℕ → Text → Payload → Writer
unfolding one_noted
write_one w now name payload = one_noted w now name payload (lookup name w.sink_entries)

unfoldable pub write_each : Writer → ℕ → List Text → Payload → Writer
unfolding write_one
write_each w now [] payload = w
write_each w now (name ∷ names) payload =
    write_each (write_one w now name payload) now names payload

-- `write` and `write_serialized`, with the level of the payload
unfoldable pub write : Writer → ℕ → Text → Payload → Writer
unfolding get_sinks_for_level write_each
write w now level payload = write_each w now (get_sinks_for_level w level) payload

-- ===== src/Routing/Tests.antt =====
-- The routing writer at concrete sinks and rules.
use fapilog.Prelude.{
  ℕ, ◌≡◌, refl, ap, Bool, true, false, Option, none, some, List, [], ◌∷◌, ◌++◌, map, Text, codes,
  All,
}
use fapilog.Prelude.Value.{end}
use fapilog.Breaker.{Breaker, Config}
use fapilog.Routing.{
  Answer, done, returned_false, raises, raises_attribute_error, SinkEntry, Writer, init, entries_of,
  plain, write, get_sinks_for_level, wildcards, resolved, routed, update_rules, normalize_level,
  lost, Rule,
}
use fapilog.Routing.Routes.{sinks_for, get_sinks_for_level-init}
use fapilog.Routing.Meetings.{Apart}
use fapilog.Routing.Writes.{write-Notes}
use fapilog.Routing.Lost.{IsMute, write_views, write_views-lost}

abbrev breaker : Breaker
unfolding fapilog.Breaker.init
breaker =
    fapilog.Breaker.init
      (record { failure_threshold = 2; recovery_timeout = 30; half_open_max_calls = 1 })

abbrev file_sink : SinkEntry
file_sink = record {
  write = λ e. done;
  write_serialized = λ v. raises_attribute_error;
  breaker = some breaker;
}

abbrev http_sink : SinkEntry
http_sink = record { write = λ e. raises; write_serialized = λ v. raises; breaker = none }

abbrev sinks : List (Text × SinkEntry)
sinks = (codes "file", file_sink) ∷ (codes "HTTP-sink", http_sink) ∷ []

abbrev rules : List Rule
rules =
    (codes "error" ∷ codes "INFO" ∷ [], codes "http-sink" ∷ [])
    ∷ (codes "ERROR" ∷ [], codes "file" ∷ codes "gone" ∷ [])
    ∷ (codes "*" ∷ [], codes "file" ∷ [])
    ∷ []

abbrev writer : Writer
writer = init sinks rules [] true

get_sinks_for_level-init_example :
    get_sinks_for_level (init sinks rules [] true) (codes "Error")
    ≡ routed
        (sinks_for true (entries_of sinks []) rules (normalize_level (codes "Error")))
        (wildcards (entries_of sinks []) rules ++ resolved (entries_of sinks []) [])
get_sinks_for_level-init_example = get_sinks_for_level-init sinks rules [] true (codes "Error")

write-Notes_example :
    let w' = write writer 5 (codes "error") (plain end) in
    (map (λ f. f.0) w'.fates ≡ get_sinks_for_level writer (codes "error"))
    × Apart writer 5 (plain end) (get_sinks_for_level writer (codes "error")) w' w'.fates
write-Notes_example = write-Notes sinks rules [] true 5 (codes "error") (plain end)

abbrev mute_writer : Writer
mute_writer = record {
  overlap = true;
  sink_entries = (codes "file", file_sink) ∷ [];
  level_to_entries = [];
  fallback_entries = codes "file" ∷ [];
  fates = [];
}

write_views-lost_example :
    let w = write_views mute_writer (codes "file") ((1, codes "a") ∷ (2, codes "b") ∷ []) in
    IsMute w (codes "file") [] × (w.fates ≡ (codes "file", lost) ∷ (codes "file", lost) ∷ [])
unfolding fapilog.Prelude.Dict.lookup breaker
write_views-lost_example =
    write_views-lost mute_writer (codes "file") [] ((1, codes "a") ∷ (2, codes "b") ∷ [])
      (file_sink, breaker, refl, refl, refl, refl, λ v. refl)

-- an error goes to the HTTP sink, by any spelling of its name, and then to the file
error_targets : get_sinks_for_level writer (codes "error") ≡ codes "http_sink" ∷ codes "file" ∷ []
unfolding get_sinks_for_level init entries_of resolved normalize_level
    fapilog.Routing.normalize_plugin_name fapilog.Routing.add_rules fapilog.Routing.add_levels
    fapilog.Routing.add_route fapilog.Routing.extended fapilog.Prelude.Dict.lookup
    fapilog.Prelude.Dict.insert fapilog.Prelude.Dict.contains fapilog.Prelude.to_upper
    fapilog.Prelude.to_lower
error_targets = refl

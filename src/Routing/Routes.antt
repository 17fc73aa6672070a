-- ===== src/Routing/Routes.antt =====
-- Where the events of a level go.
use fapilog.Prelude.{
  ◌≡◌, refl, sym, ap, ◌∙◌, Bool, true, false, Option, none, some, List, [], ◌∷◌, ◌++◌, Text,
  text_eq, text_eq_sound, append-nil, if◌then◌else◌, Bool-cases, inl, inr, append_assoc, subst,
}
use fapilog.Prelude.Dict.{lookup, lookup-insert}
use fapilog.Routing.{
  SinkEntry, Writer, Rule, star, extended, add_route, add_levels, add_rules, normalize_level,
  resolved, wildcards, init, entries_of, update_rules, get_sinks_for_level, routed,
}

abbrev pub or_empty : Option (List Text) → List Text
or_empty none = []
or_empty (some sinks) = sinks

-- the sinks that a level already has, with those of later rules
abbrev pub join : Bool → Option (List Text) → Option (List Text) → Option (List Text)
join overlap none later = later
join overlap (some old) later = if overlap then some (old ++ or_empty later) else some old

abbrev pub wants : Text → Text → Bool
wants j level =
    if text_eq (normalize_level level) star then false else text_eq (normalize_level level) j

-- the sinks of a rule's levels for the level `j`, before those of the later rules
abbrev pub levels_for :
    Bool → Text → List Text → List Text → Option (List Text) → Option (List Text)
levels_for overlap j [] sinks later = later
levels_for overlap j (level ∷ levels) sinks later =
    let rest = levels_for overlap j levels sinks later in
    if wants j level then join overlap (some sinks) rest else rest

-- The sinks for a level: with overlap those of all rules that name it, in order, else those of the
-- first; none where no rule names it.
abbrev pub sinks_for : Bool → List (Text × SinkEntry) → List Rule → Text → Option (List Text)
sinks_for overlap entries [] j = none
sinks_for overlap entries ((levels, names) ∷ rules) j =
    levels_for overlap j levels (resolved entries names) (sinks_for overlap entries rules j)

lookup_same :
    (level j : Text) (d : List (Text × List Text)) (o : Option (List Text))
    → text_eq level j ≡ true
    → lookup level d ≡ o
    → lookup j d ≡ o
lookup_same level j d o b e = subst (λ k. lookup k d ≡ o) (text_eq_sound level j b) e

extended-lookup :
    (overlap : Bool) (j level : Text) (sinks : List Text) (d : List (Text × List Text))
    (o later : Option (List Text))
    → lookup level d ≡ o
    → join overlap (lookup j (extended overlap level sinks d o)) later
      ≡ join overlap
          (lookup j d)
          (if text_eq level j then join overlap (some sinks) later else later)
unfolding extended
extended-lookup overlap j level sinks d none later e = elim (Bool-cases (text_eq level j)) [
  | inl b ↦ rw (lookup-insert level j sinks d, b, lookup_same level j d none b e) refl
  | inr b ↦ rw (lookup-insert level j sinks d, b) refl
]
extended-lookup true j level sinks d (some old) later e = elim (Bool-cases (text_eq level j)) [
  | inl b ↦
      rw (lookup-insert level j (old ++ sinks) d, b, lookup_same level j d (some old) b e)
        (ap some (append_assoc old sinks (or_empty later)))
  | inr b ↦ rw (lookup-insert level j (old ++ sinks) d, b) refl
]
extended-lookup false j level sinks d (some old) later e = elim (Bool-cases (text_eq level j)) [
  | inl b ↦ rw (b, lookup_same level j d (some old) b e) refl
  | inr b ↦ rw b refl
]

add_levels-lookup :
    (overlap : Bool) (j : Text) (levels sinks : List Text) (d : List (Text × List Text))
    (later : Option (List Text))
    → join overlap (lookup j (add_levels overlap levels sinks d)) later
      ≡ join overlap (lookup j d) (levels_for overlap j levels sinks later)
unfolding add_levels add_route
add_levels-lookup overlap j [] sinks d later = refl
add_levels-lookup overlap j (level ∷ levels) sinks d later =
    elim (Bool-cases (text_eq (normalize_level level) star)) [
      | inl b ↦ rw b (add_levels-lookup overlap j levels sinks d later)
      | inr b ↦
          let l = normalize_level level in
          rw b (
            add_levels-lookup overlap j levels sinks (extended overlap l sinks d (lookup l d)) later
            ∙ extended-lookup overlap j l sinks d (lookup l d)
                (levels_for overlap j levels sinks later) refl)
    ]

join-none : (overlap : Bool) (o : Option (List Text)) → join overlap o none ≡ o
join-none overlap none = refl
join-none true (some old) = ap some (append-nil old)
join-none false (some old) = refl

add_rules-lookup :
    (overlap : Bool) (entries : List (Text × SinkEntry)) (j : Text) (rules : List Rule)
    (d : List (Text × List Text))
    → lookup j (add_rules overlap entries rules d)
      ≡ join overlap (lookup j d) (sinks_for overlap entries rules j)
unfolding add_rules
add_rules-lookup overlap entries j [] d = sym (join-none overlap (lookup j d))
add_rules-lookup overlap entries j ((levels, names) ∷ rules) d =
    add_rules-lookup overlap entries j rules (add_levels overlap levels (resolved entries names) d)
    ∙ add_levels-lookup overlap j levels (resolved entries names) d
        (sinks_for overlap entries rules j)

-- A new writer sends the events of a level, in any case, to the sinks of all rules that name it, in
-- their order (to those of the first such rule without overlap), and where no rule names it to the
-- sinks of the rules with a star and then the fallback sinks.
pub get_sinks_for_level-init :
    (sinks : List (Text × SinkEntry)) (rules : List Rule) (fallback : List Text) (overlap : Bool)
    (level : Text)
    → let entries = entries_of sinks [] in
      get_sinks_for_level (init sinks rules fallback overlap) level
      ≡ routed
          (sinks_for overlap entries rules (normalize_level level))
          (wildcards entries rules ++ resolved entries fallback)
unfolding get_sinks_for_level init lookup
get_sinks_for_level-init sinks rules fallback overlap level =
    let entries = entries_of sinks [] in
    ap (λ o. routed o (wildcards entries rules ++ resolved entries fallback))
      (add_rules-lookup overlap entries (normalize_level level) rules [])

-- After `update_rules` the events of a level that the new rules name go where a new writer with
-- these rules sends them; those of other levels go to the fallback sinks before the ones of the
-- star, where a new writer has them the other way round.
pub get_sinks_for_level-update_rules :
    (w : Writer) (rules : List Rule) (fallback : List Text) (level : Text)
    → get_sinks_for_level (update_rules w rules fallback) level
      ≡ routed
          (sinks_for w.overlap w.sink_entries rules (normalize_level level))
          (resolved w.sink_entries fallback ++ wildcards w.sink_entries rules)
unfolding get_sinks_for_level update_rules lookup
get_sinks_for_level-update_rules w rules fallback level =
    ap (λ o. routed o (resolved w.sink_entries fallback ++ wildcards w.sink_entries rules))
      (add_rules-lookup w.overlap w.sink_entries (normalize_level level) rules [])

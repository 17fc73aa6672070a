-- ===== src/Routing/Writes.antt =====
-- What becomes of an event at each of its targets.
use fapilog.Prelude.{
  ℕ, text_eq_iff, ◌≡◌, refl, sym, ap, ◌∙◌, Bool, some, List, [], ◌∷◌, ◌++◌, map, Text, text_eq,
  Bool-cases, inl, inr, append_assoc, append-nil, subst, All, All-append, All-map,
}
use mathlib.Core.Option.{some-injective}
use fapilog.Prelude.Dict.{lookup, lookup-insert}
use fapilog.Routing.{
  SinkEntry, Fate, Writer, noted, Payload, write_one, write_each, write, get_sinks_for_level,
  one_noted, resolved, wildcards, Rule, normalize_level, entries_of, init,
}
use fapilog.Routing.Routes.{sinks_for, get_sinks_for_level-init}
use fapilog.Routing.Targets.{
  AreSinks, resolved-AreSinks, wildcards-AreSinks, sinks_for-AreSinks, routed-AreSinks,
}
use fapilog.Routing.Meetings.{meet, meetings, count, fates_at, attempt-meet, Apart}

abbrev pub IsSink : Writer → Text → Type 0
IsSink w name = (e : SinkEntry) × (lookup name w.sink_entries ≡ some e)

inserted-IsSink :
    (w : Writer) (name j : Text) (r : SinkEntry × Fate) → IsSink w j → IsSink (noted w name r) j
unfolding noted
inserted-IsSink w name j r (e, h) = elim (Bool-cases (text_eq name j)) [
  | inl b ↦ (r.0, rw (lookup-insert name j r.0 w.sink_entries, b) refl)
  | inr b ↦ (e, rw (lookup-insert name j r.0 w.sink_entries, b) h)
]

write_one-noted :
    (w : Writer) (now : ℕ) (name : Text) (p : Payload) (e : SinkEntry)
    → lookup name w.sink_entries ≡ some e
    → write_one w now name p ≡ noted w name (meet e now p)
unfolding write_one one_noted
write_one-noted w now name p e h =
    ap (one_noted w now name p) h ∙ ap (noted w name) (attempt-meet e now p e.breaker)

-- a write to `name` first, then the others
Apart-cons :
    (w : Writer) (now : ℕ) (p : Payload) (name : Text) (names : List Text) (w' : Writer)
    (new : List (Text × Fate)) (e : SinkEntry)
    → lookup name w.sink_entries ≡ some e
    → Apart (noted w name (meet e now p)) now p names w' new
    → Apart w now p (name ∷ names) w' ((name, (meet e now p).1) ∷ new)
unfolding noted
Apart-cons w now p name names w' new e h later j f k =
    let at = lookup-insert name j (meet e now p).0 w.sink_entries in
    elim (Bool-cases (text_eq name j)) [
      | inl b ↦
          let same : e ≡ f =
            some-injective e f
              (sym h ∙ (ap (λ x. lookup x w.sink_entries) ((text_eq_iff name j).0 b) ∙ k)) in
          let (x, y) = later j (meet e now p).0 (rw (at, b) refl) in
          subst
            (λ g.
              (lookup j w'.sink_entries ≡ some (meetings g now p (count j (name ∷ names))).0)
              × (fates_at j ((name, (meet e now p).1) ∷ new)
                  ≡ (meetings g now p (count j (name ∷ names))).1))
            same (rw b (x, ap (◌∷◌ (meet e now p).1) y))
      | inr b ↦ let (x, y) = later j f (rw (at, b) k) in rw b (x, y)
    ]

-- the fates that writes to these names add
abbrev Notes : Writer → ℕ → Payload → List Text → Writer → Type 0
Notes w now p names w' =
    (new : List (Text × Fate)) × (w'.fates ≡ w.fates ++ new)
    × (map (λ f. f.0) new ≡ names)
    × Apart w now p names w' new

write_each-Notes :
    (w : Writer) (now : ℕ) (names : List Text) (p : Payload)
    → All (IsSink w) names
    → Notes w now p names (write_each w now names p)
unfolding write_each
write_each-Notes w now [] p h = ([], sym (append-nil w.fates), refl, λ j e k. (k, refl))
write_each-Notes w now (name ∷ names) p ((e, i), h) =
    let r = meet e now p in
    let w' = noted w name r in
    let (new, a, b, c) =
      write_each-Notes w' now names p
        (All-map (IsSink w) (IsSink w') names (λ j. inserted-IsSink w name j r) h) in
    subst (λ v. Notes w now p (name ∷ names) (write_each v now names p))
      (sym (write_one-noted w now name p e i))
      (
        (name, r.1) ∷ new,
        unfold noted in a ∙ append_assoc w.fates ((name, r.1) ∷ []) new,
        ap (◌∷◌ name) b,
        Apart-cons w now p name names (write_each w' now names p) new e i c,
      )

-- A new writer takes the targets of an event's level once per entry of the list, in its order, and
-- at each sink by itself the event has the fates, and the sink the breaker afterwards, that this sink
-- alone leads to when it is handed the event as often as its name is a target: whether its breaker
-- allows it, then delivery, the fallback or (for an AttributeError of a serialized write only) loss by
-- the sink's own answer, which the breaker takes note of. No failure of another sink plays a part.
pub write-Notes :
    (sinks : List (Text × SinkEntry)) (rules : List Rule) (fallback : List Text) (overlap : Bool)
    (now : ℕ) (level : Text) (p : Payload)
    → let w = init sinks rules fallback overlap in
      let w' = write w now level p in
      (map (λ f. f.0) w'.fates ≡ get_sinks_for_level w level)
      × Apart w now p (get_sinks_for_level w level) w' w'.fates
unfolding write init
write-Notes sinks rules fallback overlap now level p =
    let w = init sinks rules fallback overlap in
    let entries = entries_of sinks [] in
    let targets = get_sinks_for_level w level in
    let are : AreSinks entries targets =
      subst (AreSinks entries) (sym (get_sinks_for_level-init sinks rules fallback overlap level)) (
        routed-AreSinks entries (sinks_for overlap entries rules (normalize_level level))
          (wildcards entries rules ++ resolved entries fallback)
          (sinks_for-AreSinks entries overlap rules (normalize_level level))
          (All-append (λ n. (e : SinkEntry) × (lookup n entries ≡ some e)) (wildcards entries rules)
            (resolved entries fallback) (wildcards-AreSinks entries rules)
            (resolved-AreSinks entries fallback))) in
    let (new, a, b, c) = write_each-Notes w now targets p are in
    (
      ap (map (λ f. f.0)) a ∙ b,
      subst (Apart w now p targets (write_each w now targets p)) (sym a) c,
    )

-- ===== src/Routing/Targets.antt =====
-- Every target of a level is a sink of the writer.
use fapilog.Prelude.{
  ◌≡◌, refl, sym, Bool, true, Option, none, some, List, [], ◌∷◌, Text, text_eq, if◌then◌else◌, ◌||◌,
  Bool-cases, inl, inr, subst, All, All-append,
}
use fapilog.Prelude.Dict.{lookup, contains}
use fapilog.Routing.{SinkEntry, resolved, wildcards, has_star, Rule, normalize_plugin_name, routed}
use fapilog.Routing.Routes.{sinks_for, levels_for, join, wants, or_empty}

pub contains-lookup :
    (name : Text) (d : List (Text × SinkEntry))
    → contains name d ≡ true
    → (e : SinkEntry) × (lookup name d ≡ some e)
unfolding contains lookup
contains-lookup name [] h = cc
contains-lookup name ((k, e) ∷ d) h = elim (Bool-cases (text_eq k name)) [
  | inl b ↦ (e, rw b refl)
  | inr b ↦
      let (f, g) = contains-lookup name d (subst (λ x. (x || contains name d) ≡ true) b h) in
      (f, rw b g)
]

-- names in the dictionary
abbrev pub AreSinks : List (Text × SinkEntry) → List Text → Type 0
AreSinks entries names = All (λ n. (e : SinkEntry) × (lookup n entries ≡ some e)) names

pub resolved-AreSinks :
    (entries : List (Text × SinkEntry)) (names : List Text)
    → AreSinks entries (resolved entries names)
unfolding resolved
resolved-AreSinks entries [] = tt
resolved-AreSinks entries (name ∷ names) =
    let n = normalize_plugin_name name in
    elim (Bool-cases (contains n entries)) [
      | inl b ↦ rw b (contains-lookup n entries b, resolved-AreSinks entries names)
      | inr b ↦ rw b (resolved-AreSinks entries names)
    ]

pub wildcards-AreSinks :
    (entries : List (Text × SinkEntry)) (rules : List Rule)
    → AreSinks entries (wildcards entries rules)
unfolding wildcards
wildcards-AreSinks entries [] = tt
wildcards-AreSinks entries ((levels, names) ∷ rules) = elim (Bool-cases (has_star levels)) [
  | inl b ↦ rw b (
      All-append (λ n. (e : SinkEntry) × (lookup n entries ≡ some e)) (resolved entries names)
        (wildcards entries rules) (resolved-AreSinks entries names)
        (wildcards-AreSinks entries rules))
  | inr b ↦ rw b (wildcards-AreSinks entries rules)
]

abbrev pub OptionAreSinks : List (Text × SinkEntry) → Option (List Text) → Type 0
OptionAreSinks entries o = AreSinks entries (or_empty o)

pub levels_for-AreSinks :
    (entries : List (Text × SinkEntry)) (overlap : Bool) (j : Text) (levels sinks : List Text)
    (later : Option (List Text))
    → AreSinks entries sinks
    → OptionAreSinks entries later
    → OptionAreSinks entries (levels_for overlap j levels sinks later)
levels_for-AreSinks entries overlap j [] sinks later h k = k
levels_for-AreSinks entries overlap j (level ∷ levels) sinks later h k =
    let rest = levels_for overlap j levels sinks later in
    let rest-AreSinks = levels_for-AreSinks entries overlap j levels sinks later h k in
    elim (Bool-cases (wants j level)) [
      | inr b ↦
          subst (λ x. OptionAreSinks entries (if x then join overlap (some sinks) rest else rest))
            (sym b) rest-AreSinks
      | inl b ↦
          subst (λ x. OptionAreSinks entries (if x then join overlap (some sinks) rest else rest))
            (sym b)
            (elim (Bool-cases overlap) [
              | inr c ↦ subst (λ x. OptionAreSinks entries (join x (some sinks) rest)) (sym c) h
              | inl c ↦
                  subst (λ x. OptionAreSinks entries (join x (some sinks) rest)) (sym c)
                    (All-append (λ n. (e : SinkEntry) × (lookup n entries ≡ some e)) sinks
                      (or_empty rest) h rest-AreSinks)
            ])
    ]

pub sinks_for-AreSinks :
    (entries : List (Text × SinkEntry)) (overlap : Bool) (rules : List Rule) (j : Text)
    → OptionAreSinks entries (sinks_for overlap entries rules j)
sinks_for-AreSinks entries overlap [] j = tt
sinks_for-AreSinks entries overlap ((levels, names) ∷ rules) j =
    levels_for-AreSinks entries overlap j levels (resolved entries names)
      (sinks_for overlap entries rules j) (resolved-AreSinks entries names)
      (sinks_for-AreSinks entries overlap rules j)

pub routed-AreSinks :
    (entries : List (Text × SinkEntry)) (o : Option (List Text)) (fallback : List Text)
    → OptionAreSinks entries o
    → AreSinks entries fallback
    → AreSinks entries (routed o fallback)
routed-AreSinks entries none fallback h k = k
routed-AreSinks entries (some sinks) fallback h k = h

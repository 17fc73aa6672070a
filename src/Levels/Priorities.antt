-- ===== src/Levels/Priorities.antt =====
-- What registration keeps: the standard levels, the range of priorities, and the frozen registry.
use fapilog.Prelude.{
  ℕ, subst, All-map, ◌≤◌, ◌≡◌, refl, Bool, true, false, Option, none, some, List, [], ◌∷◌, ◌++◌,
  Text, text_eq, text_eq_sound, ap, ◌⊎◌, upper, upper_idem, leb, arith, if◌then◌else◌, All,
  All-append, Option-cases, inl, inr, Bool-cases,
}
use fapilog.Prelude.Int.{ℤ, pos, negsuc}
use fapilog.Levels.{
  Table, Registry, Result, ok, err, already_frozen, find, has_level, default_levels, register_level,
  get_level_priority, freeze_registry, reset_registry, custom_or_default, or_info,
}

pub data Op : Type 0 where
  register : Text → ℤ → Bool → Op
  freeze : Op

-- a registration that raises changes nothing
abbrev pub after : Registry → Result → Registry
after r (ok r') = r'
after r (err e) = r

pub step : Registry → Op → Registry
step r (register name priority add) = after r (register_level r name priority add)
step r freeze = freeze_registry r

pub run : Registry → List Op → Registry
run r [] = r
run r (op ∷ ops) = run (step r op) ops

find-absent : (name : Text) (t : Table) → has_level name t ≡ false → find name t ≡ none
unfolding find has_level
find-absent name [] h = refl
find-absent name ((n, p) ∷ t) h = ground (arith, find-absent name t)

find-snoc_ne :
    (name n : Text) (p : ℕ) (t : Table)
    → text_eq n name ≡ false
    → find name (t ++ (n, p) ∷ []) ≡ find name t
unfolding find
find-snoc_ne name n p [] h = ground arith
find-snoc_ne name n p ((m, q) ∷ t) h = ground (arith, find-snoc_ne name n p t h)

find-snoc_new :
    (name n : Text) (p : ℕ) (t : Table)
    → text_eq n name ≡ true
    → has_level name t ≡ false
    → find name (t ++ (n, p) ∷ []) ≡ some p
unfolding find has_level
find-snoc_new name n p [] h k = ground arith
find-snoc_new name n p ((m, q) ∷ t) h k = ground (arith, find-snoc_new name n p t h)

-- every custom level has a name of its own and a priority in range
abbrev pub IsSound : Text × ℕ → Type 0
IsSound (name, priority) = (has_level name default_levels ≡ false) × (priority ≤ 99)

-- the registry after a registration that does not raise
abbrev pub added : Registry → Text → ℕ → Bool → Registry
added r name p add = record r {
  custom_levels = r.custom_levels ++ (upper name, p) ∷ [];
  pending_methods = if add then r.pending_methods ++ upper name ∷ [] else r.pending_methods;
}

-- A registration raises, or adds a level of a new name and a priority from 0 to 99, before the
-- registry is frozen.
register-cases :
    (r : Registry) (name : Text) (priority : ℤ) (add : Bool)
    → (after r (register_level r name priority add) ≡ r)
      ⊎ ((p : ℕ) × (priority ≡ pos p)
          × (p ≤ 99)
          × (r.frozen ≡ false)
          × (has_level (upper name) default_levels ≡ false)
          × (has_level (upper name) r.custom_levels ≡ false)
          × (register_level r name priority add ≡ ok (added r name p add)))
unfolding register_level
register-cases r name (negsuc n) add = inl (ground arith)
register-cases r name (pos n) add = elim (Bool-cases (leb n 99)) [
  | inr far ↦ inl (ground arith)
  | inl near ↦ elim (Bool-cases r.frozen) [
    | inl frozen ↦ inl (ground arith)
    | inr thawed ↦ elim (Bool-cases (has_level (upper name) default_levels)) [
      | inl old ↦ inl (ground arith)
      | inr fresh ↦ elim (Bool-cases (has_level (upper name) r.custom_levels)) [
        | inl old ↦ inl (ground arith)
        | inr new ↦ inr (n, refl, ground arith, thawed, fresh, new, ground arith)
      ]
    ]
  ]
]

step-IsSound :
    (r : Registry) (op : Op) → All IsSound r.custom_levels → All IsSound (step r op).custom_levels
unfolding step freeze_registry
step-IsSound r freeze s = s
step-IsSound r (register name priority add) s = elim (register-cases r name priority add) [
  | inl same ↦ rw same s
  | inr (p, _, near, _, fresh, _, e) ↦
      rw e (All-append IsSound r.custom_levels ((upper name, p) ∷ []) s ((fresh, near), tt))
]

run-IsSound :
    (r : Registry) (ops : List Op)
    → All IsSound r.custom_levels
    → All IsSound (run r ops).custom_levels
unfolding run
run-IsSound r [] s = s
run-IsSound r (op ∷ ops) s = run-IsSound (step r op) ops (step-IsSound r op s)

find-IsSound :
    (name : Text) (t : Table)
    → All IsSound t
    → has_level name default_levels ≡ true
    → find name t ≡ none
unfolding find
find-IsSound name [] s h = refl
find-IsSound name ((n, p) ∷ t) s h = elim (Bool-cases (text_eq n name)) [
  | inl e ↦
      absurd (cc (s.0.0, h, ap (λ (m : Text). has_level m default_levels) (text_eq_sound n name e)))
  | inr e ↦ rw e (find-IsSound name t s.1 h)
]

find_priority-le :
    (name : Text) (t : Table) (p : ℕ) → All (λ l. l.1 ≤ 99) t → find name t ≡ some p → p ≤ 99
unfolding find
find_priority-le name [] p s e = cc
find_priority-le name ((n, q) ∷ t) p s e = ground (arith, s.0, find_priority-le name t p s.1)

or_info-le : (o : Option ℕ) → ((p : ℕ) → o ≡ some p → p ≤ 99) → or_info o ≤ 99
unfolding or_info
or_info-le none h = omega arith
or_info-le (some p) h = h p refl

priority-le : (name : Text) (t : Table) → All IsSound t → custom_or_default (find name t) name ≤ 99
unfolding custom_or_default
priority-le name t s = elim (Option-cases (find name t)) [
  | inl e ↦
      rw (e, custom_or_default)
        (or_info-le (find name default_levels)
          λ p. find_priority-le name default_levels p (omega arith))
  | inr (p, e) ↦
      rw (e, custom_or_default)
        (find_priority-le name t p (All-map IsSound (λ l. l.1 ≤ 99) t (λ l h. h.1) s) e)
]

-- No registration, whatever its name in whatever case, changes the priority of a standard level.
pub standard_priority :
    (ops : List Op) (name : Text)
    → has_level (upper name) default_levels ≡ true
    → get_level_priority (run reset_registry ops) name ≡ get_level_priority reset_registry name
unfolding get_level_priority reset_registry find
standard_priority ops name h =
    rw
      (find-IsSound (upper name) (run reset_registry ops).custom_levels
        (run-IsSound reset_registry ops tt) h)
      refl

-- Whatever has been registered, and of whatever level name, the priority is at most 99.
pub get_level_priority-le :
    (ops : List Op) (name : Text) → get_level_priority (run reset_registry ops) name ≤ 99
unfolding get_level_priority reset_registry
get_level_priority-le ops name =
    priority-le (upper name) (run reset_registry ops).custom_levels
      (run-IsSound reset_registry ops tt)

-- Once the registry is frozen no operation changes it, and each registration raises.
pub frozen_for_good :
    (r : Registry) (ops : List Op) (name : Text) (priority : ℤ) (add : Bool)
    → (run (freeze_registry r) ops ≡ freeze_registry r)
      × (register_level (freeze_registry r) name priority add ≡ err already_frozen)
unfolding run step register_level freeze_registry
frozen_for_good r [] name priority add = (refl, refl)
frozen_for_good r (register n p a ∷ ops) name priority add = frozen_for_good r ops name priority add
frozen_for_good r (freeze ∷ ops) name priority add = frozen_for_good r ops name priority add

register-ok :
    (r r' : Registry) (name : Text) (p : ℕ) (add : Bool)
    → register_level r name (pos p) add ≡ ok r'
    → (r' ≡ added r name p add)
      × (has_level (upper name) default_levels ≡ false)
      × (has_level (upper name) r.custom_levels ≡ false)
unfolding register_level
register-ok r r' name p add e = ground arith

-- A registration that succeeds gives the name, in any case, its priority and leaves that of every
-- other name alone.
pub register-priority :
    (r r' : Registry) (name other : Text) (priority : ℕ) (add : Bool)
    → register_level r name (pos priority) add ≡ ok r'
    → get_level_priority r' other
      ≡ (if text_eq (upper name) (upper other) then priority else get_level_priority r other)
unfolding get_level_priority
register-priority r r' name other priority add e =
    let done = register-ok r r' name priority add e in
    rw (done.0) (elim (Bool-cases (text_eq (upper name) (upper other))) [
      | inl hit ↦
          rw
            (
              hit,
              find-snoc_new (upper other) (upper name) priority r.custom_levels hit
                  (subst (λ n. has_level n r.custom_levels ≡ false) (text_eq_sound _ _ hit) done.2),
            )
            refl
      | inr miss ↦
          rw (miss, find-snoc_ne (upper other) (upper name) priority r.custom_levels miss) refl
    ])

-- a level name and its upper case have one priority
pub get_level_priority-upper :
    (r : Registry) (level : Text) → get_level_priority r (upper level) ≡ get_level_priority r level
unfolding get_level_priority
get_level_priority-upper r level = rw (upper_idem level) refl

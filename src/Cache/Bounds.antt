-- ===== src/Cache/Bounds.antt =====
-- Size and keys of the cache under any operations, and what a read finds.
use fapilog.Prelude.{
  ℕ, ◌≤◌, ◌<◌, ◌≡◌, refl, ◌∙◌, true, false, ◌||◌, Option, some, List, [], ◌∷◌, Text, text_eq,
  text_eq_refl, sym, length, leb, ltb, arith, Bool-cases, Option-cases, inl, inr, subst,
}
use fapilog.Prelude.Dict.{
  lookup, contains, pop_first, put_last, HasUniqueKeys, put_last-HasUniqueKeys, length-put_last,
  lookup-put_last, lookup-contains,
}
use fapilog.Cache.{Cache, init, get, set, hit, make_room, clear}

pub data Op {ℓ} (V : Type ℓ) : Type ℓ where
  reads : Text → Op V
  writes : Text → V → Op V
  clears : Op V

module _ {ℓ} {V : Type ℓ} where
  pub record IsValid (c : Cache V) : Type ℓ where
    pub unique : HasUniqueKeys c.entries
    pub bounded : length c.entries ≤ c.capacity
    pub positive : 0 < c.capacity

  -- entries with no key twice and a place left for the key
  abbrev pub IsRoomy : Cache V → Text → List (Text × V) → Type 0
  IsRoomy c key d =
      HasUniqueKeys d × (length d ≤ c.capacity) × (contains key d ≡ false → length d < c.capacity)

  evicted :
      (c : Cache V) (key : Text) (d : List (Text × V))
      → c.entries ≡ d
      → IsValid c
      → IsRoomy c key (pop_first d)
  unfolding pop_first
  evicted c key [] e v = (tt, omega arith, λ _. v.positive)
  evicted c key (b ∷ d) e v =
      let u = subst HasUniqueKeys e v.unique in (u.1, ground (arith, v), λ _. ground (arith, v))

  pub make_room-IsRoomy : (c : Cache V) (key : Text) → IsValid c → IsRoomy c key (make_room c key)
  unfolding make_room
  make_room-IsRoomy c key v = elim (Bool-cases (contains key c.entries)) [
    | inl old ↦ rw (old, make_room) (v.unique, v.bounded, λ absent. cc)
    | inr new ↦ elim (Bool-cases (leb c.capacity (length c.entries))) [
      | inl full ↦ rw (new, full, make_room) (evicted c key c.entries refl v)
      | inr free ↦ rw (new, free, make_room) (v.unique, v.bounded, λ absent. ground arith)
    ]
  ]

  put_last-IsValid :
      (c : Cache V) (key : Text) (x : V) (d : List (Text × V))
      → 0 < c.capacity
      → IsRoomy c key d
      → IsValid (record c { entries = put_last key x d })
  put_last-IsValid c key x d pos room = record {
    unique = put_last-HasUniqueKeys key x d room.0;
    bounded = elim (Bool-cases (contains key d)) [
      | inl old ↦ ground (arith, length-put_last key x d, room.1, old)
      | inr new ↦ ground (arith, length-put_last key x d, room.2 new, new)
    ];
    positive = pos;
  }

  pub set-IsValid : (c : Cache V) (key : Text) (x : V) → IsValid c → IsValid (set c key x)
  unfolding set
  set-IsValid c key x v =
      put_last-IsValid c key x (make_room c key) v.positive (make_room-IsRoomy c key v)

  pub get-IsValid : (c : Cache V) (key : Text) → IsValid c → IsValid (get c key).0
  unfolding get
  get-IsValid c key v = elim (Option-cases (lookup key c.entries)) [
    | inl e ↦ rw (e, hit) v
    | inr (x, e) ↦
        rw (e, hit)
          (put_last-IsValid c key x c.entries v.positive (
            v.unique,
            v.bounded,
            λ absent. absurd (cc (absent, lookup-contains key x c.entries e)),
          ))
  ]

  unfoldable pub step : Cache V → Op V → Cache V
  step c (reads key) = (get c key).0
  step c (writes key x) = set c key x
  step c clears = clear c

  unfoldable pub run : Cache V → List (Op V) → Cache V
  run c [] = c
  run c (op ∷ ops) = run (step c op) ops

  step-IsValid : (c : Cache V) (op : Op V) → IsValid c → IsValid (step c op)
  unfolding step clear
  step-IsValid c (reads key) v = get-IsValid c key v
  step-IsValid c (writes key x) v = set-IsValid c key x v
  step-IsValid c clears v = record { unique = tt; bounded = omega arith; positive = v.positive }

  run-IsValid : (c : Cache V) (ops : List (Op V)) → IsValid c → IsValid (run c ops)
  unfolding run
  run-IsValid c [] v = v
  run-IsValid c (op ∷ ops) v = run-IsValid (step c op) ops (step-IsValid c op v)

  -- Under any operations a new cache never holds more entries than its capacity, nor a key twice.
  pub run-init-IsValid :
      (capacity : ℕ) (loop : Option ℕ) (c : Cache V) (ops : List (Op V))
      → init capacity loop ≡ some c
      → IsValid (run c ops)
  unfolding init
  run-init-IsValid capacity loop c ops e = run-IsValid c ops (ground arith)

  pub reads-lookup : (c : Cache V) (key : Text) → (get c key).1 ≡ lookup key c.entries
  unfolding get
  reads-lookup c key = elim (Option-cases (lookup key c.entries)) [
    | inl e ↦ rw (e, hit) refl
    | inr (x, e) ↦ rw (e, hit) refl
  ]

  -- A key that has been set is found with its value, whatever had to be evicted for it.
  pub get-set_self :
      (c : Cache V) (key : Text) (x : V) → IsValid c → (get (set c key x) key).1 ≡ some x
  unfolding get set hit
  get-set_self c key x v =
      rw
        (
          lookup-put_last key key x (make_room c key) (make_room-IsRoomy c key v).0,
          text_eq_refl key,
        )
        refl

  -- A set of a key that is cached, or of any key while the cache is not full, leaves what a read of
  -- another key returns.
  pub get-set_ne :
      (c : Cache V) (key other : Text) (x : V)
      → IsValid c
      → text_eq key other ≡ false
      → (contains key c.entries || ltb (length c.entries) c.capacity) ≡ true
      → (get (set c key x) other).1 ≡ (get c other).1
  unfolding set make_room
  get-set_ne c key other x v miss room =
      reads-lookup (set c key x) other
      ∙ rw (keeps) (rw (lookup-put_last key other x c.entries v.unique, miss) refl)
      ∙ sym (reads-lookup c other)
    where
      keeps : make_room c key ≡ c.entries
      keeps = ground arith

-- ===== src/Cache/Recency.antt =====
-- Eviction takes the least recently used entry: a key that was just used stays for a while.
use fapilog.Prelude.{
  ℕ, ◌+◌, ◌≤◌, ◌<◌, ◌≡◌, refl, ◌∙◌, false, some, List, [], ◌∷◌, ◌++◌, Text, text_eq, text_eq_iff,
  text_eq_refl, text_eq_sound, sym, ap, All, length, length-append, arith, if◌then◌else◌,
  Bool-cases, Option-cases, inl, inr, subst,
}
use fapilog.Prelude.Dict.{
  lookup, contains, remove, pop_first, put_last, HasUniqueKeys, lookup-put_last, length-remove-le,
  contains-remove_self,
}
use fapilog.Cache.{Cache, clear, get, set, hit, make_room}
use fapilog.Cache.Bounds.{
  reads-lookup, make_room-IsRoomy, IsValid, Op, reads, writes, clears, step, run, set-IsValid,
  get-IsValid,
}

module _ {ℓ} {V : Type ℓ} where
  -- how many entries have been used since the entry of the key
  pub behind : Text → List (Text × V) → ℕ
  behind key [] = 0
  behind key ((k, x) ∷ d) = if text_eq k key then length d else behind key d

  behind-le-length : (key : Text) (d : List (Text × V)) → behind key d ≤ length d
  unfolding behind
  behind-le-length key [] = omega arith
  behind-le-length key ((k, x) ∷ d) = ground (arith, behind-le-length key d)

  behind-remove-le :
      (key other : Text) (d : List (Text × V))
      → text_eq other key ≡ false
      → behind key (remove other d) ≤ behind key d
  unfolding behind remove
  behind-remove-le key other [] h = omega arith
  behind-remove-le key other ((k, x) ∷ d) h = ground (
    arith,
    text_eq_iff k other,
    text_eq_iff k key,
    text_eq_iff other key,
    behind-remove-le key other d h,
    length-remove-le other d,
  )

  behind-snoc :
      (key other : Text) (x : V) (d : List (Text × V))
      → behind key (d ++ (other, x) ∷ []) ≤ behind key d + 1
  unfolding behind
  behind-snoc key other x [] = ground arith
  behind-snoc key other x ((k, y) ∷ d) =
      ground (arith, behind-snoc key other x d, length-append d ((other, x) ∷ []))

  behind-put_last :
      (key other : Text) (x : V) (d : List (Text × V))
      → text_eq other key ≡ false
      → behind key (put_last other x d) ≤ behind key d + 1
  unfolding put_last
  behind-put_last key other x d h =
      omega (arith, behind-snoc key other x (remove other d), behind-remove-le key other d h)

  -- the oldest entry goes only if it is not that of the key
  pop_first-keeps :
      (key : Text) (x : V) (d : List (Text × V))
      → lookup key d ≡ some x
      → behind key d + 1 < length d
      → (lookup key (pop_first d) ≡ some x) × (behind key (pop_first d) ≡ behind key d)
  unfolding lookup pop_first behind
  pop_first-keeps key x [] e h = absurd (omega arith)
  pop_first-keeps key x ((k, y) ∷ d) e h = ground arith

  -- the key is cached with the value, and at most `n` entries have been used since
  pub record IsRecent (key : Text) (x : V) (n : ℕ) (c : Cache V) : Type ℓ where
    pub valid : IsValid c
    pub found : lookup key c.entries ≡ some x
    pub since : behind key c.entries ≤ n

  put_last-IsRecent :
      (key other : Text) (x y : V) (d : List (Text × V)) (n : ℕ)
      → HasUniqueKeys d
      → text_eq other key ≡ false
      → lookup key d ≡ some x
      → behind key d ≤ n
      → (lookup key (put_last other y d) ≡ some x) × (behind key (put_last other y d) ≤ n + 1)
  put_last-IsRecent key other x y d n u miss e h = (
    rw (lookup-put_last other key y d u, miss) e,
    omega (arith, behind-put_last key other y d miss),
  )

  behind-snoc_self :
      (key : Text) (x : V) (d : List (Text × V))
      → contains key d ≡ false
      → behind key (d ++ (key, x) ∷ []) ≡ 0
  unfolding behind contains
  behind-snoc_self key x [] h = ground (arith, text_eq_iff key key)
  behind-snoc_self key x ((k, y) ∷ d) h = ground (arith, behind-snoc_self key x d)

  behind-put_last_self :
      (key : Text) (x : V) (d : List (Text × V))
      → HasUniqueKeys d
      → behind key (put_last key x d) ≡ 0
  unfolding put_last
  behind-put_last_self key x d u =
      behind-snoc_self key x (remove key d) (contains-remove_self key d u)

  -- A key that has just been set is the most recent one.
  set-IsRecent : (c : Cache V) (key : Text) (x : V) → IsValid c → IsRecent key x 0 (set c key x)
  unfolding set
  set-IsRecent c key x v =
      let u = make_room-IsRoomy c key v in
      record {
        valid = unfold set in set-IsValid c key x v;
        found = rw (lookup-put_last key key x (make_room c key) u.0, text_eq_refl key) refl;
        since = omega (arith, behind-put_last_self key x (make_room c key) u.0);
      }

  -- the operation neither sets the key nor clears the cache
  abbrev pub Spares : Text → Op V → Type 0
  Spares key (reads other) = Unit
  Spares key (writes other y) = text_eq other key ≡ false
  Spares key clears = ⊥

  set-keeps :
      (c : Cache V) (key other : Text) (x y : V) (n : ℕ)
      → n + 1 < c.capacity
      → text_eq other key ≡ false
      → IsRecent key x n c
      → IsRecent key x (n + 1) (set c other y)
  unfolding set
  set-keeps c key other x y n h miss r =
      let room = make_room-IsRoomy c other r.valid in
      let kept = make_room-keeps in
      let put = put_last-IsRecent key other x y (make_room c other) n room.0 miss kept.0 kept.1 in
      record { valid = unfold set in set-IsValid c other y r.valid; found = put.0; since = put.1 }
    where
      make_room-keeps :
          (lookup key (make_room c other) ≡ some x) × (behind key (make_room c other) ≤ n)
      make_room-keeps = ground (arith, r.found, r.since, pop_first-keeps key x c.entries r.found)

  capacity-step : (c : Cache V) (op : Op V) → (step c op).capacity ≡ c.capacity
  unfolding step get set clear
  capacity-step c (reads other) = ground arith
  capacity-step c (writes other y) = refl
  capacity-step c clears = refl

  -- a read of an entry moves it to the end
  moved-keeps :
      (key other : Text) (x y : V) (d : List (Text × V)) (n : ℕ)
      → HasUniqueKeys d
      → lookup key d ≡ some x
      → lookup other d ≡ some y
      → behind key d ≤ n
      → (lookup key (put_last other y d) ≡ some x) × (behind key (put_last other y d) ≤ n + 1)
  moved-keeps key other x y d n u e f h = elim (Bool-cases (text_eq other key)) [
    | inr miss ↦ put_last-IsRecent key other x y d n u miss e h
    | inl same ↦
        let one : other ≡ key = text_eq_sound other key same in
        (
          rw (lookup-put_last other key y d u, same) (sym f ∙ ap (λ k. lookup k d) one ∙ e),
          subst (λ k. behind k (put_last other y d) ≤ n + 1) one
              (omega (arith, behind-put_last_self other y d u)),
        )
  ]

  get-keeps :
      (c : Cache V) (key other : Text) (x : V) (n : ℕ)
      → IsRecent key x n c
      → IsRecent key x (n + 1) (get c other).0
  unfolding get
  get-keeps c key other x n r = elim (Option-cases (lookup other c.entries)) [
    | inl e ↦
        rw (e, hit) (record { valid = r.valid; found = r.found; since = omega (arith, r.since) })
    | inr (y, e) ↦
        let kept = moved-keeps key other x y c.entries n r.valid.unique r.found e r.since in
        record {
          valid = get-IsValid c other r.valid;
          found = rw (e, hit) kept.0;
          since = rw (e, hit) kept.1;
        }
  ]

  step-keeps :
      (c : Cache V) (key : Text) (x : V) (n : ℕ) (op : Op V)
      → n + 1 < c.capacity
      → Spares key op
      → IsRecent key x n c
      → IsRecent key x (n + 1) (step c op)
  unfolding step
  step-keeps c key x n (reads other) h spared r = get-keeps c key other x n r
  step-keeps c key x n (writes other y) h spared r = set-keeps c key other x y n h spared r
  step-keeps c key x n clears h spared r = absurd spared

  run-keeps :
      (c : Cache V) (key : Text) (x : V) (n : ℕ) (ops : List (Op V))
      → n + length ops < c.capacity
      → All (Spares key) ops
      → IsRecent key x n c
      → lookup key (run c ops).entries ≡ some x
  unfolding run
  run-keeps c key x n [] h spared r = r.found
  run-keeps c key x n (op ∷ ops) h spared r =
      run-keeps (step c op) key x (n + 1) ops (rw (capacity-step c op) (omega arith)) spared.1
        (step-keeps c key x n op (omega arith) spared.0 r)

  -- A key that has been set is still found, with its value, after any operations fewer than the
  -- capacity that neither set it again nor clear the cache: eviction takes older entries first.
  pub survives :
      (c : Cache V) (key : Text) (x : V) (ops : List (Op V))
      → IsValid c
      → length ops < c.capacity
      → All (Spares key) ops
      → (get (run (set c key x) ops) key).1 ≡ some x
  survives c key x ops v h spared =
      reads-lookup (run (set c key x) ops) key
      ∙ run-keeps (set c key x) key x 0 ops (unfold set in omega arith) spared
          (set-IsRecent c key x v)

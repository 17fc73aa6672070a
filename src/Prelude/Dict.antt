-- ===== src/Prelude/Dict.antt =====
-- Dictionaries with texts for keys, in insertion order: `dict`, and `OrderedDict` with its moves.
use Prim.Native.Nat.{◌+◌, ◌≤◌}
use mathlib.Core.Path.{◌≡◌, refl}
use mathlib.Core.Bool.{Bool, true, false, ◌||◌}
use mathlib.Core.Option.{Option, none, some}
use mathlib.Core.List.{List, [], ◌∷◌, ◌++◌}
use native.Mathlib.Omega.{arith}
use fapilog.Prelude.Tests.{if◌then◌else◌}
use fapilog.Prelude.Lists.{length, length-append}
use fapilog.Prelude.Strings.{Text, text_eq, text_eq_iff}

module _ {ℓ} {V : Type ℓ} where
  -- `d.get(k)`
  unfoldable pub lookup : Text → List (Text × V) → Option V
  lookup k [] = none
  lookup k ((j, v) ∷ d) = if text_eq j k then some v else lookup k d

  -- `k in d`
  unfoldable pub contains : Text → List (Text × V) → Bool
  contains k [] = false
  contains k ((j, v) ∷ d) = text_eq j k || contains k d

  -- `d[k] = v`: an old key keeps its place
  unfoldable pub insert : Text → V → List (Text × V) → List (Text × V)
  insert k v [] = (k, v) ∷ []
  insert k v ((j, w) ∷ d) = if text_eq j k then (j, v) ∷ d else (j, w) ∷ insert k v d

  -- `d.pop(k, None)`
  unfoldable pub remove : Text → List (Text × V) → List (Text × V)
  remove k [] = []
  remove k ((j, w) ∷ d) = let rest = remove k d in if text_eq j k then d else (j, w) ∷ rest

  -- `d.popitem(last=False)`, of a dictionary that is not empty
  unfoldable pub pop_first : List (Text × V) → List (Text × V)
  pop_first [] = []
  pop_first (e ∷ d) = d

  -- `d[k] = v; d.move_to_end(k)`
  unfoldable pub put_last : Text → V → List (Text × V) → List (Text × V)
  unfolding remove
  put_last k v d = remove k d ++ (k, v) ∷ []

  -- no key twice
  abbrev pub HasUniqueKeys : List (Text × V) → Type 0
  HasUniqueKeys [] = Unit
  HasUniqueKeys ((k, v) ∷ d) = (contains k d ≡ false) × HasUniqueKeys d

  pub lookup-insert :
      (k j : Text) (v : V) (d : List (Text × V))
      → lookup j (insert k v d) ≡ (if text_eq k j then some v else lookup j d)
  unfolding lookup insert
  lookup-insert k j v [] = refl
  lookup-insert k j v ((i, w) ∷ d) =
      ground (arith, text_eq_iff i k, text_eq_iff i j, text_eq_iff k j, lookup-insert k j v d)

  pub lookup-snoc :
      (k j : Text) (v : V) (d : List (Text × V))
      → lookup j (d ++ (k, v) ∷ [])
        ≡ (elim (lookup j d) [ some w ↦ some w | none ↦ if text_eq k j then some v else none ])
  unfolding lookup
  lookup-snoc k j v [] = refl
  lookup-snoc k j v ((i, w) ∷ d) = ground (arith, lookup-snoc k j v d)

  pub lookup-absent : (k : Text) (d : List (Text × V)) → contains k d ≡ false → lookup k d ≡ none
  unfolding lookup contains
  lookup-absent k [] h = refl
  lookup-absent k ((j, w) ∷ d) h = ground (arith, lookup-absent k d)

  pub contains-remove_ne :
      (k j : Text) (d : List (Text × V)) → contains j d ≡ false → contains j (remove k d) ≡ false
  unfolding contains remove
  contains-remove_ne k j [] h = h
  contains-remove_ne k j ((i, w) ∷ d) h = ground (arith, contains-remove_ne k j d)

  pub contains-remove_self :
      (k : Text) (d : List (Text × V)) → HasUniqueKeys d → contains k (remove k d) ≡ false
  unfolding contains remove
  contains-remove_self k [] u = refl
  contains-remove_self k ((j, w) ∷ d) u =
      ground (arith, text_eq_iff j k, u.0, contains-remove_self k d u.1)

  pub lookup-remove :
      (k j : Text) (d : List (Text × V))
      → HasUniqueKeys d
      → lookup j (remove k d) ≡ (if text_eq k j then none else lookup j d)
  unfolding lookup remove
  lookup-remove k j [] u = ground arith
  lookup-remove k j ((i, w) ∷ d) u = ground (
    arith,
    text_eq_iff i k,
    text_eq_iff i j,
    text_eq_iff k j,
    lookup-absent i d u.0,
    lookup-remove k j d u.1,
  )

  pub remove-HasUniqueKeys :
      (k : Text) (d : List (Text × V)) → HasUniqueKeys d → HasUniqueKeys (remove k d)
  unfolding remove
  remove-HasUniqueKeys k [] u = u
  remove-HasUniqueKeys k ((j, w) ∷ d) u =
      ground (arith, u.1, contains-remove_ne k j d u.0, remove-HasUniqueKeys k d u.1)

  contains-snoc :
      (k j : Text) (v : V) (d : List (Text × V))
      → contains j d ≡ false
      → text_eq k j ≡ false
      → contains j (d ++ (k, v) ∷ []) ≡ false
  unfolding contains
  contains-snoc k j v [] h e = ground arith
  contains-snoc k j v ((i, w) ∷ d) h e = ground (arith, contains-snoc k j v d)

  pub snoc-HasUniqueKeys :
      (k : Text) (v : V) (d : List (Text × V))
      → contains k d ≡ false
      → HasUniqueKeys d
      → HasUniqueKeys (d ++ (k, v) ∷ [])
  unfolding contains
  snoc-HasUniqueKeys k v [] h u = (refl, tt)
  snoc-HasUniqueKeys k v ((j, w) ∷ d) h u = (
    contains-snoc k j v d u.0 (ground (arith, text_eq_iff j k, text_eq_iff k j)),
    snoc-HasUniqueKeys k v d (ground arith) u.1,
  )

  pub put_last-HasUniqueKeys :
      (k : Text) (v : V) (d : List (Text × V)) → HasUniqueKeys d → HasUniqueKeys (put_last k v d)
  unfolding put_last
  put_last-HasUniqueKeys k v d u =
      snoc-HasUniqueKeys k v (remove k d) (contains-remove_self k d u) (remove-HasUniqueKeys k d u)

  pub lookup-put_last :
      (k j : Text) (v : V) (d : List (Text × V))
      → HasUniqueKeys d
      → lookup j (put_last k v d) ≡ (if text_eq k j then some v else lookup j d)
  unfolding put_last
  lookup-put_last k j v d u = ground (arith, lookup-snoc k j v (remove k d), lookup-remove k j d u)

  length-remove :
      (k : Text) (d : List (Text × V))
      → length (remove k d) + (if contains k d then 1 else 0) ≡ length d
  unfolding remove contains
  length-remove k [] = refl
  length-remove k ((j, w) ∷ d) = ground (arith, length-remove k d)

  pub length-put_last :
      (k : Text) (v : V) (d : List (Text × V))
      → length (put_last k v d) ≡ (if contains k d then length d else length d + 1)
  unfolding put_last
  length-put_last k v d =
      ground (arith, length-append (remove k d) ((k, v) ∷ []), length-remove k d)

  pub lookup-contains :
      (k : Text) (v : V) (d : List (Text × V)) → lookup k d ≡ some v → contains k d ≡ true
  unfolding lookup contains
  lookup-contains k v [] h = cc
  lookup-contains k v ((j, w) ∷ d) h = ground (arith, lookup-contains k v d)

  pub length-remove-le : (k : Text) (d : List (Text × V)) → length (remove k d) ≤ length d
  length-remove-le k d = ground (arith, length-remove k d)

-- ===== src/Prelude/Value.antt =====
-- Values of the source language as log events hold them, and dictionaries in insertion order.
use Prim.Native.Nat.{ℕ}
use mathlib.Core.Path.{◌≡◌}
use mathlib.Core.Bool.{Bool, true, false, not, ◌||◌}
use mathlib.Core.List.{[], ◌∷◌}
use mathlib.Core.Option.{Option, none, some}
use native.Mathlib.Omega.{arith}
use fapilog.Prelude.Tests.{if◌then◌else◌, ◌==◌}
use fapilog.Prelude.Strings.{Text, text_eq, text_eq_iff}

-- `num` stands for every number, `null` for None; the values of a dict are a chain of fields.
mutual
  pub data Value : Type 0 where
    null : Value
    bool : Bool → Value
    num : ℕ → Value
    str : Text → Value
    list : Items → Value
    dict : Fields → Value

  pub data Items : Type 0 where
    nil : Items
    cons : Value → Items → Items

  pub data Fields : Type 0 where
    end : Fields
    field : Text → Value → Fields → Fields

-- `d.get(k)`
unfoldable pub get : Text → Fields → Option Value
get k end = none
get k (field j v d) = if text_eq j k then some v else get k d

-- `d[k] = v`: an old key keeps its place
unfoldable pub put : Text → Value → Fields → Fields
put k v end = field k v end
put k v (field j w d) = if text_eq j k then field j v d else field j w (put k v d)

pub get-put_self : (k : Text) (v : Value) (d : Fields) → get k (put k v d) ≡ some v
unfolding get put
get-put_self k v end = ground (arith, text_eq_iff k k)
get-put_self k v (field j w d) = ground (arith, get-put_self k v d, text_eq_iff j k)

-- `del d[k]`, for a key that is there
unfoldable pub delete : Text → Fields → Fields
delete k end = end
delete k (field j w d) = let rest = delete k d in if text_eq j k then d else field j w rest

-- the truth value of a value
unfoldable pub truthy : Value → Bool
truthy null = false
truthy (bool b) = b
truthy (num n) = not (n == 0)
truthy (str []) = false
truthy (str (c ∷ s)) = true
truthy (list nil) = false
truthy (list (cons v vs)) = true
truthy (dict end) = false
truthy (dict (field k v d)) = true

-- `d.get(k)` as a truth value, where a missing key is None
unfoldable pub get_truthy : Text → Fields → Bool
get_truthy k end = false
get_truthy k (field j v d) = if text_eq j k then truthy v else get_truthy k d

-- `k in d`
unfoldable pub has : Text → Fields → Bool
has k end = false
has k (field j v d) = text_eq j k || has k d

pub get_truthy-put-true : (k : Text) (d : Fields) → get_truthy k (put k (bool true) d) ≡ true
unfolding get_truthy put truthy
get_truthy-put-true k end = ground (arith, text_eq_iff k k)
get_truthy-put-true k (field j w d) = ground (arith, get_truthy-put-true k d, text_eq_iff j k)

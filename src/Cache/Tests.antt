-- ===== src/Cache/Tests.antt =====
-- Runs of the cache.
use fapilog.Prelude.{ℕ, ◌≡◌, refl, some, none, [], ◌∷◌, Text, codes, arith}
use fapilog.Prelude.Dict.{contains}
use fapilog.Cache.{Cache, get, set}
use fapilog.Cache.Bounds.{writes, run, IsValid, get-set_self, get-set_ne}
use fapilog.Cache.Recency.{survives}

abbrev empty : Cache ℕ
empty = record { capacity = 2; entries = []; bound_loop = none }

abbrev empty-IsValid : IsValid empty
empty-IsValid = record { unique = tt; bounded = omega arith; positive = omega arith }

abbrev a : Text
a = codes "a"

abbrev b : Text
b = codes "b"

get-set_self_example : (get (set empty a 1) a).1 ≡ some 1
get-set_self_example = get-set_self empty a 1 empty-IsValid

get-set_ne_example : (get (set empty a 1) b).1 ≡ (get empty b).1
unfolding contains
get-set_ne_example = get-set_ne empty a b 1 empty-IsValid refl refl

survives_example : (get (run (set empty a 1) (writes b 2 ∷ [])) a).1 ≡ some 1
survives_example = survives empty a 1 (writes b 2 ∷ []) empty-IsValid (omega arith) (refl, tt)

-- ===== src/Cache.antt =====
-- caching/cache.py, HighPerformanceLRUCache. The OrderedDict has the least recently used entry
-- first. Keys are texts, so the tests for a key of another type have no counterpart. `bound_loop`
-- and `current` are identities of event loops.
pub mod Bounds
pub mod Recency
mod Tests
use fapilog.Prelude.{
  ℕ, Bool, true, false, not, ◌&&◌, Option, none, some, List, [], ◌∷◌, Text, map, length, leb, ◌==◌,
  if◌then◌else◌,
}
use fapilog.Prelude.Dict.{lookup, contains, pop_first, put_last}

pub record Cache {ℓ} (V : Type ℓ) : Type ℓ where
  pub capacity : ℕ
  pub entries : List (Text × V)
  pub bound_loop : Option ℕ

pub data Error : Type 0 where
  miss wrong_loop key_error : Error

pub data Result {ℓ} (A : Type ℓ) : Type ℓ where
  ok : A → Result A
  err : Error → Result A

loops_match : Option ℕ → Option ℕ → Bool
loops_match none current = true
loops_match (some loop) none = true
loops_match (some loop) (some current) = loop == current

module _ {ℓ} {V : Type ℓ} where
  -- `none` is the ValueError of a capacity that is not positive
  unfoldable pub init : ℕ → Option ℕ → Option (Cache V)
  init capacity loop =
      if leb capacity 0
      then none
      else some (record { capacity = capacity; entries = []; bound_loop = loop })

  hit : Cache V → Text → Option V → Cache V × Option V
  hit c key none = (c, none)
  hit c key (some v) = (record c { entries = put_last key v c.entries }, some v)

  -- a hit moves the entry to the end
  unfoldable pub get : Cache V → Text → Cache V × Option V
  unfolding hit
  get c key = hit c key (lookup key c.entries)

  unfoldable pub make_room : Cache V → Text → List (Text × V)
  make_room c key =
      if not (contains key c.entries) && leb c.capacity (length c.entries)
      then pop_first c.entries
      else c.entries

  unfoldable pub set : Cache V → Text → V → Cache V
  unfolding make_room
  set c key v = record c { entries = put_last key v (make_room c key) }

  -- `_validate_event_loop`: a bound cache may not be used from another running loop
  unfoldable pub valid_loop : Cache V → Option ℕ → Bool
  unfolding loops_match
  valid_loop c current = loops_match c.bound_loop current

  or_miss : Cache V × Option V → Cache V × Result V
  or_miss (c, none) = (c, err miss)
  or_miss (c, some v) = (c, ok v)

  unfoldable pub aget : Cache V → Option ℕ → Text → Cache V × Result V
  unfolding valid_loop or_miss
  aget c current key = if valid_loop c current then or_miss (get c key) else (c, err wrong_loop)

  unfoldable pub aset : Cache V → Option ℕ → Text → V → Cache V × Result (Unit {0})
  unfolding valid_loop
  aset c current key v = if valid_loop c current then (set c key v, ok tt) else (c, err wrong_loop)

  key_checked : Cache V × Option V → Cache V × Result V
  key_checked (c, none) = (c, err key_error)
  key_checked (c, some v) = (c, ok v)

  -- `cache[key]`
  unfoldable pub get_item : Cache V → Text → Cache V × Result V
  unfolding key_checked
  get_item c key = key_checked (get c key)

  unfoldable pub clear : Cache V → Cache V
  clear c = record c { entries = [] }

  unfoldable pub aclear : Cache V → Option ℕ → Cache V × Result (Unit {0})
  unfolding valid_loop clear
  aclear c current = if valid_loop c current then (clear c, ok tt) else (c, err wrong_loop)

  unfoldable pub rebind : Cache V → ℕ → Cache V
  rebind c loop = record c { bound_loop = some loop }

  unfoldable pub cleanup : Cache V → Cache V
  cleanup c = record c { entries = []; bound_loop = none }

  unfoldable pub keys : Cache V → List Text
  keys c = map (λ e. e.0) c.entries

  unfoldable pub is_full : Cache V → Bool
  is_full c = leb c.capacity (length c.entries)

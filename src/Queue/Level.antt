-- ===== src/Queue/Level.antt =====
-- core/concurrency.py, `_is_protected` of PriorityAwareQueue and of DualQueue.
use fapilog.Prelude.{Bool, false, Option, none, some, List, [], ◌∷◌, Text, codes, upper, text_in}
use fapilog.Prelude.Value.{Value, dict, str, get}

abbrev pub level_key : Text
level_key = codes "level"

abbrev pub info : Text
info = codes "INFO"

-- the level of the event, `item.get("level", "INFO")`, if it is a text
level_protected : List Text → Option Value → Bool
level_protected levels none = text_in (upper info) levels
level_protected levels (some (str level)) = text_in (upper level) levels
level_protected levels (some _) = false

item_protected : List Text → Value → Bool
unfolding level_protected
item_protected levels (dict d) = level_protected levels (get level_key d)
item_protected levels _ = false

unfoldable pub is_protected : List Text → Value → Bool
unfolding item_protected get
is_protected [] item = false
is_protected (l ∷ levels) item = item_protected (l ∷ levels) item

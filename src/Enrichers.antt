-- ===== src/Enrichers.antt =====
-- plugins/enrichers/__init__.py, enrich_parallel and _deep_merge. Every enricher sees the event as
-- it was; their results are merged in the enrichers' order, whatever order they end in.
use fapilog.Prelude.{Option, none, some, List, [], ◌∷◌, map}
use fapilog.Prelude.Value.{Value, dict, Fields, end, field, get, put}

-- `none` for an exception
abbrev pub Enricher : Type 0
Enricher = Fields → Option Value

unfoldable mutual
  -- `_deep_merge(base, updates)`, by recursion on the updates
  pub deep_merge : Fields → Fields → Fields
  deep_merge base end = base
  deep_merge base (field k v rest) = deep_merge (put k (merged (get k base) v) base) rest

  -- two dicts are merged, anything else is overwritten
  pub merged : Option Value → Value → Value
  merged (some (dict old)) (dict new) = dict (deep_merge old new)
  merged _ v = v

-- A failed enricher is passed over; a result that is no dict is an AttributeError (`none`).
merge_results : Fields → List (Option Value) → Option Fields
merge_results event [] = some event
merge_results event (none ∷ results) = merge_results event results
merge_results event (some (dict result) ∷ results) = merge_results (deep_merge event result) results
merge_results event (some _ ∷ results) = none

unfoldable pub enrich_parallel : List Enricher → Fields → Option Fields
unfolding merge_results
enrich_parallel enrichers event = merge_results event (map (λ e. e event) enrichers)

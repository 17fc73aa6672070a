-- ===== src/Redactors/FieldBlocker.antt =====
-- plugins/redactors/field_blocker.py, FieldBlockerRedactor. The event is a tree of its own (the
-- chain hands each redactor a deep copy), so the writes in place give a new tree.
pub mod Blocked
pub mod Dropped
mod Tests
use fapilog.Prelude.{
  ℕ, ◌+◌, Bool, true, false, not, ◌&&◌, Option, none, some, List, [], ◌∷◌, Text, lower, text_in,
  min, ltb, if◌then◌else◌,
}
use fapilog.Prelude.Value.{
  Value, null, bool, num, str, list, dict, Items, nil, cons, Fields, end, field,
}

pub record FieldBlocker : Type 0 where
  pub effective_blocklist : List Text
  pub replacement : Text
  pub max_depth : ℕ
  pub max_scanned : ℕ
  pub on_drop : Bool

-- what one walk counts
pub record Scan : Type 0 where
  pub scanned : ℕ
  pub guardrail_hit : Bool
  pub policy_violations : ℕ

-- the lower-cased blocked fields without the allowed ones
effective : List Text → List Text → List Text
effective [] allowed = []
effective (f ∷ blocked) allowed =
    let rest = effective blocked allowed in
    if text_in (lower f) allowed then rest else lower f ∷ rest

lower_all : List Text → List Text
lower_all [] = []
lower_all (f ∷ fields) = lower f ∷ lower_all fields

-- the more restrictive of the plugin's limit and the core's
restricted : ℕ → Option ℕ → ℕ
restricted plugin none = plugin
restricted plugin (some core) = min plugin core

unfoldable pub init :
    List Text → List Text → Text → ℕ → ℕ → Bool → Option ℕ → Option ℕ → FieldBlocker
unfolding effective lower_all restricted
init blocked allowed replacement depth scanned on_drop core_depth core_scanned = record {
  effective_blocklist = effective blocked (lower_all allowed);
  replacement = replacement;
  max_depth = restricted depth core_depth;
  max_scanned = restricted scanned core_scanned;
  on_drop = on_drop;
}

-- `key.lower() in blocklist`
unfoldable pub is_blocked : FieldBlocker → Text → Bool
is_blocked r key = text_in (lower key) r.effective_blocklist

hit : Scan → Scan
hit scan = record scan { guardrail_hit = true }

-- whether the walk returns after a container
unfoldable pub gives_up : FieldBlocker → Scan → Bool
gives_up r scan = scan.guardrail_hit && r.on_drop

-- `isinstance(val, (dict, list))`
unfoldable pub is_container : Value → Bool
is_container (dict d) = true
is_container (list vs) = true
is_container v = false

unfoldable mutual
  unfolding hit is_blocked gives_up is_container

  -- `_walk` at a value; it leaves a value alone that is no container
  pub walk : FieldBlocker → ℕ → Value → Scan → Value × Scan
  walk r depth (dict d) scan =
      if ltb r.max_depth depth
      then (dict d, hit scan)
      else let (d', after) = walk_fields r depth d scan in (dict d', after)
  walk r depth (list vs) scan =
      if ltb r.max_depth depth
      then (list vs, hit scan)
      else let (vs', after) = walk_items r depth vs scan in (list vs', after)
  walk r depth v scan = (v, scan)

  -- the loop over the keys of a dict
  pub walk_fields : FieldBlocker → ℕ → Fields → Scan → Fields × Scan
  walk_fields r depth end scan = (end, scan)
  walk_fields r depth (field k v d) scan =
      let counted : Scan = record scan { scanned = scan.scanned + 1 } in
      let (d1, after1) =
        walk_fields r depth d
          (record counted { policy_violations = counted.policy_violations + 1 }) in
      let (v', inside) = walk r (depth + 1) v counted in
      let (d2, after2) = walk_fields r depth d inside in
      if ltb r.max_scanned counted.scanned
      then (field k v d, hit counted)
      else if is_blocked r k
      then (field k (str r.replacement) d1, after1)
      else if gives_up r inside && is_container v
      then (field k v' d, inside)
      else (field k v' d2, after2)

  -- the loop over the items of a list
  pub walk_items : FieldBlocker → ℕ → Items → Scan → Items × Scan
  walk_items r depth nil scan = (nil, scan)
  walk_items r depth (cons v vs) scan =
      let (v', inside) = walk r (depth + 1) v scan in
      let (vs', after) = walk_items r depth vs inside in
      if gives_up r inside && is_container v then (cons v' vs, inside) else (cons v' vs', after)

-- `dict(event)` after the walk: the fields as they were, the containers in them as walked
restored : Fields → Fields → Fields
unfolding is_container
restored (field k v d) (field j v' d') = field k (if is_container v' then v' else v) (restored d d')
restored d _ = d

abbrev pub no_scan : Scan
no_scan = record { scanned = 0; guardrail_hit = false; policy_violations = 0 }

unfoldable pub walked : FieldBlocker → Fields → Fields × Scan
unfolding walk
walked r event = if ltb r.max_depth 0 then (event, hit no_scan) else walk_fields r 0 event no_scan

-- the event and `last_policy_violations`
unfoldable pub redact : FieldBlocker → Fields → Fields × ℕ
unfolding walked restored gives_up
redact r event =
    let (root, scan) = walked r event in
    (if gives_up r scan then restored event root else root, scan.policy_violations)

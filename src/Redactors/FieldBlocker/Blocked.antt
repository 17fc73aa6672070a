-- ===== src/Redactors/FieldBlocker/Blocked.antt =====
-- What a walk that no guardrail stops leaves in the event.
use fapilog.Prelude.{ℕ, ◌+◌, ◌≡◌, refl, Bool, true, false, ◌&&◌, Text, if◌then◌else◌, arith}
use fapilog.Prelude.Value.{
  Value, null, bool, num, str, list, dict, Items, nil, cons, Fields, end, field,
}
use fapilog.Redactors.FieldBlocker.{
  FieldBlocker, Scan, walk, walk_fields, walk_items, is_blocked, is_container, gives_up, hit,
  redact, walked, no_scan,
}

mutual
  -- every blocked key, at any depth, holds the replacement
  pub IsBlocked : FieldBlocker → Value → Type 0
  IsBlocked r (dict d) = AreBlocked r d
  IsBlocked r (list vs) = AllBlocked r vs
  IsBlocked r v = Unit

  pub AreBlocked : FieldBlocker → Fields → Type 0
  AreBlocked r end = Unit
  AreBlocked r (field k v d) =
      (is_blocked r k ≡ true → v ≡ str r.replacement) × IsBlocked r v × AreBlocked r d

  pub AllBlocked : FieldBlocker → Items → Type 0
  AllBlocked r nil = Unit
  AllBlocked r (cons v vs) = IsBlocked r v × AllBlocked r vs

gave_up :
    (r : FieldBlocker) (scan : Scan) (b : Bool)
    → (gives_up r scan && b) ≡ true
    → scan.guardrail_hit ≡ true
unfolding gives_up
gave_up r scan b e = ground arith

abbrev picked : Bool → Value → Items → Items → Scan → Scan → Items × Scan
picked stop v' vs vs' inside after = if stop then (cons v' vs, inside) else (cons v' vs', after)

-- one item of a list, from what is known of its walk and of the rest
items_step :
    (r : FieldBlocker) (v' : Value) (vs vs' : Items) (inside after : Scan) (stop : Bool)
    (P : Type 0)
    → (stop ≡ true → inside.guardrail_hit ≡ true)
    → (inside.guardrail_hit ≡ false → P × IsBlocked r v')
    → (after.guardrail_hit ≡ false → (inside.guardrail_hit ≡ false) × AllBlocked r vs')
    → (picked stop v' vs vs' inside after).1.guardrail_hit ≡ false
    → P × AllBlocked r (picked stop v' vs vs' inside after).0
unfolding IsBlocked
items_step r v' vs vs' inside after true P stops first rest h = absurd (cc (stops refl, h))
items_step r v' vs vs' inside after false P stops first rest h =
    let (clean, items) = rest h in let (p, value) = first clean in (p, (value, items))

abbrev pub chosen :
    Bool
    → Bool
    → Bool
    → Fields × Scan
    → Fields × Scan
    → Fields × Scan
    → Fields × Scan
    → Fields × Scan
chosen over blocked stop a b c d = if over then a else if blocked then b else if stop then c else d

-- one key of a dict, from what is known of its walk and of the rest
fields_step :
    (r : FieldBlocker) (k : Text) (v v' : Value) (d d1 d2 : Fields)
    (stuck inside after1 after2 : Scan) (over blocked stop : Bool) (P : Type 0)
    → stuck.guardrail_hit ≡ true
    → is_blocked r k ≡ blocked
    → (stop ≡ true → inside.guardrail_hit ≡ true)
    → (inside.guardrail_hit ≡ false → P × IsBlocked r v')
    → (after1.guardrail_hit ≡ false → P × AreBlocked r d1)
    → (after2.guardrail_hit ≡ false → (inside.guardrail_hit ≡ false) × AreBlocked r d2)
    → (chosen over blocked stop
        (field k v d, stuck)
        (field k (str r.replacement) d1, after1)
        (field k v' d, inside)
        (field k v' d2, after2)).1.guardrail_hit
      ≡ false
    → P
      × AreBlocked r
          (chosen over blocked stop
            (field k v d, stuck)
            (field k (str r.replacement) d1, after1)
            (field k v' d, inside)
            (field k v' d2, after2)).0
unfolding IsBlocked
fields_step r k v v' d d1 d2 stuck inside after1 after2 true blocked stop P s b stops first r1 r2
      h =
    absurd (cc (s, h))
fields_step r k v v' d d1 d2 stuck inside after1 after2 false true stop P s b stops first r1 r2 h =
    let (p, rest) = r1 h in (p, ((λ _. refl), tt, rest))
fields_step r k v v' d d1 d2 stuck inside after1 after2 false false true P s b stops first r1 r2 h =
    absurd (cc (stops refl, h))
fields_step r k v v' d d1 d2 stuck inside after1 after2 false false false P s b stops first r1 r2
      h =
    let (clean, rest) = r2 h in
    let (p, value) = first clean in (p, ((λ e. absurd (cc (b, e))), value, rest))

mutual
  unfolding walk IsBlocked hit gives_up

  walk-IsBlocked :
      (r : FieldBlocker) (depth : ℕ) (v : Value) (scan : Scan)
      → (walk r depth v scan).1.guardrail_hit ≡ false
      → (scan.guardrail_hit ≡ false) × IsBlocked r (walk r depth v scan).0
  walk-IsBlocked r depth (dict d) scan h = ground (arith, walk_fields-AreBlocked r depth d scan)
  walk-IsBlocked r depth (list vs) scan h = ground (arith, walk_items-AllBlocked r depth vs scan)
  walk-IsBlocked r depth null scan h = (h, tt)
  walk-IsBlocked r depth (bool b) scan h = (h, tt)
  walk-IsBlocked r depth (num n) scan h = (h, tt)
  walk-IsBlocked r depth (str t) scan h = (h, tt)

  walk_fields-AreBlocked :
      (r : FieldBlocker) (depth : ℕ) (d : Fields) (scan : Scan)
      → (walk_fields r depth d scan).1.guardrail_hit ≡ false
      → (scan.guardrail_hit ≡ false) × AreBlocked r (walk_fields r depth d scan).0
  walk_fields-AreBlocked r depth end scan h = (h, tt)
  walk_fields-AreBlocked r depth (field k v d) scan h =
      let counted : Scan = record scan { scanned = scan.scanned + 1 } in
      let noted : Scan = record counted { policy_violations = counted.policy_violations + 1 } in
      let (v', inside) = walk r (depth + 1) v counted in
      let (d1, after1) = walk_fields r depth d noted in
      let (d2, after2) = walk_fields r depth d inside in
      fields_step r k v v' d d1 d2 (hit counted) inside after1 after2 _ _ _ _ refl refl
        (gave_up r inside (is_container v)) (walk-IsBlocked r (depth + 1) v counted)
        (walk_fields-AreBlocked r depth d noted) (walk_fields-AreBlocked r depth d inside) h

  walk_items-AllBlocked :
      (r : FieldBlocker) (depth : ℕ) (vs : Items) (scan : Scan)
      → (walk_items r depth vs scan).1.guardrail_hit ≡ false
      → (scan.guardrail_hit ≡ false) × AllBlocked r (walk_items r depth vs scan).0
  walk_items-AllBlocked r depth nil scan h = (h, tt)
  walk_items-AllBlocked r depth (cons v vs) scan h =
      let (v', inside) = walk r (depth + 1) v scan in
      let (vs', after) = walk_items r depth vs inside in
      items_step r v' vs vs' inside after (gives_up r inside && is_container v) _
        (gave_up r inside (is_container v)) (walk-IsBlocked r (depth + 1) v scan)
        (walk_items-AllBlocked r depth vs inside) h

-- Unless a guardrail is hit, `redact` leaves the replacement in every field, at any depth, whose
-- key in lower case is in the effective block list.
pub redact-AreBlocked :
    (r : FieldBlocker) (event : Fields)
    → (walked r event).1.guardrail_hit ≡ false
    → AreBlocked r (redact r event).0
unfolding redact walked gives_up
redact-AreBlocked r event h = ground (arith, h, walk_fields-AreBlocked r 0 event no_scan)

-- ===== src/Redactors/FieldBlocker/Dropped.antt =====
-- What `redact` gives back when a guardrail is hit in the mode "drop".
use fapilog.Prelude.{
  ℕ, ◌+◌, ◌≡◌, refl, ap, ◌∙◌, subst, inl, inr, Bool, true, false, ◌&&◌, none, some, Text, text_eq,
  ltb, if◌then◌else◌, arith, Bool-cases, ltb→lt, ◌⊎◌,
}
use mathlib.Core.Option.{some-injective, none-ne-some}
use fapilog.Prelude.Value.{Value, null, bool, num, str, list, dict, Fields, end, field, get}
use fapilog.Redactors.FieldBlocker.Blocked.{chosen}
use fapilog.Redactors.FieldBlocker.{
  FieldBlocker, Scan, walk, walk_fields, is_blocked, is_container, gives_up, hit, redact, walked,
  restored, no_scan,
}

-- a value that is no container is left as it is by the walk
walk-scalar :
    (r : FieldBlocker) (depth : ℕ) (v : Value) (scan : Scan)
    → is_container v ≡ false
    → (walk r depth v scan).0 ≡ v
unfolding walk is_container
walk-scalar r depth (dict d) scan e = cc
walk-scalar r depth (list vs) scan e = cc
walk-scalar r depth null scan e = refl
walk-scalar r depth (bool b) scan e = refl
walk-scalar r depth (num n) scan e = refl
walk-scalar r depth (str t) scan e = refl

restored_self : (d : Fields) → restored d d ≡ d
unfolding restored
restored_self end = refl
restored_self (field k v d) = ground (arith, restored_self d)

-- a value that takes the place of one that is no container is none either
restored_value :
    (r : FieldBlocker) (depth : ℕ) (v : Value) (scan : Scan)
    → is_container v ≡ false
    → (if is_container (walk r depth v scan).0 then (walk r depth v scan).0 else v) ≡ v
restored_value r depth v scan e = rw (walk-scalar r depth v scan e, e) refl

get-field :
    (j k : Text) (x w v : Value) (rest d : Fields)
    → (text_eq j k ≡ true → w ≡ v → is_container v ≡ false → x ≡ v)
    → (get k d ≡ some v → get k rest ≡ some v)
    → get k (field j w d) ≡ some v
    → is_container v ≡ false
    → get k (field j x rest) ≡ some v
unfolding get
get-field j k x w v rest d here later e f = elim (Bool-cases (text_eq j k)) [
  | inl same ↦ rw same (
      ap some (
        here same
          (some-injective w v (subst (λ b. (if b then some w else get k d) ≡ some v) same e)) f))
  | inr other ↦ rw other (later (subst (λ b. (if b then some w else get k d) ≡ some v) other e))
]

if_same : (b : Bool) (v : Value) → (if b then v else v) ≡ v
if_same true v = refl
if_same false v = refl

-- one key of the event, by what the walk does with it
restored_step :
    (j k : Text) (w v v' : Value) (rep : Text) (d d1 d2 : Fields) (a b c e : Scan)
    (over blocked stop : Bool)
    → (is_container w ≡ false → (if is_container v' then v' else w) ≡ w)
    → (get k d ≡ some v → get k (restored d d1) ≡ some v)
    → (get k d ≡ some v → get k (restored d d2) ≡ some v)
    → get k (field j w d) ≡ some v
    → is_container v ≡ false
    → get k (
        restored
          (field j w d)
          (chosen over blocked stop
            (field j w d, a)
            (field j (str rep) d1, b)
            (field j v' d, c)
            (field j v' d2, e)).0)
      ≡ some v
unfolding restored is_container
restored_step j k w v v' rep d d1 d2 a b c e true blocked stop here l1 l2 g f =
    get-field j k _ w v (restored d d) d (λ same eq no. if_same _ w ∙ eq)
      (λ x. ap (get k) (restored_self d) ∙ x) g f
restored_step j k w v v' rep d d1 d2 a b c e false true stop here l1 l2 g f =
    get-field j k w w v (restored d d1) d (λ same eq no. eq) l1 g f
restored_step j k w v v' rep d d1 d2 a b c e false false true here l1 l2 g f =
    get-field j k _ w v (restored d d) d (λ same eq no. here (ap is_container eq ∙ no) ∙ eq)
      (λ x. ap (get k) (restored_self d) ∙ x) g f
restored_step j k w v v' rep d d1 d2 a b c e false false false here l1 l2 g f =
    get-field j k _ w v (restored d d2) d (λ same eq no. here (ap is_container eq ∙ no) ∙ eq) l2 g f

get-restored :
    (r : FieldBlocker) (depth : ℕ) (d : Fields) (scan : Scan) (k : Text) (v : Value)
    → get k d ≡ some v
    → is_container v ≡ false
    → get k (restored d (walk_fields r depth d scan).0) ≡ some v
unfolding walk
get-restored r depth end scan k v g f = absurd (none-ne-some v (end_empty k ∙ g))
  where
    end_empty : (k : Text) → none ≡ get k end
    end_empty k = unfold get in refl
get-restored r depth (field j w d) scan k v g f =
    let counted : Scan = record scan { scanned = scan.scanned + 1 } in
    let noted : Scan = record counted { policy_violations = counted.policy_violations + 1 } in
    let (v', inside) = walk r (depth + 1) w counted in
    restored_step j k w v v' r.replacement d (walk_fields r depth d noted).0
      (walk_fields r depth d inside).0 (hit counted) (walk_fields r depth d noted).1 inside
      (walk_fields r depth d inside).1 (ltb r.max_scanned counted.scanned) (is_blocked r j)
      (gives_up r inside && is_container w) (restored_value r (depth + 1) w counted)
      (λ x. get-restored r depth d noted k v x f) (λ x. get-restored r depth d inside k v x f) g f

-- In the mode "drop", once a guardrail is hit, `redact` still gives an event back, and each field of
-- its top level that holds no container has its original value, whether its key is blocked or not.
pub redact-drop :
    (r : FieldBlocker) (event : Fields) (k : Text) (v : Value)
    → gives_up r (walked r event).1 ≡ true
    → get k event ≡ some v
    → is_container v ≡ false
    → get k (redact r event).0 ≡ some v
unfolding redact walked
redact-drop r event k v drops g f =
    ap (λ b. get k (if b then restored event (walked r event).0 else (walked r event).0)) drops
    ∙ by_depth (Bool-cases (ltb r.max_depth 0))
  where
    by_depth :
        (ltb r.max_depth 0 ≡ true) ⊎ (ltb r.max_depth 0 ≡ false)
        → get k (restored event (walked r event).0) ≡ some v
    by_depth (inl none_deep) = absurd (omega (arith, ltb→lt r.max_depth 0 none_deep))
    by_depth (inr deep) =
        let walked_if : Bool → Fields × Scan =
          λ b. if b then (event, hit no_scan) else walk_fields r 0 event no_scan in
        ap (λ b. get k (restored event (walked_if b).0)) deep
        ∙ get-restored r 0 event no_scan k v g f

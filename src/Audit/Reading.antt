-- ===== src/Audit/Reading.antt =====
-- Lines that are written and read again: where a new line lands, and what the sort makes of it.
use fapilog.Prelude.{
  ℕ, suc, ◌+◌, ◌<◌, ◌≡◌, ◌≢◌, refl, sym, ap, ◌∙◌, Option, none, some, List, [], ◌∷◌, ◌++◌, Text,
  arith, All, All-map, append_assoc, Bool-cases, leb, ◌⊎◌, inl, inr, subst, text_eq,
}
use fapilog.Audit.Event.{AuditEvent, model_dump}
use fapilog.Audit.Trail.{Codec, Directory, write_to_file, before}
use fapilog.Audit.Verify.{
  Loaded, loaded, invalid_after, then_event, read_line, read_lines, strip, all_lines, sort_key,
  sort, insert_event,
}

-- `xs` with `w` put in somewhere
abbrev pub IsWith : {A : Type 0} → A → List A → List A → Type 0
IsWith {A} w xs ys = (us : List A) × (vs : List A) × (xs ≡ us ++ vs) × (ys ≡ us ++ w ∷ vs)

IsWith-append :
    {A : Type 0} (w : A) (us xs ys : List A) → IsWith w xs ys → IsWith w (us ++ xs) (us ++ ys)
IsWith-append w us xs ys (vs, cs, e, f) = (
  us ++ vs,
  cs,
  ap (λ l. us ++ l) e ∙ sym (append_assoc us vs cs),
  ap (λ l. us ++ l) f ∙ sym (append_assoc us vs (w ∷ cs)),
)

pub all_lines-write_to_file :
    (path line : Text) (d : Directory)
    → IsWith line (all_lines d) (all_lines (write_to_file path line d))
unfolding all_lines write_to_file
all_lines-write_to_file path line [] = ([], [], refl, refl)
all_lines-write_to_file path line ((p, lines) ∷ d) = elim (Bool-cases (text_eq p path)) [
  | inl e ↦ rw e (lines, all_lines d, refl, append_assoc lines (line ∷ []) (all_lines d))
  | inr e ↦ elim (Bool-cases (before path p)) [
    | inl f ↦ rw (e, f) ([], lines ++ all_lines d, refl, refl)
    | inr f ↦
        rw (e, f)
          (IsWith-append line lines (all_lines d) (all_lines (write_to_file path line d))
            (all_lines-write_to_file path line d))
  ]
]

-- the line of an event comes back us the event
abbrev pub IsReadable : Codec → AuditEvent → Type 0
IsReadable c w =
    let line = c.canonical_json (model_dump w) in
    (strip line ≡ line) × (line ≢ []) × (c.validate line ≡ some w)

read_line-readable :
    (c : Codec) (w : AuditEvent) (line : Text) (rest : Loaded)
    → line ≢ []
    → c.validate line ≡ some w
    → read_line c line rest ≡ then_event (some w) rest
unfolding read_line
read_line-readable c w [] rest h e = absurd (h refl)
read_line-readable c w (x ∷ line) rest h e = ap (λ o. then_event o rest) e

loaded-ne-invalid : (es : List AuditEvent) (n : ℕ) → loaded es ≢ invalid_after n
loaded-ne-invalid es n h = cc

events_in : Loaded → List AuditEvent
events_in (loaded es) = es
events_in (invalid_after n) = []

loaded-injective : {es es' : List AuditEvent} → loaded es ≡ loaded es' → es ≡ es'
unfolding events_in
loaded-injective h = ap events_in h

-- what a line contributes: nothing, or an event in front
Contributes : Codec → Text → List AuditEvent → Loaded → Type 0
Contributes c s es rest =
    ((rest ≡ loaded es) × ((r : Loaded) → read_line c s r ≡ r))
    ⊎ ((e : AuditEvent) × (es' : List AuditEvent) × (rest ≡ loaded es')
        × (es ≡ e ∷ es')
        × ((r : Loaded) → read_line c s r ≡ then_event (some e) r))

valid-Contributes :
    (c : Codec) (x : ℕ) (s : Text) (es : List AuditEvent) (o : Option AuditEvent) (rest : Loaded)
    → c.validate (x ∷ s) ≡ o
    → then_event o rest ≡ loaded es
    → Contributes c (x ∷ s) es rest
unfolding Contributes then_event read_line
valid-Contributes c x s es none rest f h = absurd (loaded-ne-invalid es 0 (sym h))
valid-Contributes c x s es (some e) (invalid_after n) f h =
    absurd (loaded-ne-invalid es (suc n) (sym h))
valid-Contributes c x s es (some e) (loaded es') f h =
    inr (e, es', refl, sym (loaded-injective h), λ r. ap (λ o. then_event o r) f)

read_line-Contributes :
    (c : Codec) (s : Text) (es : List AuditEvent) (rest : Loaded)
    → read_line c s rest ≡ loaded es
    → Contributes c s es rest
unfolding read_line Contributes
read_line-Contributes c [] es rest h = inl (h, λ r. refl)
read_line-Contributes c (x ∷ s) es rest h =
    valid-Contributes c x s es (c.validate (x ∷ s)) rest refl h

read_lines-split :
    (c : Codec) (w : AuditEvent) (line : Text) (us vs : List Text) (es : List AuditEvent)
    → strip line ≡ line
    → line ≢ []
    → c.validate line ≡ some w
    → read_lines c (us ++ vs) ≡ loaded es
    → (es' : List AuditEvent) × IsWith w es es' × (read_lines c (us ++ line ∷ vs) ≡ loaded es')
unfolding read_lines then_event Contributes
read_lines-split c w line [] vs es s n v h = (
  w ∷ es,
  ([], es, refl, refl),
  ap (λ l. read_line c l (read_lines c vs)) s
      ∙ (read_line-readable c w line (read_lines c vs) n v ∙ ap (then_event (some w)) h),
)
read_lines-split c w line (a ∷ us) vs es s n v h =
    elim (read_line-Contributes c (strip a) es (read_lines c (us ++ vs)) h) [
      | inl (e, f) ↦
          let (es', i, g) = read_lines-split c w line us vs es s n v e in
          (es', i, f (read_lines c (us ++ line ∷ vs)) ∙ g)
      | inr (x, xs, e, k, f) ↦
          let (es', i, g) = read_lines-split c w line us vs xs s n v e in
          (
            x ∷ es',
            subst (λ l. IsWith w l (x ∷ es')) (sym k) (IsWith-append w (x ∷ []) xs es' i),
            f (read_lines c (us ++ line ∷ vs)) ∙ ap (then_event (some x)) g,
          )
    ]

-- a line more in a directory that can be read
pub read_lines-into :
    (c : Codec) (path : Text) (w : AuditEvent) (d : Directory) (es : List AuditEvent)
    → IsReadable c w
    → read_lines c (all_lines d) ≡ loaded es
    → (es' : List AuditEvent) × IsWith w es es'
      × (read_lines c (all_lines (write_to_file path (c.canonical_json (model_dump w)) d))
          ≡ loaded es')
read_lines-into c path w d es (s, ne, v) r =
    let line = c.canonical_json (model_dump w) in
    let (us, vs, e, f) = all_lines-write_to_file path line d in
    let (es', i, q) = read_lines-split c w line us vs es s ne v (ap (read_lines c) (sym e) ∙ r) in
    (es', i, ap (read_lines c) f ∙ q)

abbrev pub IsBelow : ℕ → AuditEvent → Type 0
IsBelow n e = sort_key e.sequence_number < n

insert_event-last :
    (w : AuditEvent) (es : List AuditEvent)
    → All (IsBelow (sort_key w.sequence_number)) es
    → insert_event w es ≡ es ++ w ∷ []
unfolding insert_event
insert_event-last w [] h = refl
insert_event-last w (e ∷ es) h = ground (arith, h.0, insert_event-last w es h.1)

insert_event-snoc :
    (w x : AuditEvent) (es : List AuditEvent)
    → sort_key x.sequence_number < sort_key w.sequence_number
    → insert_event x (es ++ w ∷ []) ≡ insert_event x es ++ w ∷ []
unfolding insert_event
insert_event-snoc w x [] h = ground arith
insert_event-snoc w x (e ∷ es) h = ground (arith, insert_event-snoc w x es h)

insert_event-All :
    (n : ℕ) (x : AuditEvent) (es : List AuditEvent)
    → IsBelow n x
    → All (IsBelow n) es
    → All (IsBelow n) (insert_event x es)
unfolding insert_event
insert_event-All n x [] hx h = (hx, tt)
insert_event-All n x (e ∷ es) hx h =
    elim (Bool-cases (leb (sort_key x.sequence_number) (sort_key e.sequence_number))) [
      | inl f ↦ rw f (hx, h)
      | inr f ↦ rw f (h.0, insert_event-All n x es hx h.1)
    ]

sort-All : (n : ℕ) (es : List AuditEvent) → All (IsBelow n) es → All (IsBelow n) (sort es)
unfolding sort
sort-All n [] h = tt
sort-All n (e ∷ es) h = insert_event-All n e (sort es) h.0 (sort-All n es h.1)

sort-into :
    (w : AuditEvent) (us vs : List AuditEvent)
    → All (IsBelow (sort_key w.sequence_number)) (us ++ vs)
    → sort (us ++ w ∷ vs) ≡ sort (us ++ vs) ++ w ∷ []
unfolding sort
sort-into w [] vs h = insert_event-last w (sort vs) (sort-All (sort_key w.sequence_number) vs h)
sort-into w (u ∷ us) vs h =
    ap (insert_event u) (sort-into w us vs h.1) ∙ insert_event-snoc w u (sort (us ++ vs)) h.0

into-All :
    (n : ℕ) (w : AuditEvent) (us vs : List AuditEvent)
    → IsBelow n w
    → All (IsBelow n) (us ++ vs)
    → All (IsBelow n) (us ++ w ∷ vs)
into-All n w [] vs hw h = (hw, h)
into-All n w (u ∷ us) vs hw h = (h.0, into-All n w us vs hw h.1)

-- the directory reads as `log` when sorted, with numbers up to `n`
abbrev pub Reads : Codec → Directory → ℕ → List AuditEvent → Type 0
Reads c d n log =
    (es : List AuditEvent) × (read_lines c (all_lines d) ≡ loaded es)
    × (sort es ≡ log)
    × All (IsBelow (suc n)) es

-- One line more at the end of a file, for an event with the next number, and the log has that event
-- at its end.
pub write_to_file-Reads :
    (c : Codec) (path : Text) (w : AuditEvent) (d : Directory) (n : ℕ) (log : List AuditEvent)
    → IsReadable c w
    → sort_key w.sequence_number ≡ n + 1
    → Reads c d n log
    → Reads c (write_to_file path (c.canonical_json (model_dump w)) d) (n + 1) (log ++ w ∷ [])
write_to_file-Reads c path w d n log v k (es, r, o, b) =
    let (es', (xs, ys, g, h), q) = read_lines-into c path w d es v r in
    let below = subst (All (IsBelow (suc n))) g b in
    (
      es',
      q,
      ap sort h
          ∙ (sort-into w xs ys (subst (λ m. All (IsBelow m) (xs ++ ys)) (omega (arith, k)) below)
              ∙ ap (λ l. l ++ w ∷ []) (ap sort (sym g) ∙ o)),
      subst (All (IsBelow (suc (n + 1)))) (sym h) (
          into-All (suc (n + 1)) w xs ys (omega (arith, k)) (
            All-map (IsBelow (suc n)) (IsBelow (suc (n + 1))) (xs ++ ys) (λ x i. omega (arith, i))
              below)),
    )

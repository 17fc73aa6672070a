-- ===== src/Filters/FirstOccurrence/History.antt =====
-- The first-occurrence filter over a whole run, against the list of the first occurrences.
use fapilog.Prelude.{
  ℕ, ◌+◌, ◌≤◌, ◌≡◌, refl, sym, ap, ◌∙◌, Bool, false, not, ◌||◌, List, [], ◌∷◌, ◌++◌, Text, text_eq,
  length, length-append, leb, arith, if◌then◌else◌, Bool-cases, inl, inr, subst,
}
use fapilog.Prelude.Value.{Fields}
use fapilog.Prelude.Dict.{contains}
use fapilog.Filters.Chain.{keep, drop}
use fapilog.Filters.FirstOccurrence.{FirstOccurrence, start, filter_key, prune_expired, shrink}
use fapilog.Filters.FirstOccurrence.Window.{
  Rising, seen_within, contains-prune, filter_key-answer, length-prune-le, Rising-prune,
  Rising-until, Rising-snoc,
}

pub record Occurrence : Type 0 where
  pub key : Text
  pub event : Fields
  pub now : ℕ
  pub sampled : Bool

abbrev pub run : FirstOccurrence → List Occurrence → FirstOccurrence
run f [] = f
run f (x ∷ xs) = run (filter_key f x.key x.event x.now x.sampled).0 xs

-- An occurrence is a first one unless there is another first one of its key at most a window ago.
abbrev pub noted : ℕ → List (Text × ℕ) → Occurrence → List (Text × ℕ)
noted window firsts x =
    if seen_within window x.now x.key firsts then firsts else firsts ++ (x.key, x.now) ∷ []

abbrev pub first_occurrences : ℕ → List (Text × ℕ) → List Occurrence → List (Text × ℕ)
first_occurrences window firsts [] = firsts
first_occurrences window firsts (x ∷ xs) = first_occurrences window (noted window firsts x) xs

-- the times rise from `from` to `until`
abbrev pub IsTimed : ℕ → List Occurrence → ℕ → Type 0
IsTimed from [] until = from ≤ until
IsTimed from (x ∷ xs) until = (from ≤ x.now) × IsTimed x.now xs until

-- what has expired plays no part later
seen_within-prune :
    (window now later : ℕ) (key : Text) (d : List (Text × ℕ))
    → now ≤ later
    → seen_within window later key (prune_expired window now d) ≡ seen_within window later key d
unfolding seen_within prune_expired
seen_within-prune window now later key [] h = refl
seen_within-prune window now later key ((k, t) ∷ d) h =
    ground (arith, h, seen_within-prune window now later key d h)

seen_within-snoc :
    (window now : ℕ) (key k : Text) (t : ℕ) (d : List (Text × ℕ))
    → seen_within window now key (d ++ (k, t) ∷ [])
      ≡ (seen_within window now key d || (if text_eq k key then leb now (t + window) else false))
unfolding seen_within
seen_within-snoc window now key k t [] = ground arith
seen_within-snoc window now key k t ((j, u) ∷ d) =
    ground (arith, seen_within-snoc window now key k t d)

shrink-fits : (max_keys : ℕ) (d : List (Text × ℕ)) → length d ≤ max_keys → shrink max_keys d ≡ d
unfolding shrink
shrink-fits m [] h = refl
shrink-fits m (e ∷ d) h = ground (arith, h)

-- the table says of any later time what the list of first occurrences says
record Agrees (f : FirstOccurrence) (firsts : List (Text × ℕ)) (now : ℕ) : Type 0 where
  rising : Rising 0 now f.seen
  shorter : length f.seen ≤ length firsts
  same :
      (key : Text) (later : ℕ)
      → now ≤ later
      → seen_within f.window later key f.seen ≡ seen_within f.window later key firsts

old-Agrees :
    (f : FirstOccurrence) (firsts : List (Text × ℕ)) (before now : ℕ)
    → before ≤ now
    → Agrees f firsts before
    → Agrees (record f { seen = prune_expired f.window now f.seen }) firsts now
old-Agrees f firsts before now h v = record {
  rising = Rising-until 0 before now _ h (Rising-prune f.window now 0 before f.seen v.rising);
  shorter = omega (arith, length-prune-le f.window now f.seen, v.shorter);
  same = λ key later l.
      seen_within-prune f.window now later key f.seen l ∙ v.same key later (omega (arith, h, l));
}

new-Agrees :
    (f : FirstOccurrence) (firsts : List (Text × ℕ)) (key : Text) (now : ℕ)
    → Agrees f firsts now
    → Agrees (record f { seen = f.seen ++ (key, now) ∷ [] }) (firsts ++ (key, now) ∷ []) now
new-Agrees f firsts key now v = record {
  rising = Rising-snoc 0 now now key f.seen v.rising (omega arith);
  shorter = omega (
    arith,
    v.shorter,
    length-append f.seen ((key, now) ∷ []),
    length-append firsts ((key, now) ∷ []),
  );
  same = λ j later l.
      seen_within-snoc f.window later j key now f.seen
      ∙ ap (λ b. b || (if text_eq key j then leb later (now + f.window) else false))
          (v.same j later l)
      ∙ sym (seen_within-snoc f.window later j key now firsts);
}

step-Agrees :
    (f : FirstOccurrence) (firsts : List (Text × ℕ)) (before : ℕ) (x : Occurrence)
    → before ≤ x.now
    → length (noted f.window firsts x) ≤ f.max_keys
    → Agrees f firsts before
    → let f' = (filter_key f x.key x.event x.now x.sampled).0 in
      Agrees f' (noted f.window firsts x) x.now
      × (f'.window ≡ f.window)
      × (f'.max_keys ≡ f.max_keys)
      × (f'.subsequent_rate ≡ f.subsequent_rate)
unfolding filter_key
step-Agrees f firsts before x h fits v =
    let live = prune_expired f.window x.now f.seen in
    let old = old-Agrees f firsts before x.now h v in
    let known : contains x.key live ≡ seen_within f.window x.now x.key firsts =
      contains-prune f.window x.now 0 before x.key f.seen v.rising ∙ v.same x.key x.now h in
    elim (Bool-cases (seen_within f.window x.now x.key firsts)) [
      | inl b ↦ rw (known ∙ b, b) (old, refl, refl, refl)
      | inr b ↦
          let room : length (firsts ++ (x.key, x.now) ∷ []) ≤ f.max_keys =
            ground (arith, fits, b) in
          let kept : shrink f.max_keys (live ++ (x.key, x.now) ∷ []) ≡ live ++ (x.key, x.now) ∷ [] =
            shrink-fits f.max_keys (live ++ (x.key, x.now) ∷ []) (
              omega (
                arith,
                room,
                old.shorter,
                length-append live ((x.key, x.now) ∷ []),
                length-append firsts ((x.key, x.now) ∷ []),
              )) in
          rw (known ∙ b, b, kept)
            (new-Agrees (record f { seen = live }) firsts x.key x.now old, refl, refl, refl)
    ]

first_occurrences-longer :
    (window : ℕ) (firsts : List (Text × ℕ)) (xs : List Occurrence)
    → length firsts ≤ length (first_occurrences window firsts xs)
first_occurrences-longer window firsts [] = omega arith
first_occurrences-longer window firsts (x ∷ xs) = ground (
  arith,
  first_occurrences-longer window (noted window firsts x) xs,
  length-append firsts ((x.key, x.now) ∷ []),
)

run-Agrees :
    (f : FirstOccurrence) (firsts : List (Text × ℕ)) (before until : ℕ) (xs : List Occurrence)
    (window : ℕ)
    → f.window ≡ window
    → IsTimed before xs until
    → length (first_occurrences window firsts xs) ≤ f.max_keys
    → Agrees f firsts before
    → Agrees (run f xs) (first_occurrences window firsts xs) until
      × ((run f xs).window ≡ window)
      × ((run f xs).subsequent_rate ≡ f.subsequent_rate)
run-Agrees f firsts before until [] window e h fits v = (
  record {
    rising = Rising-until 0 before until f.seen h v.rising;
    shorter = v.shorter;
    same = λ key later l. v.same key later (omega (arith, h, l));
  },
  e,
  refl,
)
run-Agrees f firsts before until (x ∷ xs) window e (h, hs) fits v =
    let f' = (filter_key f x.key x.event x.now x.sampled).0 in
    let (a, b, c, d) =
      step-Agrees f firsts before x h
        (subst (λ w. length (noted w firsts x) ≤ f.max_keys) (sym e)
          (omega (arith, fits, first_occurrences-longer window (noted window firsts x) xs)))
        v in
    let (a', b', d') =
      run-Agrees f' (noted window firsts x) x.now until xs window (b ∙ e) hs
        (omega (arith, c, fits)) (subst (λ w. Agrees f' (noted w firsts x) x.now) e a) in
    (a', b', d' ∙ d)

-- Take a filter after its start and after any events at rising times, among which at most max_keys are
-- first occurrences of their key, that is events with no other first occurrence of the same key at
-- most a window before them. It keeps the next event, unchanged, exactly when there is no first
-- occurrence of its key at most a window ago (a repeated event does not count as one), or when later
-- occurrences are sampled and this one is.
pub run-answer :
    (f : FirstOccurrence) (xs : List Occurrence) (x : Occurrence)
    → IsTimed 0 xs x.now
    → length (first_occurrences f.window [] xs) ≤ f.max_keys
    → (filter_key (run (start f) xs) x.key x.event x.now x.sampled).1 ≡ (
        if not (seen_within f.window x.now x.key (first_occurrences f.window [] xs))
          || (if leb f.subsequent_rate 0 then false else x.sampled)
        then keep x.event
        else drop)
unfolding start
run-answer f xs x h fits =
    let g = run (start f) xs in
    let firsts = first_occurrences f.window [] xs in
    let (v, e, r) =
      run-Agrees (start f) [] 0 x.now xs f.window refl h fits
        (record { rising = omega arith; shorter = omega arith; same = λ key later l. refl }) in
    filter_key-answer g x.key x.event 0 x.now x.now x.sampled v.rising
    ∙ ap
        (λ b.
          if not b || (if leb g.subsequent_rate 0 then false else x.sampled)
          then keep x.event
          else drop)
        (v.same x.key x.now (omega arith) ∙ ap (λ w. seen_within w x.now x.key firsts) e)
    ∙ ap
        (λ rate.
          if not (seen_within f.window x.now x.key firsts)
            || (if leb rate 0 then false else x.sampled)
          then keep x.event
          else drop)
        r

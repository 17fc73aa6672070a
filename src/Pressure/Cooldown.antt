-- ===== src/Pressure/Cooldown.antt =====
-- The transitions of a whole run of evaluations.
use fapilog.Prelude.{
  ℕ, ◌+◌, ◌≤◌, ◌≡◌, refl, ◌⊎◌, inl, inr, true, false, List, [], ◌∷◌, arith, if◌then◌else◌, ◌==◌,
}
use fapilog.Pressure.{Level, index, Fill, Machine, evaluate}
use fapilog.Pressure.Steps.{evaluate_step, arrive, IsAdjacent}

-- the times at which the level changes, in a run over readings of the clock and of the fill ratio
pub transitions : Machine → List (ℕ × Fill) → List ℕ
transitions m [] = []
transitions m ((now, fill) ∷ samples) =
    let m' = evaluate m now fill in
    let rest = transitions m' samples in
    if index m'.level == index m.level then rest else now ∷ rest

-- each time lies at least `gap` after the one before, and the first at least `gap` after `start`
abbrev pub Spaced : ℕ → ℕ → List ℕ → Type 0
Spaced gap start [] = Unit
Spaced gap start (t ∷ times) = (start + gap ≤ t) × Spaced gap t times

-- the first time is free
abbrev pub AllSpaced : ℕ → List ℕ → Type 0
AllSpaced gap [] = Unit
AllSpaced gap (t ∷ times) = Spaced gap t times

pub same : (n : ℕ) → (n == n) ≡ true
same n = ground arith

pub adjacent_differs : (l k : Level) → IsAdjacent l k → (index k == index l) ≡ false
adjacent_differs l k h = ground arith

-- one sample of a run from the times of what follows it
transitions-cases {ℓ} :
    (P : List ℕ → Type ℓ) (m : Machine) (now : ℕ) (fill : Fill) (samples : List (ℕ × Fill))
    → P (transitions m samples)
    → ((l : Level)
        → (m.first_evaluation ≡ true) ⊎ (m.last_transition_time + m.cooldown ≤ now)
        → P (now ∷ transitions (arrive m now l) samples))
    → P (transitions m ((now, fill) ∷ samples))
unfolding transitions
transitions-cases P m now fill samples stay move = split (evaluate_step m now fill)
  where
    split :
        (evaluate m now fill ≡ m)
          ⊎ ((l : Level) × (evaluate m now fill ≡ arrive m now l)
              × IsAdjacent m.level l
              × ((m.first_evaluation ≡ true) ⊎ (m.last_transition_time + m.cooldown ≤ now)))
        → P (transitions m ((now, fill) ∷ samples))
    split (inl e) = rw (e, transitions) (rw (same (index m.level)) stay)
    split (inr (l, e, near, late)) =
        rw (e, transitions) (rw (adjacent_differs m.level l near) (move l late))

Spaced-transitions :
    (m : Machine) (samples : List (ℕ × Fill))
    → m.first_evaluation ≡ false
    → Spaced m.cooldown m.last_transition_time (transitions m samples)
unfolding transitions
Spaced-transitions m [] settled = tt
Spaced-transitions m ((now, fill) ∷ samples) settled =
    transitions-cases (Spaced m.cooldown m.last_transition_time) m now fill samples
      (Spaced-transitions m samples settled)
      λ l late. (ground arith, Spaced-transitions (arrive m now l) samples refl)

-- Whatever the samples, any two changes of level in a run lie at least the cooldown apart; the very
-- first one waits for nothing.
pub transitions-AllSpaced :
    (m : Machine) (samples : List (ℕ × Fill)) → AllSpaced m.cooldown (transitions m samples)
unfolding transitions
transitions-AllSpaced m [] = tt
transitions-AllSpaced m ((now, fill) ∷ samples) =
    transitions-cases (AllSpaced m.cooldown) m now fill samples (transitions-AllSpaced m samples)
      λ l late. Spaced-transitions (arrive m now l) samples refl

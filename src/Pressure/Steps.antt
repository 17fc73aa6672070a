-- ===== src/Pressure/Steps.antt =====
-- One evaluation moves by one level at most, outside the cooldown, and does not oscillate.
use fapilog.Prelude.{
  ℕ, ◌+◌, ◌*◌, ◌≤◌, ◌≡◌, ◌≢◌, refl, ◌⊎◌, inl, inr, true, false, some, arith, Bool-cases,
  Option-cases,
}
use fapilog.Pressure.{Level, index, Fill, Thresholds, Machine, evaluate, change, moved, cooling}

abbrev pub IsAdjacent : Level → Level → Type 0
IsAdjacent l k = (index k ≡ index l + 1) ⊎ (index k + 1 ≡ index l)

change-IsAdjacent :
    (m : Machine) (fill : Fill) (l : Level) → change m fill ≡ some l → IsAdjacent m.level l
unfolding change index
change-IsAdjacent m fill l e = ground arith

-- the machine after a change to `l` at `now`
abbrev pub arrive : Machine → ℕ → Level → Machine
arrive m now l = record m { level = l; last_transition_time = now; first_evaluation = false }

-- An evaluation changes nothing, or it moves to a level next to the old one and notes the time; the
-- latter only on the first change, or when the cooldown has passed since the last.
pub evaluate_step :
    (m : Machine) (now : ℕ) (fill : Fill)
    → (evaluate m now fill ≡ m)
      ⊎ ((l : Level) × (evaluate m now fill ≡ arrive m now l)
          × IsAdjacent m.level l
          × ((m.first_evaluation ≡ true) ⊎ (m.last_transition_time + m.cooldown ≤ now)))
unfolding evaluate moved cooling
evaluate_step m now fill = elim (Bool-cases (cooling m now)) [
  | inl wait ↦ inl (rw wait refl)
  | inr go ↦ elim (Option-cases (change m fill)) [
    | inl stay ↦ inl (rw (go, stay, moved) refl)
    | inr (l, e) ↦ inr (l, rw (go, e, moved) refl, change-IsAdjacent m fill l e, ground arith)
  ]
]

mul_mono : (a b c : ℕ) → a ≤ b → a * c ≤ b * c
mul_mono a b c h = grind arith

-- the thresholds of each pair of neighbours leave a band
pub record HasBands (t : Thresholds) : Type 0 where
  pub elevated_band : t.deescalate_from_elevated ≤ t.escalate_to_elevated
  pub high_band : t.deescalate_from_high ≤ t.escalate_to_high
  pub critical_band : t.deescalate_from_critical ≤ t.escalate_to_critical

-- Where no de-escalation threshold lies above the escalation threshold of the same level, no fill
-- ratio makes the level go up and, at the next evaluation, down again, or down and up again.
pub no_oscillation :
    (m : Machine) (now : ℕ) (fill : Fill) (l : Level)
    → HasBands m.thresholds
    → change m fill ≡ some l
    → change (arrive m now l) fill ≢ some m.level
unfolding change
no_oscillation m now fill l bands e back = ground (
  arith,
  mul_mono _ _ fill.bottom bands.elevated_band,
  mul_mono _ _ fill.bottom bands.high_band,
  mul_mono _ _ fill.bottom bands.critical_band,
)

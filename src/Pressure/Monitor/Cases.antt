-- ===== src/Pressure/Monitor/Cases.antt =====
-- The phases of a tick, as one rule for the properties that a tick keeps.
use fapilog.Prelude.{◌+◌, ◌≤◌, ◌≡◌, ◌⊎◌, inl, inr, true, leb, Bool-cases}
use fapilog.Pressure.{Level, index, Machine, evaluate}
use fapilog.Pressure.Steps.{IsAdjacent, arrive, evaluate_step}
use fapilog.Pressure.Cooldown.{same, adjacent_differs}
use fapilog.Pressure.Monitor.{
  Monitor, Readings, tick, evaluate_level, level_changed, evaluate_shedding, fill_ratio, capacity,
}

module _ {ℓ} (P : Monitor → Type ℓ) (s : Monitor) (clock : Readings) where
  evaluate_level-cases :
      (machine : Machine)
      → (machine ≡ s.machine)
        ⊎ ((l : Level) × (machine ≡ arrive s.machine clock.evaluated l)
            × IsAdjacent s.machine.level l
            × ((s.machine.first_evaluation ≡ true)
                ⊎ (s.machine.last_transition_time + s.machine.cooldown ≤ clock.evaluated)))
      → P s
      → ((l : Level)
          → IsAdjacent s.machine.level l
          → P (level_changed s s.machine.level (arrive s.machine clock.evaluated l) clock.changed))
      → P (evaluate_level s s.machine.level machine clock.changed)
  unfolding evaluate_level
  evaluate_level-cases machine (inl e) stay move = rw e (rw (same (index s.machine.level)) stay)
  evaluate_level-cases machine (inr (l, e, near, late)) stay move =
      rw e (rw (adjacent_differs s.machine.level l near) (move l near))

  -- What holds of the monitor, and after each change to a neighbouring level, and is kept by
  -- shedding, holds after the tick.
  pub tick-cases :
      P s
      → ((l : Level)
          → IsAdjacent s.machine.level l
          → P (level_changed s s.machine.level (arrive s.machine clock.evaluated l) clock.changed))
      → ((s' : Monitor) → P s' → P (evaluate_shedding s' clock.shed))
      → P (tick s clock)
  unfolding tick
  tick-cases stay move shed = elim (Bool-cases (leb (capacity s.queue) 0)) [
    | inl idle ↦ rw idle stay
    | inr busy ↦ rw busy (
        shed _ (
          evaluate_level-cases (evaluate s.machine clock.evaluated (fill_ratio s))
            (evaluate_step s.machine clock.evaluated (fill_ratio s)) stay move))
  ]

-- ===== src/Pressure/Monitor/Times.antt =====
-- The time spent at each level adds up.
use fapilog.Prelude.{ℕ, ◌+◌, ◌-◌, ◌≤◌, ◌≡◌, List, [], ◌∷◌, arith}
use fapilog.Breaker.{CircuitState, closed, open_circuit, half_open}
use fapilog.Pressure.{Level, normal, elevated, high, critical, index, Machine}
use fapilog.Pressure.Monitor.{
  on_circuit_state_change, Monitor, LogQueue, Readings, init, tick, level_changed,
  evaluate_shedding, add_time, snapshot_time_at_level,
}
use fapilog.Pressure.Monitor.Cases.{tick-cases}
use fapilog.Pressure.Monitor.Counters.{Sample, notified, sampled, ticks}

abbrev pub total : (Level → ℕ) → ℕ
total times = times normal + times elevated + times high + times critical

total-add_time :
    (times : Level → ℕ) (l : Level) (spent : ℕ)
    → total (add_time times l spent) ≡ total times + spent
unfolding add_time index
total-add_time times l spent = ground arith

-- the closed intervals reach from `start` to the last change of level
abbrev IsAccounted : ℕ → Monitor → Type 0
IsAccounted start s = start + total s.time_at_level ≡ s.level_entered_at

-- the clock never reads less than the time at which the level was entered
abbrev pub IsMonotone : Monitor → List Sample → Type 0
IsMonotone s [] = Unit
IsMonotone s (x ∷ samples) =
    ((sampled s x).level_entered_at ≤ x.clock.changed)
    × IsMonotone (tick (sampled s x) x.clock) samples

shedding-IsAccounted :
    (start : ℕ) (s : Monitor) (now : ℕ)
    → IsAccounted start s
    → IsAccounted start (evaluate_shedding s now)
unfolding evaluate_shedding
shedding-IsAccounted start s now a = ground arith

tick-IsAccounted :
    (start : ℕ) (s : Monitor) (clock : Readings)
    → s.level_entered_at ≤ clock.changed
    → IsAccounted start s
    → IsAccounted start (tick s clock)
tick-IsAccounted start s clock mono a =
    tick-cases (IsAccounted start) s clock a
      (λ l near.
        unfold level_changed in
        omega (
          arith,
          total-add_time s.time_at_level s.machine.level (clock.changed - s.level_entered_at),
        ))
      λ s' a'. shedding-IsAccounted start s' clock.shed a'

notified-IsAccounted :
    (start : ℕ) (s : Monitor) (circuits : List CircuitState)
    → IsAccounted start s
    → IsAccounted start (notified s circuits)
unfolding on_circuit_state_change
notified-IsAccounted start s [] a = a
notified-IsAccounted start s (open_circuit ∷ circuits) a =
    notified-IsAccounted start (on_circuit_state_change s open_circuit) circuits a
notified-IsAccounted start s (closed ∷ circuits) a =
    notified-IsAccounted start (on_circuit_state_change s closed) circuits a
notified-IsAccounted start s (half_open ∷ circuits) a = notified-IsAccounted start s circuits a

ticks-IsAccounted :
    (start : ℕ) (s : Monitor) (samples : List Sample)
    → IsMonotone s samples
    → IsAccounted start s
    → IsAccounted start (ticks s samples)
unfolding ticks
ticks-IsAccounted start s [] mono a = a
ticks-IsAccounted start s (x ∷ samples) mono a =
    ticks-IsAccounted start (tick (sampled s x) x.clock) samples mono.1 (
      tick-IsAccounted start (sampled s x) x.clock mono.0
        (notified-IsAccounted start (record s { queue = x.queue }) x.circuits a))

-- With a clock that does not run backwards, the four times of a snapshot add up to the time since
-- the monitor was built.
pub snapshot-total :
    (queue : LogQueue) (machine : Machine) (per_open shed recover start now : ℕ)
    (samples : List Sample)
    → IsMonotone (init queue machine per_open shed recover start) samples
    → (ticks (init queue machine per_open shed recover start) samples).level_entered_at ≤ now
    → start
        + total (
            snapshot_time_at_level
              (ticks (init queue machine per_open shed recover start) samples)
              now)
      ≡ now
unfolding snapshot_time_at_level init
snapshot-total queue machine per_open shed recover start now samples mono late =
    let s = ticks (init queue machine per_open shed recover start) samples in
    omega (
      arith,
      ticks-IsAccounted start (init queue machine per_open shed recover start) samples mono
          (omega arith),
      total-add_time s.time_at_level s.machine.level (now - s.level_entered_at),
    )

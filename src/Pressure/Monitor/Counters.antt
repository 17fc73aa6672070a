-- ===== src/Pressure/Monitor/Counters.antt =====
-- The counters, the peak and the dispatched changes of a monitor, over any number of ticks.
use fapilog.Prelude.{ℕ, ◌+◌, ◌≤◌, ◌≡◌, List, [], ◌∷◌, length, length-append, arith}
use fapilog.Breaker.{CircuitState, closed, open_circuit, half_open}
use fapilog.Pressure.{Level, Thresholds, index}
use fapilog.Pressure
use fapilog.Pressure.Steps.{IsAdjacent, arrive}
use fapilog.Pressure.Monitor.{
  Monitor, LogQueue, Readings, init, tick, level_changed, evaluate_shedding,
  on_circuit_state_change,
}
use fapilog.Pressure.Monitor.Cases.{tick-cases}

-- The ups and downs account for the level and for the callbacks, and the peak is no lower.
pub record IsCounted (s : Monitor) : Type 0 where
  pub balance : s.escalation_count ≡ index s.machine.level + s.deescalation_count
  pub dispatches : length s.dispatched ≡ s.escalation_count + s.deescalation_count
  pub peak : index s.machine.level ≤ index s.peak_level

level_changed-IsCounted :
    (s : Monitor) (l : Level) (now at : ℕ)
    → IsAdjacent s.machine.level l
    → IsCounted s
    → IsCounted (level_changed s s.machine.level (arrive s.machine at l) now)
unfolding level_changed
level_changed-IsCounted s l now at near c =
    ground (arith, near, c, length-append s.dispatched ((s.machine.level, l) ∷ []))

shedding-IsCounted : (s : Monitor) (now : ℕ) → IsCounted s → IsCounted (evaluate_shedding s now)
unfolding evaluate_shedding
shedding-IsCounted s now c = ground (arith, c)

tick-IsCounted : (s : Monitor) (clock : Readings) → IsCounted s → IsCounted (tick s clock)
tick-IsCounted s clock c =
    tick-cases IsCounted s clock c
      (λ l near. level_changed-IsCounted s l clock.changed clock.evaluated near c)
      λ s' c'. shedding-IsCounted s' clock.shed c'

-- what has happened before a tick, and the clock that the tick reads: the queue as it is then, and
-- the circuits that have changed since the last tick
pub record Sample : Type 0 where
  pub queue : LogQueue
  pub circuits : List CircuitState
  pub clock : Readings

abbrev pub notified : Monitor → List CircuitState → Monitor
notified s [] = s
notified s (c ∷ circuits) = notified (on_circuit_state_change s c) circuits

abbrev pub sampled : Monitor → Sample → Monitor
sampled s x = notified (record s { queue = x.queue }) x.circuits

unfoldable pub ticks : Monitor → List Sample → Monitor
ticks s [] = s
ticks s (x ∷ samples) = ticks (tick (sampled s x) x.clock) samples

notified-IsCounted :
    (s : Monitor) (circuits : List CircuitState) → IsCounted s → IsCounted (notified s circuits)
unfolding on_circuit_state_change
notified-IsCounted s [] c = c
notified-IsCounted s (open_circuit ∷ circuits) c =
    notified-IsCounted (on_circuit_state_change s open_circuit) circuits (ground (arith, c))
notified-IsCounted s (closed ∷ circuits) c =
    notified-IsCounted (on_circuit_state_change s closed) circuits (ground (arith, c))
notified-IsCounted s (half_open ∷ circuits) c = notified-IsCounted s circuits c

ticks-IsCounted : (s : Monitor) (samples : List Sample) → IsCounted s → IsCounted (ticks s samples)
unfolding ticks
ticks-IsCounted s [] c = c
ticks-IsCounted s (x ∷ samples) c = ticks-IsCounted (tick (sampled s x) x.clock) samples (
    tick-IsCounted (sampled s x) x.clock
      (notified-IsCounted (record s { queue = x.queue }) x.circuits (ground (arith, c))))

-- After any ticks of a new monitor, with any queue at each of them and any changes of circuits
-- between them, the escalations are the de-escalations and the level's index together, the callbacks
-- were called once for each of them, and the peak is at least the level.
pub ticks-init-IsCounted :
    (queue : LogQueue) (t : Thresholds) (cooldown per_open shed recover now : ℕ)
    (samples : List Sample)
    → IsCounted (ticks (init queue (Pressure.init t cooldown) per_open shed recover now) samples)
unfolding init Pressure.init index
ticks-init-IsCounted queue t cooldown per_open shed recover now samples =
    ticks-IsCounted _ samples
      (record { balance = omega arith; dispatches = omega arith; peak = omega arith })

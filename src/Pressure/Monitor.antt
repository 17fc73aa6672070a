-- ===== src/Pressure/Monitor.antt =====
-- core/pressure.py, PressureMonitor: one tick samples the queue, evaluates the level, keeps the
-- counters and sheds the protected queue. `dispatched` holds the (old, new) pairs that the
-- registered callbacks were called with, oldest first. The diagnostic writer, the metric and the
-- gauges only observe: their failures are contained, and they have no part in the state.
mod Cases
pub mod Counters
pub mod Times
pub mod Shedding
pub mod Boost
use fapilog.Prelude.{
  ℕ, suc, ◌+◌, ◌-◌, ◌*◌, ◌≤◌, Bool, true, false, not, ◌&&◌, List, [], ◌∷◌, ◌++◌, ltb, leb, ◌==◌,
  length, if◌then◌else◌,
}
use fapilog.Prelude.Value.{Value}
use fapilog.Queue.Ring
use fapilog.Queue.Dual
use fapilog.Queue.Dual.{Dual}
use fapilog.Breaker.{CircuitState, closed, open_circuit, half_open}
use fapilog.Pressure.{
  Level, normal, elevated, high, critical, index, Fill, Thresholds, Machine, evaluate, reaches,
}
use fapilog.Pressure

-- the queue that is watched: a DualQueue, or another one with its capacity and its depth
pub data LogQueue : Type 0 where
  other : ℕ → ℕ → LogQueue
  dual : Dual Value → LogQueue

pub record Monitor : Type 0 where
  pub queue : LogQueue
  pub machine : Machine
  pub circuit_boost : ℕ
  pub circuit_boost_per_open : ℕ
  pub shed_threshold : ℕ
  pub recover_threshold : ℕ
  pub escalation_count : ℕ
  pub deescalation_count : ℕ
  pub peak_level : Level
  pub level_entered_at : ℕ
  pub time_at_level : Level → ℕ
  pub shed_activations : ℕ
  pub shed_total : ℕ
  pub shed_started_at : ℕ
  pub dispatched : List (Level × Level)
  pub stopped : Bool
  pub filters_swapped : ℕ
  pub workers_scaled : ℕ
  pub peak_workers : ℕ
  pub batch_resize_count : ℕ

abbrev pub scale_of : Monitor → ℕ
scale_of s = s.machine.thresholds.scale

-- a new monitor, built when the clock reads `now`
unfoldable pub init : LogQueue → Machine → ℕ → ℕ → ℕ → ℕ → Monitor
init queue machine per_open shed recover now = record {
  queue = queue;
  machine = machine;
  circuit_boost = 0;
  circuit_boost_per_open = per_open;
  shed_threshold = shed;
  recover_threshold = recover;
  escalation_count = 0;
  deescalation_count = 0;
  peak_level = normal;
  level_entered_at = now;
  time_at_level = λ l. 0;
  shed_activations = 0;
  shed_total = 0;
  shed_started_at = 0;
  dispatched = [];
  stopped = false;
  filters_swapped = 0;
  workers_scaled = 0;
  peak_workers = 0;
  batch_resize_count = 0;
}

unfoldable pub record_filter_swap : Monitor → Monitor
record_filter_swap s = record s { filters_swapped = s.filters_swapped + 1 }

unfoldable pub record_worker_scaling : Monitor → ℕ → Monitor
record_worker_scaling s count = record s {
  workers_scaled = s.workers_scaled + 1;
  peak_workers = if ltb s.peak_workers count then count else s.peak_workers;
}

unfoldable pub record_batch_resize : Monitor → Monitor
record_batch_resize s = record s { batch_resize_count = s.batch_resize_count + 1 }

-- `max(0.0, boost - per_open)` is the subtraction of ℕ
unfoldable pub on_circuit_state_change : Monitor → CircuitState → Monitor
on_circuit_state_change s open_circuit = record s {
  circuit_boost = s.circuit_boost + s.circuit_boost_per_open;
}
on_circuit_state_change s closed = record s {
  circuit_boost = s.circuit_boost - s.circuit_boost_per_open;
}
on_circuit_state_change s half_open = s

unfoldable pub stop : Monitor → Monitor
stop s = record s { stopped = true }

capacity : LogQueue → ℕ
capacity (other c d) = c
capacity (dual q) = q.main.capacity

depth : LogQueue → ℕ
unfolding Ring.qsize
depth (other c d) = d
depth (dual q) = Ring.qsize q.main

-- min(1.0, depth / capacity + boost), the boost being a numerator over the scale
fill_ratio : Monitor → Fill
unfolding capacity depth
fill_ratio s =
    let top = depth s.queue * scale_of s + s.circuit_boost * capacity s.queue in
    let bottom = capacity s.queue * scale_of s in
    if leb bottom top then record { top = 1; bottom = 1 } else record { top = top; bottom = bottom }

-- the clock as one tick reads it: in `evaluate`, at a change of level, and when shedding
pub record Readings : Type 0 where
  pub evaluated : ℕ
  pub changed : ℕ
  pub shed : ℕ

add_time : (Level → ℕ) → Level → ℕ → Level → ℕ
add_time times l spent k = if index k == index l then times k + spent else times k

-- the branch of a tick in which the level has changed
pub level_changed : Monitor → Level → Machine → ℕ → Monitor
unfolding add_time index
level_changed s old machine now =
    let up = ltb (index old) (index machine.level) in
    record s {
      machine = machine;
      time_at_level = add_time s.time_at_level old (now - s.level_entered_at);
      level_entered_at = now;
      escalation_count = if up then s.escalation_count + 1 else s.escalation_count;
      deescalation_count = if up then s.deescalation_count else s.deescalation_count + 1;
      peak_level =
          if ltb (index s.peak_level) (index machine.level) then machine.level else s.peak_level;
      dispatched = s.dispatched ++ (old, machine.level) ∷ [];
    }

evaluate_level : Monitor → Level → Machine → ℕ → Monitor
unfolding level_changed
evaluate_level s old machine now =
    if index machine.level == index old
    then record s { machine = machine }
    else level_changed s old machine now

unfoldable pub protected_fill : Dual Value → Fill
unfolding Ring.qsize
protected_fill q = record { top = Ring.qsize q.protected; bottom = q.protected.capacity }

shed_dual : Monitor → Dual Value → ℕ → Monitor
unfolding protected_fill Dual.activate_shedding Dual.deactivate_shedding
shed_dual s q now =
    if leb q.protected.capacity 0
    then s
    else if not q.shedding && reaches (scale_of s) (protected_fill q) s.shed_threshold
    then record s {
      queue = dual (Dual.activate_shedding q);
      shed_activations = s.shed_activations + 1;
      shed_started_at = now;
    }
    else if q.shedding && not (reaches (scale_of s) (protected_fill q) s.recover_threshold)
    then record s {
      queue = dual (Dual.deactivate_shedding q);
      shed_total = s.shed_total + (now - s.shed_started_at);
    }
    else s

shed_queue : Monitor → LogQueue → ℕ → Monitor
unfolding shed_dual
shed_queue s (other c d) now = s
shed_queue s (dual q) now = shed_dual s q now

unfoldable pub evaluate_shedding : Monitor → ℕ → Monitor
unfolding shed_queue
evaluate_shedding s now = shed_queue s s.queue now

unfoldable pub tick : Monitor → Readings → Monitor
unfolding capacity fill_ratio evaluate_level evaluate_shedding
tick s clock =
    if leb (capacity s.queue) 0
    then s
    else evaluate_shedding
        (evaluate_level s s.machine.level (evaluate s.machine clock.evaluated (fill_ratio s))
          clock.changed)
        clock.shed

-- the times of `snapshot`: those so far, with the current level and the current shedding finalised
unfoldable pub snapshot_time_at_level : Monitor → ℕ → Level → ℕ
unfolding add_time index
snapshot_time_at_level s now = add_time s.time_at_level s.machine.level (now - s.level_entered_at)

shed_running : Monitor → LogQueue → ℕ → ℕ
shed_running s (other c d) now = 0
shed_running s (dual q) now = if q.shedding then now - s.shed_started_at else 0

unfoldable pub snapshot_shed_total : Monitor → ℕ → ℕ
unfolding shed_running
snapshot_shed_total s now = s.shed_total + shed_running s s.queue now

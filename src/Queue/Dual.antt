-- ===== src/Queue/Dual.antt =====
-- core/concurrency.py, DualQueue: protected levels have a bounded queue of their own.
pub mod Order
pub mod Drain
mod Tests
use fapilog.Prelude.{
  ℕ, zero, suc, ◌+◌, Bool, true, false, ◌&&◌, Option, none, some, List, [], ◌∷◌, ◌++◌, Text,
  if◌then◌else◌,
}
use fapilog.Prelude.Value.{Value}
use fapilog.Queue.Level.{is_protected}
use fapilog.Queue.Ring
use fapilog.Queue.Ring.{Ring}

pub record Dual (A : Type 0) : Type 0 where
  pub main : Ring A
  pub protected : Ring A
  pub protected_levels : List Text
  pub main_drops : ℕ
  pub protected_drops : ℕ
  pub shedding : Bool

fresh_pair : {A : Type 0} → Option (Ring A) → Option (Ring A) → List Text → Option (Dual A)
fresh_pair (some main) (some protected) levels = some (record {
  main = main;
  protected = protected;
  protected_levels = levels;
  main_drops = 0;
  protected_drops = 0;
  shedding = false;
})
fresh_pair _ _ levels = none

-- `none` is a ValueError of one of the two queues
unfoldable pub init : {A : Type 0} → ℕ → ℕ → List Text → Option (Dual A)
unfolding fresh_pair
init main_capacity protected_capacity levels =
    fresh_pair (Ring.init main_capacity) (Ring.init protected_capacity) levels

unfoldable pub activate_shedding : {A : Type 0} → Dual A → Dual A
activate_shedding q = record q { shedding = true }

unfoldable pub deactivate_shedding : {A : Type 0} → Dual A → Dual A
deactivate_shedding q = record q { shedding = false }

protected_enqueued : Dual Value → Ring Value × Bool → Dual Value × Bool
protected_enqueued q (r, true) = (record q { protected = r }, true)
protected_enqueued q (r, false) =
    (record q { protected = r; protected_drops = q.protected_drops + 1 }, false)

main_enqueued : Dual Value → Ring Value × Bool → Dual Value × Bool
main_enqueued q (r, true) = (record q { main = r }, true)
main_enqueued q (r, false) = (record q { main = r; main_drops = q.main_drops + 1 }, false)

unfoldable pub try_enqueue : Dual Value → Value → Dual Value × Bool
unfolding protected_enqueued main_enqueued
try_enqueue q item =
    if is_protected q.protected_levels item
    then protected_enqueued q (Ring.try_enqueue q.protected item)
    else main_enqueued q (Ring.try_enqueue q.main item)

unfoldable pub dequeue_main : {A : Type 0} → Dual A → Ring A × Option A → Dual A × Option A
dequeue_main q (r, item) = (record q { main = r }, item)

unfoldable pub dequeue_protected : {A : Type 0} → Dual A → Ring A × Option A → Dual A × Option A
unfolding dequeue_main
dequeue_protected q (r, some item) = (record q { protected = r }, some item)
dequeue_protected q (r, none) =
    if q.shedding then (q, none) else dequeue_main q (Ring.try_dequeue q.main)

unfoldable pub try_dequeue : {A : Type 0} → Dual A → Dual A × Option A
unfolding dequeue_protected
try_dequeue q = dequeue_protected q (Ring.try_dequeue q.protected)

-- One of the two loops of `drain_into`; the fuel is one more than the queue holds.
unfoldable pub drain_ring : {A : Type 0} → ℕ → Ring A → List A → Ring A × List A
drain_ring zero r batch = (r, batch)
drain_ring (suc fuel) r batch =
    let (r', next) = Ring.try_dequeue r in
    elim next [ none ↦ (r', batch) | some item ↦ drain_ring fuel r' (batch ++ item ∷ []) ]

unfoldable pub drain_into : {A : Type 0} → Dual A → List A → Dual A × List A
unfolding drain_ring
drain_into q batch =
    let (p, batch') = drain_ring (suc (Ring.qsize q.protected)) q.protected batch in
    let (m, batch'') = drain_ring (suc (Ring.qsize q.main)) q.main batch' in
    (record q { protected = p; main = m }, batch'')

unfoldable pub qsize : {A : Type 0} → Dual A → ℕ
qsize q = Ring.qsize q.main + Ring.qsize q.protected

unfoldable pub is_empty : {A : Type 0} → Dual A → Bool
is_empty q = Ring.is_empty q.main && Ring.is_empty q.protected

-- `is_full` and `main_is_full`
unfoldable pub main_is_full : {A : Type 0} → Dual A → Bool
main_is_full q = Ring.is_full q.main

unfoldable pub protected_is_full : {A : Type 0} → Dual A → Bool
protected_is_full q = Ring.is_full q.protected

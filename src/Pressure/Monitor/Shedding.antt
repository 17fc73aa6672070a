-- ===== src/Pressure/Monitor/Shedding.antt =====
-- Shedding of the protected queue, with its own two thresholds.
use fapilog.Prelude.{
  ℕ, ◌+◌, ◌-◌, ◌<◌, ◌≡◌, Bool, not, ◌&&◌, arith, Bool-cases, inl, inr, if◌then◌else◌,
}
use fapilog.Prelude.Value.{Value}
use fapilog.Queue.Dual.{Dual}
use fapilog.Pressure.{reaches}
use fapilog.Pressure.Monitor.{
  Monitor, dual, evaluate_shedding, shed_queue, scale_of, protected_fill,
}

-- whether the queue sheds after the evaluation
abbrev pub sheds : Monitor → Dual Value → Bool
sheds s q =
    if q.shedding
    then reaches (scale_of s) (protected_fill q) s.recover_threshold
    else reaches (scale_of s) (protected_fill q) s.shed_threshold

-- For a DualQueue whose protected part has a capacity: shedding starts when the fill of that part
-- reaches the shed threshold and goes on while it reaches the recover threshold; each start is
-- counted, each end adds the time since the start; and no event of the queue is touched.
pub evaluate_shedding_lem :
    (s : Monitor) (q : Dual Value) (now : ℕ)
    → s.queue ≡ dual q
    → 0 < q.protected.capacity
    → let s' = evaluate_shedding s now in
      (s'.queue ≡ dual (record q { shedding = sheds s q }))
      × (s'.shed_activations
          ≡ (if not q.shedding && sheds s q then s.shed_activations + 1 else s.shed_activations))
      × (s'.shed_total ≡ (
          if q.shedding && not (sheds s q)
          then s.shed_total + (now - s.shed_started_at)
          else s.shed_total))
unfolding evaluate_shedding
evaluate_shedding_lem s q now e h =
    rw (e, shed_queue)
      (elim (Bool-cases q.shedding) [
        | inl on ↦ ground (arith, on, e)
        | inr off ↦ ground (arith, off, e)
      ])

-- ===== src/Queue/Dual/Drain.antt =====
-- DualQueue.drain_into: both loops end, and everything that waited is appended to the batch.
use fapilog.Prelude.{
  ℕ, zero, suc, ◌≤◌, ◌≡◌, refl, List, [], ◌∷◌, ◌++◌, length, append_assoc, append-nil, arith, ◌∙◌,
}
use fapilog.Queue.Ring
use fapilog.Queue.Ring.{Ring}
use fapilog.Queue.Dual.{Dual, drain_ring, drain_into}

drain_ring-empties :
    {A : Type 0} (fuel : ℕ) (r : Ring A) (waiting batch : List A)
    → r.dq ≡ waiting
    → length waiting ≤ fuel
    → drain_ring (suc fuel) r batch ≡ (record r { dq = [] }, batch ++ waiting)
unfolding drain_ring Ring.try_dequeue Ring.pop_left
drain_ring-empties fuel r [] batch e h = rw (e, Ring.pop_left) (ground (arith, append-nil batch))
drain_ring-empties zero r (item ∷ rest) batch e h = absurd (omega arith)
drain_ring-empties (suc fuel) r (item ∷ rest) batch e h =
    rw (e, Ring.pop_left)
      (drain_ring-empties fuel (record r { dq = rest }) rest (batch ++ item ∷ []) refl (omega arith)
        ∙ ground (arith, append_assoc batch (item ∷ []) rest))

-- `drain_into` leaves both parts empty, shedding or not, and appends to the batch first all
-- protected events and then all main ones, each oldest first.
pub drain_into_lem :
    {A : Type 0} (q : Dual A) (batch : List A)
    → drain_into q batch ≡ (
      record q { main = record q.main { dq = [] }; protected = record q.protected { dq = [] } },
      (batch ++ q.protected.dq) ++ q.main.dq,
    )
unfolding drain_into Ring.qsize
drain_into_lem q batch = rw (
  drain_ring-empties (length q.protected.dq) q.protected q.protected.dq batch refl (omega arith),
  drain_ring-empties (length q.main.dq) q.main q.main.dq (batch ++ q.protected.dq) refl
      (omega arith),
)

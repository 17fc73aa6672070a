-- ===== src/Worker/Loop/Waiting.antt =====
-- What waits in a queue, ring or dual, in the order in which it is handed out.
use fapilog.Prelude.{
  ℕ, zero, suc, ◌≤◌, ◌≡◌, refl, inl, inr, ap, ◌∙◌, Option, none, some, List, [], ◌∷◌, ◌++◌, length,
  append_assoc, append-nil, Bool-cases, arith,
}
use fapilog.Prelude.Value.{Fields}
use fapilog.Queue.Ring
use fapilog.Queue.Ring.{Ring}
use fapilog.Queue.Dual
use fapilog.Queue.Dual.{Dual}
use fapilog.Queue.Dual.Drain.{drain_into_lem}
use fapilog.Worker.Loop.{
  Loop, drain_loop, drain_from, drain_queue, try_dequeue, WorkerQueue, ring, dual,
}

-- the events in the order in which the queue hands them out
abbrev pub waiting : WorkerQueue → List Fields
waiting (ring q) = q.dq
waiting (dual q) = q.protected.dq ++ q.main.dq

abbrev pub emptied : WorkerQueue → WorkerQueue
emptied (ring q) = ring (record q { dq = [] })
emptied (dual q) =
    dual (record q { main = record q.main { dq = [] }; protected = record q.protected { dq = [] } })

pub waiting-emptied : (q : WorkerQueue) → waiting (emptied q) ≡ []
waiting-emptied (ring q) = refl
waiting-emptied (dual q) = refl

drain_loop-empties :
    (fuel : ℕ) (q : Ring Fields) (waiting batch : List Fields)
    → q.dq ≡ waiting
    → length waiting ≤ fuel
    → drain_loop (suc fuel) q batch ≡ (record q { dq = [] }, batch ++ waiting)
unfolding drain_loop Ring.try_dequeue Ring.pop_left
drain_loop-empties fuel q [] batch e h = rw (e, Ring.pop_left) (ground (arith, append-nil batch))
drain_loop-empties zero q (item ∷ rest) batch e h = absurd (omega arith)
drain_loop-empties (suc fuel) q (item ∷ rest) batch e h =
    rw (e, Ring.pop_left)
      (drain_loop-empties fuel (record q { dq = rest }) rest (batch ++ item ∷ []) refl (omega arith)
        ∙ ground (arith, append_assoc batch (item ∷ []) rest))

drain_from_lem :
    (q : WorkerQueue) (batch : List Fields) → drain_from q batch ≡ (emptied q, batch ++ waiting q)
unfolding drain_from Ring.qsize
drain_from_lem (ring q) batch =
    rw (drain_loop-empties (length q.dq) q q.dq batch refl (omega arith)) refl
drain_from_lem (dual q) batch =
    ap (λ r. (dual r.0, r.1)) (drain_into_lem q batch)
    ∙ ap (λ b. (emptied (dual q), b)) (append_assoc batch q.protected.dq q.main.dq)

-- `_drain_queue` ends with the queue empty, and everything that waited is in the batch, in the order
-- in which the queue would have handed it out but for shedding.
pub drain_queue_lem :
    (w : Loop)
    → drain_queue w ≡ record w { queue = emptied w.queue; batch = w.batch ++ waiting w.queue }
unfolding drain_queue
drain_queue_lem w = ap (λ r. record w { queue = r.0; batch = r.1 }) (drain_from_lem w.queue w.batch)

-- what a dequeue hands out is the first event that waits
abbrev pub Taken : List Fields → WorkerQueue × Option Fields → Type 0
Taken items (q, none) = waiting q ≡ items
Taken items (q, some item) = item ∷ waiting q ≡ items

ring-Taken :
    (q : Ring Fields) (items : List Fields)
    → q.dq ≡ items
    → Taken items (let (q', item) = Ring.pop_left q items in (ring q', item))
unfolding Ring.pop_left
ring-Taken q [] e = e
ring-Taken q (item ∷ rest) e = refl

main-Taken :
    (q : Dual Fields) (main : List Fields)
    → q.main.dq ≡ main
    → q.protected.dq ≡ []
    → Taken main
        (let (q', item) = Dual.dequeue_main q (Ring.pop_left q.main main) in (dual q', item))
unfolding Ring.pop_left Dual.dequeue_main
main-Taken q [] e f = rw (f, e) refl
main-Taken q (item ∷ rest) e f = rw f refl

dual-Taken :
    (q : Dual Fields) (protected : List Fields)
    → q.protected.dq ≡ protected
    → Taken (protected ++ q.main.dq) (
        let (q', item) = Dual.dequeue_protected q (Ring.pop_left q.protected protected) in
        (dual q', item))
unfolding Ring.pop_left Dual.dequeue_protected Ring.try_dequeue
dual-Taken q (item ∷ rest) e = refl
dual-Taken q [] e = elim (Bool-cases q.shedding) [
  | inl s ↦ rw s (ap (λ p. p ++ q.main.dq) e)
  | inr s ↦ rw s (main-Taken q q.main.dq refl e)
]

pub try_dequeue-Taken : (q : WorkerQueue) → Taken (waiting q) (try_dequeue q)
unfolding try_dequeue Ring.try_dequeue Dual.try_dequeue
try_dequeue-Taken (ring q) = ring-Taken q q.dq refl
try_dequeue-Taken (dual q) = dual-Taken q q.protected.dq refl

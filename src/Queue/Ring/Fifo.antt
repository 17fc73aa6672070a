-- ===== src/Queue/Ring/Fifo.antt =====
-- NonBlockingRingQueue under any sequence of operations: bounded, lossless, first in first out.
use fapilog.Prelude.{
  ℕ, ◌≤◌, ◌≡◌, refl, Bool, true, false, Option, none, some, List, [], ◌∷◌, ◌++◌, length,
  length-append, append_assoc, arith,
}
use fapilog.Queue.Ring.{Ring, init, try_enqueue, try_dequeue, pop_left}

pub data Op {ℓ} (A : Type ℓ) : Type ℓ where
  enqueue : A → Op A
  dequeue : Op A

-- A queue with what it has accepted and what it has handed out so far, oldest first.
pub record History {ℓ} (A : Type ℓ) : Type ℓ where
  pub queue : Ring A
  pub accepted : List A
  pub served : List A

module _ {ℓ} {A : Type ℓ} where
  abbrev pub after_enqueue : History A → A → Ring A × Bool → History A
  after_enqueue h item (q, true) = record h { queue = q; accepted = h.accepted ++ item ∷ [] }
  after_enqueue h item (q, false) = record h { queue = q }

  abbrev pub after_dequeue : History A → Ring A × Option A → History A
  after_dequeue h (q, none) = record h { queue = q }
  after_dequeue h (q, some item) = record h { queue = q; served = h.served ++ item ∷ [] }

  pub step : History A → Op A → History A
  step h (enqueue item) = after_enqueue h item (try_enqueue h.queue item)
  step h dequeue = after_dequeue h (try_dequeue h.queue)

  pub run : History A → List (Op A) → History A
  run h [] = h
  run h (op ∷ ops) = run (step h op) ops

  -- The queue holds what was accepted and not yet served, in order, within its capacity.
  pub record Tracks (capacity : ℕ) (h : History A) : Type ℓ where
    pub fixed : h.queue.capacity ≡ capacity
    pub bounded : length h.queue.dq ≤ capacity
    pub in_order : h.accepted ≡ h.served ++ h.queue.dq

  enqueue-Tracks :
      (capacity : ℕ) (h : History A) (item : A)
      → Tracks capacity h
      → Tracks capacity (step h (enqueue item))
  unfolding step try_enqueue
  enqueue-Tracks capacity h item t = ground (
    arith,
    length-append h.queue.dq (item ∷ []),
    append_assoc h.served h.queue.dq (item ∷ []),
    t.fixed,
    t.bounded,
    t.in_order,
  )

  dequeue_from :
      (capacity : ℕ) (h : History A) (dq : List A)
      → h.queue.dq ≡ dq
      → Tracks capacity h
      → Tracks capacity (after_dequeue h (pop_left h.queue dq))
  unfolding pop_left
  dequeue_from capacity h [] e t = t
  dequeue_from capacity h (item ∷ rest) e t =
      ground (arith, append_assoc h.served (item ∷ []) rest, t.fixed, t.bounded, t.in_order)

  step-Tracks :
      (capacity : ℕ) (h : History A) (op : Op A) → Tracks capacity h → Tracks capacity (step h op)
  unfolding step try_dequeue
  step-Tracks capacity h (enqueue item) t = enqueue-Tracks capacity h item t
  step-Tracks capacity h dequeue t = dequeue_from capacity h h.queue.dq refl t

  pub run-Tracks :
      (capacity : ℕ) (h : History A) (ops : List (Op A))
      → Tracks capacity h
      → Tracks capacity (run h ops)
  unfolding run
  run-Tracks capacity h [] t = t
  run-Tracks capacity h (op ∷ ops) t =
      run-Tracks capacity (step h op) ops (step-Tracks capacity h op t)

  abbrev pub fresh : Ring A → History A
  fresh q = record { queue = q; accepted = []; served = [] }

  -- Whatever operations are made on a new queue, in whatever order, it never holds more than its
  -- capacity, and what it accepted is exactly what it handed out followed by what it holds.
  pub run-init-Tracks :
      (capacity : ℕ) (q : Ring A) (ops : List (Op A))
      → init capacity ≡ some q
      → Tracks capacity (run (fresh q) ops)
  unfolding init
  run-init-Tracks capacity q ops e =
      run-Tracks capacity (fresh q) ops
        (record { fixed = ground arith; bounded = ground arith; in_order = ground arith })

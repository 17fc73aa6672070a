-- ===== src/Queue/Priority/Size.antt =====
-- The size that PriorityAwareQueue computes, `len(dq) - tombstone_count`, under any operations.
use fapilog.Prelude.{ℕ, ◌+◌, ◌≤◌, ◌≡◌, some, List, [], ◌∷◌, Text, length, length-append, arith}
use fapilog.Prelude.Int.{ℤ, pos_part, neg_part, succ_ℤ, pred_ℤ}
use fapilog.Prelude.Value.{Value}
use fapilog.Queue.Priority.{Priority, init, try_enqueue, try_dequeue, evict, dequeue_from}

-- the computed size is within the capacity
abbrev pub IsWithin : Priority → Type 0
IsWithin q = length q.dq + neg_part q.tombstone_count ≤ q.capacity + pos_part q.tombstone_count

pub data Op : Type 0 where
  enqueue : ℕ → Op
  dequeue : Op

pub step : Priority → Op → Priority
step q (enqueue item) = (try_enqueue q item).0
step q dequeue = (try_dequeue q).0

pub run : Priority → List Op → Priority
run q [] = q
run q (op ∷ ops) = run (step q op) ops

evict-IsWithin :
    (q : Priority) (item : ℕ) (refs : List ℕ) → IsWithin q → IsWithin (evict q item refs).0
unfolding evict
evict-IsWithin q item [] w = w
evict-IsWithin q item (oldest ∷ refs) w =
    within q.tombstone_count (length q.dq) q.capacity (length-append q.dq (item ∷ [])) w
  where
    within :
        (t : ℤ) (n c : ℕ) {m : ℕ}
        → m ≡ n + 1
        → n + neg_part t ≤ c + pos_part t
        → m + neg_part (succ_ℤ t) ≤ c + pos_part (succ_ℤ t)
    within t n c e h = ground arith

enqueue-IsWithin : (q : Priority) (item : ℕ) → IsWithin q → IsWithin (try_enqueue q item).0
unfolding try_enqueue
enqueue-IsWithin q item w =
    ground (arith, length-append q.dq (item ∷ []), evict-IsWithin q item q.unprotected_refs w)

dequeue_from-IsWithin :
    (q : Priority) (rest : List ℕ)
    → length rest + neg_part q.tombstone_count ≤ q.capacity + pos_part q.tombstone_count
    → IsWithin (dequeue_from q rest).0
unfolding dequeue_from
dequeue_from-IsWithin q [] w = w
dequeue_from-IsWithin q (item ∷ rest) w = ground (
  arith,
  dequeue_from-IsWithin q rest,
  dequeue_from-IsWithin (record q { tombstone_count = pred_ℤ q.tombstone_count }) rest,
)

step-IsWithin : (q : Priority) (op : Op) → IsWithin q → IsWithin (step q op)
unfolding step try_dequeue
step-IsWithin q (enqueue item) w = enqueue-IsWithin q item w
step-IsWithin q dequeue w = dequeue_from-IsWithin q q.dq w

run-IsWithin : (q : Priority) (ops : List Op) → IsWithin q → IsWithin (run q ops)
unfolding run
run-IsWithin q [] w = w
run-IsWithin q (op ∷ ops) w = run-IsWithin (step q op) ops (step-IsWithin q op w)

-- Under any operations on a new queue the size that it computes, the length of the deque less the
-- tombstone count, stays within the capacity.
pub run-init-IsWithin :
    (capacity : ℕ) (levels : List Text) (heap : ℕ → Value) (q : Priority) (ops : List Op)
    → init capacity levels heap ≡ some q
    → IsWithin (run q ops)
unfolding init
run-init-IsWithin capacity levels heap q ops e = run-IsWithin q ops (ground arith)

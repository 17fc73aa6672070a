-- ===== src/Queue/Priority/Dequeue.antt =====
-- What PriorityAwareQueue.try_dequeue hands out: the oldest live event, past tombstones.
use fapilog.Prelude.{
  ℕ, ◌≡◌, refl, ap, Bool, true, false, ◌||◌, Option, none, some, List, [], ◌∷◌, ◌++◌, All, arith,
  Bool-cases, inl, inr,
}
use fapilog.Prelude.Int.{pred_ℤ}
use fapilog.Prelude.Value.{Value}
use fapilog.Queue.Priority.{Priority, try_dequeue, dequeue_from, is_null, is_tombstone}

-- a slot that a dequeue passes over
pub is_dead : (ℕ → Value) → ℕ → Bool
is_dead heap r = is_null (heap r) || is_tombstone (heap r)

-- the outcome of a dequeue over the slots `xs`
abbrev pub Outcome : (ℕ → Value) → List ℕ → Priority × Option ℕ → Type 0
Outcome heap xs (q, none) = All (λ r. is_dead heap r ≡ true) xs × (q.dq ≡ [])
Outcome heap xs (q, some item) =
    (skipped : List ℕ) × (xs ≡ skipped ++ item ∷ q.dq)
    × All (λ r. is_dead heap r ≡ true) skipped
    × (is_dead heap item ≡ false)

skip :
    (heap : ℕ → Value) (item : ℕ) (xs : List ℕ) (r : Priority × Option ℕ)
    → is_dead heap item ≡ true
    → Outcome heap xs r
    → Outcome heap (item ∷ xs) r
skip heap item xs (q, none) dead h = ((dead, h.0), h.1)
skip heap item xs (q, some found) dead h = (item ∷ h.0, ap (◌∷◌ item) h.1, (dead, h.2), h.3)

dequeue_from-Outcome : (q : Priority) (xs : List ℕ) → Outcome q.heap xs (dequeue_from q xs)
unfolding dequeue_from is_dead
dequeue_from-Outcome q [] = (tt, refl)
dequeue_from-Outcome q (item ∷ xs) = elim (Bool-cases (is_null (q.heap item))) [
  | inl nothing ↦
      rw nothing
        (skip q.heap item xs (dequeue_from q xs) (ground arith) (dequeue_from-Outcome q xs))
  | inr present ↦ elim (Bool-cases (is_tombstone (q.heap item))) [
    | inl dead ↦
        let q' : Priority = record q { tombstone_count = pred_ℤ q.tombstone_count } in
        rw (present, dead)
          (skip q.heap item xs (dequeue_from q' xs) (ground arith) (dequeue_from-Outcome q' xs))
    | inr alive ↦ rw (present, alive) ([], refl, tt, ground arith)
  ]
]

-- A dequeue hands out the oldest event that is no tombstone and leaves what stands behind it; it
-- hands out nothing exactly when there are only tombstones, and then empties the deque.
pub try_dequeue-Outcome : (q : Priority) → Outcome q.heap q.dq (try_dequeue q)
unfolding try_dequeue
try_dequeue-Outcome q = dequeue_from-Outcome q q.dq

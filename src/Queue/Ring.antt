-- ===== src/Queue/Ring.antt =====
-- core/concurrency.py, NonBlockingRingQueue: a bounded deque, first in first out.
pub mod Fifo
mod Tests
use fapilog.Prelude.{
  ℕ, ◌<◌, Bool, true, false, Option, none, some, List, [], ◌∷◌, ◌++◌, length, leb, ◌==◌,
  if◌then◌else◌,
}

pub record Ring {ℓ} (A : Type ℓ) : Type ℓ where
  pub capacity : ℕ
  pub dq : List A

module _ {ℓ} {A : Type ℓ} where
  -- `none` is the ValueError of a capacity that is not positive
  unfoldable pub init : ℕ → Option (Ring A)
  init capacity = if leb capacity 0 then none else some (record { capacity = capacity; dq = [] })

  unfoldable pub qsize : Ring A → ℕ
  qsize q = length q.dq

  unfoldable pub is_full : Ring A → Bool
  is_full q = leb q.capacity (length q.dq)

  unfoldable pub is_empty : Ring A → Bool
  is_empty q = length q.dq == 0

  unfoldable pub try_enqueue : Ring A → A → Ring A × Bool
  try_enqueue q item =
      if leb q.capacity (length q.dq)
      then (q, false)
      else (record q { dq = q.dq ++ item ∷ [] }, true)

  unfoldable pub pop_left : Ring A → List A → Ring A × Option A
  pop_left q [] = (q, none)
  pop_left q (item ∷ rest) = (record q { dq = rest }, some item)

  -- the pair (ok, item) is an option
  unfoldable pub try_dequeue : Ring A → Ring A × Option A
  unfolding pop_left
  try_dequeue q = pop_left q q.dq

-- ===== src/Queue/Priority/Overfill.antt =====
-- An event that has been handed out keeps its place among the eviction candidates.
use fapilog.Prelude.{
  ℕ, ◌≡◌, refl, ◌∙◌, Bool, true, false, not, ◌||◌, ◌==◌, List, [], ◌∷◌, ◌++◌, length, All, keep_if,
  keep_if-snoc, keep_if-cong, All-map, arith,
}
use fapilog.Prelude.Int.{pos}
use fapilog.Prelude.Value.{Value}
use fapilog.Queue.Level.{is_protected}
use fapilog.Queue.Priority.{Priority, try_enqueue, evict, is_tombstone, is_null, update, mark}

is_live : Value → Bool
is_live v = not (is_null v || is_tombstone v)

-- the events of the deque that a dequeue would hand out
pub live : Priority → List ℕ
unfolding is_live
live q = keep_if (λ r. is_live (q.heap r)) q.dq

live-apart :
    (heap : ℕ → Value) (gone : ℕ) (v : Value) (xs : List ℕ)
    → All (λ r. (r == gone) ≡ false) xs
    → keep_if (λ r. is_live (update heap gone v r)) xs ≡ keep_if (λ r. is_live (heap r)) xs
live-apart heap gone v xs apart = keep_if-cong _ _ xs (All-map _ _ xs (λ r e. rw e) apart)

-- A full queue takes one more live event, and so holds more than its capacity, whenever the oldest
-- eviction candidate has already left the deque: it has no tombstone, its deque is as long as the
-- capacity, the candidate is not in the deque, and the new event is protected, live and another
-- one. Nothing that the deque holds is evicted.
pub overfills :
    (q : Priority) (item gone : ℕ) (refs : List ℕ)
    → q.tombstone_count ≡ pos 0
    → length q.dq ≡ q.capacity
    → q.unprotected_refs ≡ gone ∷ refs
    → All (λ r. (r == gone) ≡ false) (q.dq ++ item ∷ [])
    → is_protected q.protected_levels (q.heap item) ≡ true
    → (is_null (q.heap item) || is_tombstone (q.heap item)) ≡ false
    → ((try_enqueue q item).1 ≡ true) × (live (try_enqueue q item).0 ≡ live q ++ item ∷ [])
unfolding live try_enqueue evict
overfills q item gone refs none_dead full stale apart shielded alive = rw (evicts) (
  refl,
  live-apart q.heap gone (mark (q.heap gone)) (q.dq ++ item ∷ []) apart
      ∙ keep_if-snoc (λ r. is_live (q.heap r)) q.dq item
      ∙ rw alive refl,
)
  where
    evicts : try_enqueue q item ≡ evict q item (gone ∷ refs)
    evicts = ground arith

-- ===== src/Queue/Ring/Tests.antt =====
-- Runs of NonBlockingRingQueue.
use fapilog.Prelude.{ℕ, ◌≡◌, refl, some, [], ◌∷◌}
use fapilog.Queue.Ring.{Ring, init, try_dequeue}
use fapilog.Queue.Ring.Fifo.{enqueue, dequeue, run, fresh, Tracks, run-init-Tracks}

abbrev empty_two : Ring ℕ
empty_two = record { capacity = 2; dq = [] }

abbrev full_two : Ring ℕ
full_two = record { capacity = 2; dq = 7 ∷ 8 ∷ [] }

dequeue_oldest : try_dequeue full_two ≡ (record full_two { dq = 8 ∷ [] }, some 7)
unfolding try_dequeue
dequeue_oldest = refl

run-init-Tracks_example :
    Tracks 2 (run (fresh empty_two) (enqueue 1 ∷ enqueue 2 ∷ enqueue 3 ∷ dequeue ∷ []))
unfolding init
run-init-Tracks_example =
    run-init-Tracks 2 empty_two (enqueue 1 ∷ enqueue 2 ∷ enqueue 3 ∷ dequeue ∷ []) refl

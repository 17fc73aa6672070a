-- ===== src/Worker/Loop/Stops.antt =====
-- The pass of the worker's loop that finds the stop flag set, and what it has flushed.
use fapilog.Prelude.{ℕ, ◌≡◌, refl, inl, inr, ap, ◌∙◌, true, some, [], ◌++◌, Any, Option-cases}
use fapilog.Worker.Flush.{flush_batch}
use fapilog.Worker.Flush.Failure.{IsPoison, flush_batch-fails}
use fapilog.Worker.Loop.{Loop, returns, Setup, flushed_as, flush_now, then_go, stopped, turn}
use fapilog.Worker.Loop.Waiting.{waiting, emptied, waiting-emptied, drain_queue_lem}

-- without poison in the batch a flush succeeds and moves the batch to the history
flush_now-succeeds :
    (setup : Setup) (w : Loop)
    → (Any (IsPoison setup.pipeline) w.batch → ⊥)
    → (w' : Loop) × (flush_now setup w ≡ some w')
      × (w'.flushed ≡ w.flushed ++ w.batch)
      × (w'.batch ≡ [])
      × (w'.queue ≡ w.queue)
unfolding flush_now flushed_as
flush_now-succeeds setup w sound = elim (Option-cases (flush_batch setup.pipeline w.sent w.batch)) [
  | inl e ↦ absurd (sound ((flush_batch-fails setup.pipeline w.sent w.batch).0 e))
  | inr (sent, e) ↦ (_, ap (flushed_as setup w) e, refl, refl, refl)
]

-- With the stop flag set, and unless an event that is left has data that are no dict, the next
-- pass returns; the batch and the queue are then empty, everything that was in them has been
-- flushed, first the batch and then the queue in its order (in a DualQueue the protected events and
-- then the main ones), and the drained event is set.
pub turn-returns :
    (setup : Setup) (now : ℕ) (w : Loop)
    → (Any (IsPoison setup.pipeline) (w.batch ++ waiting w.queue) → ⊥)
    → (w' : Loop) × (turn setup true now w ≡ returns w')
      × (w'.flushed ≡ w.flushed ++ (w.batch ++ waiting w.queue))
      × (w'.batch ≡ [])
      × (waiting w'.queue ≡ [])
      × (w'.drained_event ≡ true)
unfolding turn stopped then_go
turn-returns setup now w sound =
    let drained = record w { queue = emptied w.queue; batch = w.batch ++ waiting w.queue } in
    let (w', e, flushed, batch, queue) = flush_now-succeeds setup drained sound in
    (
      record w' { drained_event = true },
      ap (stopped setup) (drain_queue_lem w)
          ∙ ap (then_go drained (λ v. returns (record v { drained_event = true }))) e,
      flushed,
      batch,
      ap waiting queue ∙ waiting-emptied w.queue,
      refl,
    )

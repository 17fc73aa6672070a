-- ===== src/Worker/Loop/Conserves.antt =====
-- What a pass of the worker's loop does to the events, flushed, in the batch and in the queue.
use fapilog.Prelude.{
  ℕ, ◌≡◌, refl, inl, inr, ap, ◌∙◌, sym, Bool, true, false, Option, none, some, List, [], ◌∷◌, ◌++◌,
  append_assoc, append-nil, Bool-cases, Option-cases, Any, subst, leb,
}
use fapilog.Prelude.Value.{Fields}
use fapilog.Worker.Flush.{flush_batch}
use fapilog.Worker.Flush.Failure.{IsPoison, flush_batch-fails}
use fapilog.Worker.Loop.{
  Loop, Turn, goes_on, returns, ends, Setup, drain_queue, try_dequeue, WorkerQueue, flushed_as,
  flush_now, then_go, go_without_deadline, stopped, flush_asked, with_deadline, appended_by,
  appended, idle, dequeued, turn, running,
}
use fapilog.Worker.Loop.Waiting.{
  waiting-emptied, waiting, Taken, try_dequeue-Taken, drain_queue_lem,
}

-- what was flushed, then what is in the batch, then what waits
abbrev pub contents : Loop → List Fields
contents w = (w.flushed ++ w.batch) ++ waiting w.queue

-- A pass that goes on or returns keeps the events and their order. One that ends in an exception has
-- flushed nothing and loses the batch, in which there is an event that makes a flush raise; what it
-- loses is what came next, and the queue keeps the rest.
abbrev pub Conserved : Setup → Loop → Turn → Type 0
Conserved setup w (goes_on w') = contents w' ≡ contents w
Conserved setup w (returns w') = contents w' ≡ contents w
Conserved setup w (ends w' lost) =
    ((w'.flushed ++ lost) ++ waiting w'.queue ≡ contents w)
    × (w'.flushed ≡ w.flushed)
    × (w'.batch ≡ [])
    × Any (IsPoison setup.pipeline) lost

drain_queue-contents : (w : Loop) → contents (drain_queue w) ≡ contents w
drain_queue-contents w =
    ap contents (drain_queue_lem w)
    ∙ ap (λ xs. (w.flushed ++ (w.batch ++ waiting w.queue)) ++ xs) (waiting-emptied w.queue)
    ∙ append-nil (w.flushed ++ (w.batch ++ waiting w.queue))
    ∙ sym (append_assoc w.flushed w.batch (waiting w.queue))

-- what is conserved from a point of a pass on is so from its start
Conserved-from :
    (setup : Setup) (v w : Loop) (t : Turn)
    → contents v ≡ contents w
    → v.flushed ≡ w.flushed
    → Conserved setup v t
    → Conserved setup w t
Conserved-from setup v w (goes_on w') e f c = c ∙ e
Conserved-from setup v w (returns w') e f c = c ∙ e
Conserved-from setup v w (ends w' lost) e f (a, b, c, d) = (a ∙ e, b ∙ f, c, d)

-- a continuation that leaves the events alone
Keeps : Setup → (Loop → Turn) → Type 0
Keeps setup next = (w w' : Loop) → contents w' ≡ contents w → Conserved setup w (next w')

flush_now-Conserved :
    (setup : Setup) (w : Loop) (next : Loop → Turn)
    → Keeps setup next
    → Conserved setup w (then_go w next (flush_now setup w))
unfolding Keeps flush_now then_go flushed_as
flush_now-Conserved setup w next keeps =
    elim (Option-cases (flush_batch setup.pipeline w.sent w.batch)) [
      | inl e ↦
          subst (λ r. Conserved setup w (then_go w next (flushed_as setup w r))) (sym e)
            (refl, refl, refl, (flush_batch-fails setup.pipeline w.sent w.batch).0 e)
      | inr (sent, e) ↦
          subst (λ r. Conserved setup w (then_go w next (flushed_as setup w r))) (sym e)
            (keeps w _ (ap (λ xs. xs ++ waiting w.queue) (append-nil (w.flushed ++ w.batch))))
    ]

stopped-Conserved : (setup : Setup) (w : Loop) → Conserved setup w (stopped setup w)
unfolding stopped Keeps
stopped-Conserved setup w = flush_now-Conserved setup w _ (λ v w' e. e)

flush_asked-Conserved :
    (setup : Setup) (w : Loop) (batch : List Fields) → Conserved setup w (flush_asked setup w batch)
unfolding flush_asked Keeps
flush_asked-Conserved setup w [] = refl
flush_asked-Conserved setup w (entry ∷ batch) = flush_now-Conserved setup w _ (λ v w' e. e)

with_deadline-contents :
    (setup : Setup) (w : Loop) (now : ℕ) (deadline : Option ℕ)
    → contents (with_deadline setup w now deadline) ≡ contents w
unfolding with_deadline
with_deadline-contents setup w now none = refl
with_deadline-contents setup w now (some t) = refl

appended_by-Conserved :
    (setup : Setup) (w : Loop) (now : ℕ) (full : Bool)
    → Conserved setup w (appended_by setup w now full)
unfolding appended_by Keeps go_without_deadline
appended_by-Conserved setup w now true =
    flush_now-Conserved setup w go_without_deadline (λ v w' e. e)
appended_by-Conserved setup w now false = with_deadline-contents setup w now w.next_flush_deadline

idle-Conserved :
    (setup : Setup) (w : Loop) (now : ℕ) (deadline : Option ℕ)
    → Conserved setup w (idle setup w now deadline)
unfolding idle Keeps go_without_deadline
idle-Conserved setup w now none = refl
idle-Conserved setup w now (some t) = elim (Bool-cases (leb t now)) [
  | inl e ↦ rw e (flush_now-Conserved setup w go_without_deadline (λ v w' e. e))
  | inr e ↦ rw e refl
]

dequeued-Conserved :
    (setup : Setup) (w : Loop) (now : ℕ) (r : WorkerQueue × Option Fields)
    → Taken (waiting w.queue) r
    → Conserved setup w (dequeued setup w now r)
unfolding dequeued appended
dequeued-Conserved setup w now (q, none) e =
    Conserved-from setup (record w { queue = q }) w _ (ap (◌++◌ (w.flushed ++ w.batch)) e) refl
      (idle-Conserved setup (record w { queue = q }) now w.next_flush_deadline)
dequeued-Conserved setup w now (q, some item) e =
    let v = record w { queue = q; batch = w.batch ++ item ∷ [] } in
    Conserved-from setup v w _
      (ap (λ xs. xs ++ waiting q) (sym (append_assoc w.flushed w.batch (item ∷ [])))
        ∙ append_assoc (w.flushed ++ w.batch) (item ∷ []) (waiting q)
        ∙ ap (◌++◌ (w.flushed ++ w.batch)) e)
      refl (appended_by-Conserved setup v now _)

drained-Conserved :
    (setup : Setup) (w : Loop) (t : Turn) → Conserved setup (drain_queue w) t → Conserved setup w t
unfolding drain_queue
drained-Conserved setup w t c =
    Conserved-from setup (drain_queue w) w t (drain_queue-contents w) refl c

running-Conserved :
    (setup : Setup) (now : ℕ) (w : Loop) (flush_event : Bool)
    → Conserved setup w (running setup now w flush_event)
unfolding running
running-Conserved setup now w true =
    drained-Conserved setup w _ (flush_asked-Conserved setup (drain_queue w) (drain_queue w).batch)
running-Conserved setup now w false =
    dequeued-Conserved setup w now (try_dequeue w.queue) (try_dequeue-Taken w.queue)

-- Take the events already flushed, then those in the batch, then those in the queue, with the
-- protected ones of a DualQueue first. A pass of the loop that goes on or returns (it takes an event,
-- flushes by size, by time, on request or at the stop) keeps this list: none is lost, none is
-- doubled, none overtakes another. A pass that ends in an exception of a flush adds nothing to what
-- is flushed and loses exactly its batch, which holds an event whose enriched data are no dict.
pub turn-contents :
    (setup : Setup) (stop_flag : Bool) (now : ℕ) (w : Loop)
    → Conserved setup w (turn setup stop_flag now w)
unfolding turn
turn-contents setup true now w =
    drained-Conserved setup w _ (stopped-Conserved setup (drain_queue w))
turn-contents setup false now w = running-Conserved setup now w w.flush_event

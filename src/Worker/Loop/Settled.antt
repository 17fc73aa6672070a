-- ===== src/Worker/Loop/Settled.antt =====
-- When the worker's loop flushes: by size, by time and at the stop.
use fapilog.Prelude.{
  ℕ, ◌+◌, ◌≤◌, ◌<◌, ◌≡◌, refl, ◌⊎◌, inl, inr, ap, ◌∙◌, sym, Bool, true, false, Option, none, some,
  List, [], ◌∷◌, ◌++◌, length, length-append, subst, Bool-cases, leb, arith,
}
use mathlib.Core.Option.{none-ne-some}
use fapilog.Prelude.Value.{Fields}
use fapilog.Worker.Flush.{Sent, flush_batch}
use fapilog.Worker.Loop.{
  WorkerQueue, start, try_dequeue, Loop, Turn, goes_on, returns, ends, Setup, drain_queue,
  flushed_as, flush_now, then_go, go_without_deadline, stopped, acknowledged, flush_asked,
  with_deadline, appended_by, appended, idle, dequeued, turn, running,
}
use fapilog.Worker.Loop.Waiting.{waiting, drain_queue_lem}

-- The drained event is not set; nothing is in the batch and there is no deadline, or the batch is
-- below its limit and its deadline is at most the timeout after `now`.
unfoldable pub IsSettled : Setup → ℕ → Loop → Type 0
IsSettled setup now w =
    (w.drained_event ≡ false)
    × (((w.batch ≡ []) × (w.next_flush_deadline ≡ none))
        ⊎ ((t : ℕ) × (w.next_flush_deadline ≡ some t)
            × (t ≤ now + setup.batch_timeout)
            × (1 ≤ length w.batch)
            × (length w.batch < w.current_batch_max)))

abbrev pub Settles : Setup → ℕ → Turn → Type 0
Settles setup now (goes_on w) = IsSettled setup now w
Settles setup now (returns w) = (w.batch ≡ []) × (w.drained_event ≡ true)
Settles setup now (ends w lost) = (w.batch ≡ []) × (w.drained_event ≡ false)

flush-Settles :
    (setup : Setup) (now : ℕ) (w : Loop) (next : Loop → Turn) (sent : Option Sent)
    → w.drained_event ≡ false
    → ((w' : Loop) → w'.drained_event ≡ false → w'.batch ≡ [] → Settles setup now (next w'))
    → Settles setup now (then_go w next (flushed_as setup w sent))
unfolding then_go flushed_as
flush-Settles setup now w next none g h = (refl, g)
flush-Settles setup now w next (some sent) g h = h _ g refl

flush_now-Settles :
    (setup : Setup) (now : ℕ) (w : Loop) (next : Loop → Turn)
    → w.drained_event ≡ false
    → ((w' : Loop) → w'.drained_event ≡ false → w'.batch ≡ [] → Settles setup now (next w'))
    → Settles setup now (then_go w next (flush_now setup w))
unfolding flush_now
flush_now-Settles setup now w next g h =
    flush-Settles setup now w next (flush_batch setup.pipeline w.sent w.batch) g h

flush_asked-Settles :
    (setup : Setup) (now : ℕ) (w : Loop) (batch : List Fields)
    → w.drained_event ≡ false
    → w.batch ≡ batch
    → (w.batch ≡ [] → w.next_flush_deadline ≡ none)
    → Settles setup now (flush_asked setup w batch)
unfolding flush_asked acknowledged IsSettled
flush_asked-Settles setup now w [] g e d = (g, inl (e, d e))
flush_asked-Settles setup now w (entry ∷ batch) g e d =
    flush_now-Settles setup now w _ g (λ w' g' f. (g', inl (f, refl)))

with_deadline-settles :
    (setup : Setup) (now : ℕ) (w : Loop) (deadline : Option ℕ)
    → w.drained_event ≡ false
    → w.next_flush_deadline ≡ deadline
    → (deadline ≡ none) ⊎ ((t : ℕ) × (deadline ≡ some t) × (t ≤ now + setup.batch_timeout))
    → 1 ≤ length w.batch
    → length w.batch < w.current_batch_max
    → IsSettled setup now (with_deadline setup w now deadline)
unfolding IsSettled with_deadline
with_deadline-settles setup now w none g e d one below =
    (g, inr (now + setup.batch_timeout, refl, omega arith, one, below))
with_deadline-settles setup now w (some t) g e (inl f) one below = absurd (none-ne-some t (sym f))
with_deadline-settles setup now w (some t) g e (inr (u, f, late)) one below =
    (g, inr (u, e ∙ f, late, one, below))

appended_by-Settles :
    (setup : Setup) (now : ℕ) (w : Loop) (full : Bool)
    → w.drained_event ≡ false
    → leb w.current_batch_max (length w.batch) ≡ full
    → 1 ≤ length w.batch
    → (w.next_flush_deadline ≡ none)
      ⊎ ((t : ℕ) × (w.next_flush_deadline ≡ some t) × (t ≤ now + setup.batch_timeout))
    → Settles setup now (appended_by setup w now full)
unfolding appended_by IsSettled go_without_deadline
appended_by-Settles setup now w true g e one d =
    flush_now-Settles setup now w go_without_deadline g (λ w' g' f. (g', inl (f, refl)))
appended_by-Settles setup now w false g e one d =
    with_deadline-settles setup now w w.next_flush_deadline g refl d one (ground (arith, e))

idle-Settles :
    (setup : Setup) (now : ℕ) (w : Loop) (deadline : Option ℕ)
    → IsSettled setup now w
    → Settles setup now (idle setup w now deadline)
unfolding idle go_without_deadline IsSettled
idle-Settles setup now w none s = s
idle-Settles setup now w (some t) s = elim (Bool-cases (leb t now)) [
  | inl e ↦
      rw e (flush_now-Settles setup now w go_without_deadline s.0 (λ w' g f. (g, inl (f, refl))))
  | inr e ↦ rw e s
]

later-IsSettled :
    (setup : Setup) (now now' : ℕ) (w : Loop)
    → now ≤ now'
    → IsSettled setup now w
    → IsSettled setup now' w
unfolding IsSettled
later-IsSettled setup now now' w h (g, inl s) = (g, inl s)
later-IsSettled setup now now' w h (g, inr (t, e, late, one, below)) =
    (g, inr (t, e, omega (arith, h, late), one, below))

settled-deadline :
    (setup : Setup) (now : ℕ) (w : Loop)
    → IsSettled setup now w
    → (w.next_flush_deadline ≡ none)
      ⊎ ((t : ℕ) × (w.next_flush_deadline ≡ some t) × (t ≤ now + setup.batch_timeout))
unfolding IsSettled
settled-deadline setup now w (g, inl (e, f)) = inl f
settled-deadline setup now w (g, inr (t, e, late, one, below)) = inr (t, e, late)

dequeued-Settles :
    (setup : Setup) (now : ℕ) (w : Loop) (r : WorkerQueue × Option Fields)
    → IsSettled setup now w
    → Settles setup now (dequeued setup w now r)
unfolding dequeued appended IsSettled
dequeued-Settles setup now w (q, none) s =
    idle-Settles setup now (record w { queue = q }) w.next_flush_deadline s
dequeued-Settles setup now w (q, some item) s =
    appended_by-Settles setup now (record w { queue = q; batch = w.batch ++ item ∷ [] }) _ s.0 refl
      (omega (arith, length-append w.batch (item ∷ []))) (settled-deadline setup now w s)

append-empty : {A : Type 0} (xs ys : List A) → xs ++ ys ≡ [] → xs ≡ []
append-empty [] ys e = refl
append-empty (x ∷ xs) ys e = absurd (ground (arith, ap length e))

drained-deadline :
    (setup : Setup) (now : ℕ) (w : Loop)
    → IsSettled setup now w
    → (drain_queue w).batch ≡ []
    → (drain_queue w).next_flush_deadline ≡ none
unfolding IsSettled drain_queue
drained-deadline setup now w (d, inl (e, f)) g = f
drained-deadline setup now w (d, inr (t, e, late, one, below)) g = absurd (
    omega (
      arith,
      one,
      ap length (
          append-empty w.batch (waiting w.queue) (sym (ap (λ v. v.batch) (drain_queue_lem w)) ∙ g)),
    ))

running-Settles :
    (setup : Setup) (now : ℕ) (w : Loop) (flush_event : Bool)
    → IsSettled setup now w
    → Settles setup now (running setup now w flush_event)
unfolding running IsSettled drain_queue
running-Settles setup now w true s =
    flush_asked-Settles setup now (drain_queue w) (drain_queue w).batch s.0 refl
      (drained-deadline setup now w s)
running-Settles setup now w false s = dequeued-Settles setup now w (try_dequeue w.queue) s

pub turn-Settles :
    (setup : Setup) (stop_flag : Bool) (before now : ℕ) (w : Loop)
    → before ≤ now
    → IsSettled setup before w
    → Settles setup now (turn setup stop_flag now w)
unfolding turn stopped IsSettled drain_queue
turn-Settles setup true before now w h s =
    flush_now-Settles setup now (drain_queue w) (λ w'. returns (record w' { drained_event = true }))
      s.0 (λ w' g f. (f, refl))
turn-Settles setup false before now w h s =
    running-Settles setup now w w.flush_event (later-IsSettled setup before now w h s)

-- The states of a worker between the passes of its loop, with the time of the last pass: from its
-- start on, while others put events into the queue and ask for a flush.
pub data Reachable (setup : Setup) : ℕ → Loop → Type 0 where
  starts :
      (queue : WorkerQueue) (batch_max_size now : ℕ)
      → Reachable setup now (start queue batch_max_size)
  passes :
      {before : ℕ} {w : Loop} (stop_flag : Bool) (now : ℕ) (w' : Loop)
      → Reachable setup before w
      → before ≤ now
      → turn setup stop_flag now w ≡ goes_on w'
      → Reachable setup now w'
  outside :
      {now : ℕ} {w : Loop} (queue : WorkerQueue) (asked done : Bool)
      → Reachable setup now w
      → Reachable setup now
          (record w { queue = queue; flush_event = asked; flush_done_event = done })

Reachable-IsSettled :
    (setup : Setup) {now : ℕ} {w : Loop} → Reachable setup now w → IsSettled setup now w
unfolding IsSettled start
Reachable-IsSettled setup (starts queue n now) = (refl, inl (refl, refl))
Reachable-IsSettled setup (passes {before} {w} stop_flag now w' r h e) =
    subst (Settles setup now) e
      (turn-Settles setup stop_flag before now w h (Reachable-IsSettled setup r))
Reachable-IsSettled setup (outside queue asked done r) = Reachable-IsSettled setup r

-- Take a worker that has been started on any queue and has made any passes of its loop since, as the
-- clock advances, with anything put into its queue and any flush requests between them. Its next pass
-- goes on with an empty batch and no deadline, or with fewer events in the batch than the limit and a
-- deadline at most one timeout ahead, and with the drained event not set; or it returns with an
-- empty batch and the drained event set; or it ends in an exception with the drained event not set.
pub Reachable-Settles :
    (setup : Setup) (stop_flag : Bool) (before now : ℕ) (w : Loop)
    → Reachable setup before w
    → before ≤ now
    → Settles setup now (turn setup stop_flag now w)
Reachable-Settles setup stop_flag before now w r h =
    turn-Settles setup stop_flag before now w h (Reachable-IsSettled setup r)

-- ===== src/Worker/Loop.antt =====
-- core/worker.py, LoggerWorker.run and _drain_queue, on a NonBlockingRingQueue or a DualQueue: one
-- call of `turn` is one pass of the `while True`. The clock, the stop flag and the advice of the
-- adaptive controller on the next batch size are inputs of it; waiting for an event changes no
-- state. The counters, queue and events outlive an exception, the batch is a local of `run`.
pub mod Waiting
pub mod Conserves
pub mod Settled
pub mod Stops
use fapilog.Prelude.{
  ℕ, zero, suc, ◌+◌, Bool, true, false, Option, none, some, List, [], ◌∷◌, ◌++◌, length, leb,
  if◌then◌else◌,
}
use fapilog.Prelude.Value.{Fields}
use fapilog.Queue.Ring
use fapilog.Queue.Ring.{Ring}
use fapilog.Queue.Dual
use fapilog.Queue.Dual.{Dual}
use fapilog.Worker.{Pipeline}
use fapilog.Worker.Flush.{Sent, flush_batch}

-- `drain_queue` tells the two apart
pub data WorkerQueue : Type 0 where
  ring : Ring Fields → WorkerQueue
  dual : Dual Fields → WorkerQueue

-- `flushed` is the history of the events whose flush has ended; the code does not read it.
pub record Loop : Type 0 where
  pub queue : WorkerQueue
  pub batch : List Fields
  pub next_flush_deadline : Option ℕ
  pub current_batch_max : ℕ
  pub flush_event : Bool
  pub flush_done_event : Bool
  pub drained_event : Bool
  pub sent : Sent
  pub flushed : List Fields

-- What a pass comes to; after an exception `run` returns too, and the batch that it had is lost.
pub data Turn : Type 0 where
  goes_on returns : Loop → Turn
  ends : Loop → List Fields → Turn

-- what a worker is given once, and what one pass reads from outside
pub record Setup : Type 0 where
  pub pipeline : Pipeline
  pub batch_timeout : ℕ
  pub advise : ℕ → ℕ

unfoldable pub start : WorkerQueue → ℕ → Loop
start queue batch_max_size = record {
  queue = queue;
  batch = [];
  next_flush_deadline = none;
  current_batch_max = batch_max_size;
  flush_event = false;
  flush_done_event = false;
  drained_event = false;
  sent = record { processed = 0; dropped_count = 0; delivered = [] };
  flushed = [];
}

-- the loop of `_drain_queue`; the fuel is one more than the queue holds
pub drain_loop : ℕ → Ring Fields → List Fields → Ring Fields × List Fields
drain_loop zero q batch = (q, batch)
drain_loop (suc fuel) q batch =
    let (q', next) = Ring.try_dequeue q in
    elim next [ none ↦ (q', batch) | some item ↦ drain_loop fuel q' (batch ++ item ∷ []) ]

pub drain_from : WorkerQueue → List Fields → WorkerQueue × List Fields
unfolding drain_loop
drain_from (ring q) batch =
    let (q', batch') = drain_loop (suc (Ring.qsize q)) q batch in (ring q', batch')
drain_from (dual q) batch = let (q', batch') = Dual.drain_into q batch in (dual q', batch')

unfoldable pub drain_queue : Loop → Loop
unfolding drain_from
drain_queue w = let (q, batch) = drain_from w.queue w.batch in record w { queue = q; batch = batch }

pub try_dequeue : WorkerQueue → WorkerQueue × Option Fields
try_dequeue (ring q) = let (q', item) = Ring.try_dequeue q in (ring q', item)
try_dequeue (dual q) = let (q', item) = Dual.try_dequeue q in (dual q', item)

next_max : Setup → Loop → List Fields → ℕ
next_max setup w [] = w.current_batch_max
next_max setup w (entry ∷ batch) = setup.advise w.current_batch_max

flushed_as : Setup → Loop → Option Sent → Option Loop
unfolding next_max
flushed_as setup w none = none
flushed_as setup w (some sent) = some (record w {
  batch = [];
  current_batch_max = next_max setup w w.batch;
  sent = sent;
  flushed = w.flushed ++ w.batch;
})

-- `_flush_batch` on the worker's batch, `none` for an exception
flush_now : Setup → Loop → Option Loop
unfolding flushed_as
flush_now setup w = flushed_as setup w (flush_batch setup.pipeline w.sent w.batch)

-- an exception ends the loop: the batch goes with it, and the drained event stays as it was
then_go : Loop → (Loop → Turn) → Option Loop → Turn
then_go w next none = ends (record w { batch = [] }) w.batch
then_go w next (some w') = next w'

go_without_deadline : Loop → Turn
go_without_deadline w = goes_on (record w { next_flush_deadline = none })

stopped : Setup → Loop → Turn
unfolding flush_now then_go
stopped setup w = then_go w (λ w'. returns (record w' { drained_event = true })) (flush_now setup w)

acknowledged : Loop → Loop
acknowledged w = record w { flush_event = false; flush_done_event = true }

flush_asked : Setup → Loop → List Fields → Turn
unfolding flush_now then_go acknowledged
flush_asked setup w [] = goes_on (acknowledged w)
flush_asked setup w (entry ∷ batch) =
    then_go w (λ w'. goes_on (acknowledged (record w' { next_flush_deadline = none })))
      (flush_now setup w)

with_deadline : Setup → Loop → ℕ → Option ℕ → Loop
with_deadline setup w now none = record w { next_flush_deadline = some (now + setup.batch_timeout) }
with_deadline setup w now (some t) = w

appended_by : Setup → Loop → ℕ → Bool → Turn
unfolding flush_now then_go go_without_deadline with_deadline
appended_by setup w now true = then_go w go_without_deadline (flush_now setup w)
appended_by setup w now false = goes_on (with_deadline setup w now w.next_flush_deadline)

-- after `batch.append(item)`
appended : Setup → Loop → ℕ → Turn
unfolding appended_by
appended setup w now = appended_by setup w now (leb w.current_batch_max (length w.batch))

idle : Setup → Loop → ℕ → Option ℕ → Turn
unfolding flush_now then_go go_without_deadline
idle setup w now none = goes_on w
idle setup w now (some t) =
    if leb t now then then_go w go_without_deadline (flush_now setup w) else goes_on w

dequeued : Setup → Loop → ℕ → WorkerQueue × Option Fields → Turn
unfolding appended idle
dequeued setup w now (q, none) = idle setup (record w { queue = q }) now w.next_flush_deadline
dequeued setup w now (q, some item) =
    appended setup (record w { queue = q; batch = w.batch ++ item ∷ [] }) now

-- the pass without a stop, by the flush event
running : Setup → ℕ → Loop → Bool → Turn
unfolding flush_asked dequeued try_dequeue
running setup now w true = flush_asked setup (drain_queue w) (drain_queue w).batch
running setup now w false = dequeued setup w now (try_dequeue w.queue)

-- one pass of the loop, with the stop flag and the clock that it reads
unfoldable pub turn : Setup → Bool → ℕ → Loop → Turn
unfolding stopped running
turn setup true now w = stopped setup (drain_queue w)
turn setup false now w = running setup now w w.flush_event

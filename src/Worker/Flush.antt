-- ===== src/Worker/Flush.antt =====
-- core/worker.py, LoggerWorker._flush_batch: the two phases, the writes and the counters.
pub mod Accounts
pub mod Redaction
pub mod Failure
pub mod Delivered
use fapilog.Prelude.{
  ℕ, ◌+◌, ◌-◌, Bool, true, false, Option, none, some, List, [], ◌∷◌, ◌++◌, length, map, Text,
  if◌then◌else◌,
}
use fapilog.Prelude.Value.{Fields}
use fapilog.Worker.{Pipeline, Prepared, filtered, dropped, raises, ready, prepare}

-- what reaches the sink
pub data Delivery : Type 0 where
  as_view : Text → Delivery
  as_entry : Fields → Delivery

-- the shared counters, and what the sink has taken, in the order of the batches
pub record Sent : Type 0 where
  pub processed : ℕ
  pub dropped_count : ℕ
  pub delivered : List Delivery

-- the entries to write, and how many were dropped on the way
add_prepared : Prepared → List (Fields × Option Text) × ℕ → Option (List (Fields × Option Text) × ℕ)
add_prepared filtered rest = some rest
add_prepared dropped (tasks, n) = some (tasks, n + 1)
add_prepared raises rest = none
add_prepared (ready entry view) (tasks, n) = some ((entry, view) ∷ tasks, n)

then_rest :
    Prepared → Option (List (Fields × Option Text) × ℕ) → Option (List (Fields × Option Text) × ℕ)
unfolding add_prepared
then_rest first none = none
then_rest first (some rest) = add_prepared first rest

-- The first phase; an exception (`none`) leaves it before anything is written.
unfoldable pub prepare_all : Pipeline → List Fields → Option (List (Fields × Option Text) × ℕ)
unfolding then_rest
prepare_all p [] = some ([], 0)
prepare_all p (entry ∷ batch) = then_rest (prepare p entry) (prepare_all p batch)

write_entry : Pipeline → Fields → Option Delivery
write_entry p entry = if p.sink_write entry then some (as_entry entry) else none

written_view : Text → Option Delivery → Bool → Option Delivery
written_view view fallback true = some (as_view view)
written_view view fallback false = fallback

write_view : Pipeline → Fields → Text → Option (Text → Bool) → Option Delivery
unfolding write_entry written_view
write_view p entry view none = write_entry p entry
write_view p entry view (some write) = written_view view (write_entry p entry) (write view)

-- A view that the sink refuses is written as an entry; `none` for an exception.
unfoldable pub write_one_event : Pipeline → Fields × Option Text → Option Delivery
unfolding write_entry write_view
write_one_event p (entry, none) = write_entry p entry
write_one_event p (entry, some view) = write_view p entry view p.sink_write_serialized

abbrev pub successes : List (Option Delivery) → List Delivery
successes [] = []
successes (none ∷ results) = successes results
successes (some d ∷ results) = d ∷ successes results

-- the deliveries, `processed` and `dropped`
unfoldable pub write_concurrent : Pipeline → List (Fields × Option Text) → List Delivery × (ℕ × ℕ)
write_concurrent p tasks =
    let results = map (write_one_event p) tasks in
    let processed = length (successes results) in
    (successes results, (processed, length results - processed))

counted : Sent → ℕ → List Delivery × (ℕ × ℕ) → Sent
counted s n (deliveries, (processed, lost)) = record {
  processed = s.processed + processed;
  dropped_count = s.dropped_count + (n + lost);
  delivered = s.delivered ++ deliveries;
}

after_prepared : Pipeline → Sent → Option (List (Fields × Option Text) × ℕ) → Option Sent
unfolding counted
after_prepared p s none = none
after_prepared p s (some (tasks, n)) = some (counted s n (write_concurrent p tasks))

-- Flush a batch; `none` for an exception that leaves `_flush_batch`. The batch is cleared then.
unfoldable pub flush_batch : Pipeline → Sent → List Fields → Option Sent
unfolding after_prepared
flush_batch p s [] = some s
flush_batch p s (entry ∷ batch) = after_prepared p s (prepare_all p (entry ∷ batch))

-- ===== src/Queue/Priority/Tests.antt =====
-- Runs of PriorityAwareQueue.
use fapilog.Prelude.{
  to_upper, ℕ, ◌≡◌, refl, true, List, [], ◌∷◌, ◌++◌, Text, codes, ◌==◌, if◌then◌else◌,
}
use fapilog.Prelude.Int.{pos}
use fapilog.Prelude.Value.{Value, str, dict, field, end, get_truthy}
use fapilog.Queue.Level.{is_protected, level_key}
use fapilog.Queue.Priority.{is_null, is_tombstone, Priority, try_enqueue, try_dequeue}
use fapilog.Queue.Priority.Dequeue.{Outcome, try_dequeue-Outcome}
use fapilog.Queue.Priority.Overfill.{live, overfills}

abbrev levels : List Text
levels = codes "ERROR" ∷ []

-- the event 0 is an INFO, every other one an ERROR
abbrev heap : ℕ → Value
heap n = dict (field level_key (str (if n == 0 then codes "INFO" else codes "ERROR")) end)

abbrev empty : Priority
empty = record {
  capacity = 1;
  protected_levels = levels;
  heap = heap;
  dq = [];
  unprotected_refs = [];
  tombstone_count = pos 0;
}

-- the queue after 0 went in and out and 1 went in
abbrev stale : Priority
stale = record empty { dq = 1 ∷ []; unprotected_refs = 0 ∷ [] }

try_dequeue-Outcome_example : Outcome stale.heap stale.dq (try_dequeue stale)
try_dequeue-Outcome_example = try_dequeue-Outcome stale

overfills_example :
    ((try_enqueue stale 2).1 ≡ true) × (live (try_enqueue stale 2).0 ≡ live stale ++ 2 ∷ [])
unfolding is_protected is_null is_tombstone get_truthy to_upper
overfills_example = overfills stale 2 0 [] refl refl refl (refl, (refl, tt)) refl refl

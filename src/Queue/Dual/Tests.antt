-- ===== src/Queue/Dual/Tests.antt =====
-- Runs of DualQueue.
use fapilog.Prelude.{refl, false, List, [], ◌∷◌, Text, codes}
use fapilog.Prelude.Value.{Value, str, dict, field, end}
use fapilog.Queue.Level.{level_key}
use fapilog.Queue.Ring
use fapilog.Queue.Dual.{Dual, init}
use fapilog.Queue.Dual.Order.{
  enqueue, dequeue, drain, activate, run, fresh, Tracks, run-fresh-Tracks,
}

abbrev levels : List Text
levels = codes "ERROR" ∷ []

abbrev error : Value
error = dict (field level_key (str (codes "ERROR")) end)

abbrev info : Value
info = dict (field level_key (str (codes "INFO")) end)

abbrev empty : Dual Value
empty = record {
  main = record { capacity = 2; dq = [] };
  protected = record { capacity = 1; dq = [] };
  protected_levels = levels;
  main_drops = 0;
  protected_drops = 0;
  shedding = false;
}

abbrev both : Dual Value
both = record empty {
  main = record { capacity = 2; dq = info ∷ [] };
  protected = record { capacity = 1; dq = error ∷ [] };
}

run-fresh-Tracks_example : Tracks levels 2 1 (
    run
      (fresh empty)
      (enqueue info ∷ enqueue error ∷ enqueue error ∷ dequeue ∷ drain ∷ activate ∷ []))
unfolding init Ring.init
run-fresh-Tracks_example =
    run-fresh-Tracks 2 1 levels empty
      (enqueue info ∷ enqueue error ∷ enqueue error ∷ dequeue ∷ drain ∷ activate ∷ []) refl

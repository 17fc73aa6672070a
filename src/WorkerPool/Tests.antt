-- ===== src/WorkerPool/Tests.antt =====
-- Scaling a pool up and down.
use fapilog.Prelude.{ℕ, ◌≡◌, refl, ◌⊎◌, List, [], ◌∷◌, ◌++◌, arith}
use mathlib.Core.List.{reverse}
use fapilog.WorkerPool.{WorkerPool, current_count, clamp, scale_to}
use fapilog.WorkerPool.Scaling.{scale_to_lem}

abbrev pool : WorkerPool
pool = record {
  initial_count = 1;
  max_workers = 4;
  initial_tasks = 0 ∷ [];
  dynamic = 1 ∷ 2 ∷ [];
  stop_flags_set = [];
  next_task = 3;
}

retires_the_newest : scale_to pool 2 ≡ record pool { dynamic = 1 ∷ []; stop_flags_set = 2 ∷ [] }
unfolding scale_to current_count clamp
retires_the_newest = refl

scale_to_lem_example :
    (current_count (scale_to pool 2) ≡ clamp pool 2)
    × ((added : List ℕ) × (retired : List ℕ) × ((scale_to pool 2).dynamic ++ reverse retired
          ≡ pool.dynamic ++ added)
        × ((scale_to pool 2).stop_flags_set ≡ pool.stop_flags_set ++ retired)
        × ((added ≡ []) ⊎ (retired ≡ [])))
scale_to_lem_example = scale_to_lem pool 2 (omega arith)

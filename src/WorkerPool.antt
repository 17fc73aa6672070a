-- ===== src/WorkerPool.antt =====
-- core/worker_pool.py, WorkerPool. A task is a number, given out by the event loop in order; the
-- stop flag of a dynamic task is set when the task is in `stop_flags_set`, oldest first.
pub mod Scaling
mod Tests
use fapilog.Prelude.{
  ℕ, zero, suc, ◌+◌, ◌-◌, ◌*◌, ◌/◌, Bool, true, false, Option, none, some, List, [], ◌∷◌, ◌++◌,
  length, min, max, ltb, if◌then◌else◌,
}
use fapilog.Pressure.{Level, normal, elevated, high, critical}

pub record WorkerPool : Type 0 where
  pub initial_count : ℕ
  pub max_workers : ℕ
  pub initial_tasks : List ℕ
  pub dynamic : List ℕ
  pub stop_flags_set : List ℕ
  pub next_task : ℕ

-- a new pool, on a loop whose next task is `next_task`
unfoldable pub init : ℕ → ℕ → ℕ → WorkerPool
init initial_count max_workers next_task = record {
  initial_count = initial_count;
  max_workers = max initial_count max_workers;
  initial_tasks = [];
  dynamic = [];
  stop_flags_set = [];
  next_task = next_task;
}

unfoldable pub current_count : WorkerPool → ℕ
current_count p = p.initial_count + length p.dynamic

-- `math.ceil(initial_count * WORKER_SCALE[level])`, the factors being 1, 1, 1.5 and 2
scaled : ℕ → Level → ℕ
scaled n normal = n
scaled n elevated = n
scaled n high = (3 * n + 1) / 2
scaled n critical = 2 * n

-- both `target_for_level` and `scale_to` keep a count between the initial one and the maximum
unfoldable pub clamp : WorkerPool → ℕ → ℕ
clamp p target = max p.initial_count (min p.max_workers target)

unfoldable pub target_for_level : WorkerPool → Level → ℕ
unfolding scaled clamp
target_for_level p level = clamp p (scaled p.initial_count level)

unfoldable pub register_initial_tasks : WorkerPool → List ℕ → WorkerPool
register_initial_tasks p tasks = record p { initial_tasks = tasks }

add_workers : ℕ → WorkerPool → WorkerPool
add_workers zero p = p
add_workers (suc count) p =
    add_workers count
      (record p { dynamic = p.dynamic ++ p.next_task ∷ []; next_task = p.next_task + 1 })

-- `list.pop()`: what stays and the last element
pop_last : List ℕ → Option (List ℕ × ℕ)
pop_last [] = none
pop_last (x ∷ xs) = elim (pop_last xs) [
  | none ↦ some ([], x)
  | some (rest, last) ↦ some (x ∷ rest, last)
]

retire_one : WorkerPool → Option (List ℕ × ℕ) → WorkerPool
retire_one p none = p
retire_one p (some (rest, task)) = record p {
  dynamic = rest;
  stop_flags_set = p.stop_flags_set ++ task ∷ [];
}

retire_loop : ℕ → WorkerPool → WorkerPool
unfolding pop_last retire_one
retire_loop zero p = p
retire_loop (suc count) p = retire_loop count (retire_one p (pop_last p.dynamic))

retire_workers : ℕ → WorkerPool → WorkerPool
unfolding retire_loop
retire_workers count p = retire_loop (min count (length p.dynamic)) p

unfoldable pub scale_to : WorkerPool → ℕ → WorkerPool
unfolding clamp current_count add_workers retire_workers
scale_to p target =
    let wanted = clamp p target in
    let current = current_count p in
    if ltb current wanted
    then add_workers (wanted - current) p
    else if ltb wanted current
    then retire_workers (current - wanted) p
    else p

-- the new pool and the tasks to await
unfoldable pub drain_all : WorkerPool → WorkerPool × List ℕ
drain_all p = (
  record p { dynamic = []; stop_flags_set = p.stop_flags_set ++ p.dynamic },
  p.initial_tasks ++ p.dynamic,
)

unfoldable pub all_tasks : WorkerPool → List ℕ
all_tasks p = p.initial_tasks ++ p.dynamic

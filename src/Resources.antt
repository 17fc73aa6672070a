-- ===== src/Resources.antt =====
-- core/resources.py: AsyncResourcePool. Resources are numbers in the order of their creation. A call
-- that has to wait is a step of its own, which ends in a resource that was put back or in a timeout.
-- `held` is no field of the code: the resources that callers have.
pub mod Calls
pub mod Bounds
pub mod Cleaned
mod Tests
use fapilog.Prelude.{
  ℕ, suc, ◌+◌, Bool, true, false, Option, none, some, List, [], ◌∷◌, ◌++◌, ltb, ◌==◌, if◌then◌else◌,
}
use fapilog.Prelude.Int.{ℤ, pos, succ_ℤ, pred_ℤ}

pub record Pool : Type 0 where
  pub max_size : ℕ
  pub idle : List ℕ
  pub all_resources : List ℕ
  pub in_use_count : ℤ
  pub created_count : ℕ
  pub timeouts : ℕ
  pub errors : ℕ
  pub closed : Bool
  pub held : List ℕ

unfoldable pub init : ℕ → Pool
init max_size = record {
  max_size = max_size;
  idle = [];
  all_resources = [];
  in_use_count = pos 0;
  created_count = 0;
  timeouts = 0;
  errors = 0;
  closed = false;
  held = [];
}

-- what a call comes to: a resource, an exception of the factory, the start of a wait, or
-- BackpressureError
pub data Acquired : Type 0 where
  got : ℕ → Acquired
  factory_raised waits backpressure : Acquired

-- a resource goes to the caller, who counts as using it
unfoldable pub handed : Pool → ℕ → List ℕ → Pool
handed p r idle = record p { idle = idle; in_use_count = succ_ℤ p.in_use_count; held = r ∷ p.held }

-- a new resource, where the factory does not raise
unfoldable pub created : Pool → Bool → Pool × Acquired
unfolding handed
created p false = (p, factory_raised)
created p true =
    let r = p.created_count in
    (
      handed (record p { all_resources = r ∷ p.all_resources; created_count = r + 1 }) r p.idle,
      got r,
    )

unfoldable pub acquire_from : Pool → Bool → List ℕ → Pool × Acquired
unfolding handed created
acquire_from p factory (r ∷ idle) = (handed p r idle, got r)
acquire_from p factory [] = if ltb p.created_count p.max_size then created p factory else (p, waits)

-- `acquire` up to the start of a wait
unfoldable pub acquire : Pool → Bool → Pool × Acquired
unfolding acquire_from
acquire p factory = acquire_from p factory p.idle

unfoldable pub nowait_from : Pool → List ℕ → Pool × Acquired
unfolding handed
nowait_from p [] = (p, backpressure)
nowait_from p (r ∷ idle) = (handed p r idle, got r)

unfoldable pub acquire_nowait : Pool → Pool × Acquired
unfolding nowait_from
acquire_nowait p = nowait_from p p.idle

unfoldable pub waited_from : Pool → Bool → List ℕ → Pool × Acquired
unfolding handed
waited_from p timed_out (r ∷ idle) =
    if timed_out
    then (record p { timeouts = p.timeouts + 1 }, backpressure)
    else (handed p r idle, got r)
waited_from p timed_out [] =
    if timed_out then (record p { timeouts = p.timeouts + 1 }, backpressure) else (p, waits)

-- a turn of a wait, which may time out
unfoldable pub waited : Pool → Bool → Pool × Acquired
unfolding waited_from
waited p timed_out = waited_from p timed_out p.idle

-- `_release_impl`; closing a resource of a closed pool may raise
unfoldable pub release_impl : Pool → Bool → ℕ → Pool
release_impl p close_raises r =
    if p.closed
    then (if close_raises then record p { errors = p.errors + 1 } else p)
    else record p { idle = p.idle ++ r ∷ [] }

abbrev pub remove : ℕ → List ℕ → List ℕ
remove r [] = []
remove r (s ∷ held) = let rest = remove r held in if s == r then held else s ∷ rest

-- the end of a block `async with pool.acquire()`
unfoldable pub leave : Pool → Bool → ℕ → Pool
unfolding release_impl
leave p close_raises r =
    release_impl (record p { in_use_count = pred_ℤ p.in_use_count; held = remove r p.held })
      close_raises r

abbrev pub less_one : ℤ → ℤ
less_one (pos (suc n)) = pos n
less_one z = z

-- `release`, which lowers a positive count only
unfoldable pub release : Pool → Bool → ℕ → Pool
unfolding release_impl
release p close_raises r =
    release_impl (record p { in_use_count = less_one p.in_use_count; held = remove r p.held })
      close_raises r

-- `cleanup`, with the number of resources whose closing raises
unfoldable pub cleanup : Pool → ℕ → Pool
cleanup p raising = record p {
  closed = true;
  idle = [];
  errors = p.errors + raising;
  in_use_count = pos 0;
}

unfoldable pub start : Pool → Pool
start p = record p { closed = false }

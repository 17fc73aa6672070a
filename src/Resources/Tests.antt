-- ===== src/Resources/Tests.antt =====
-- A pool of two resources.
use fapilog.Prelude.{◌≡◌, refl, true, false, List, [], ◌∷◌}
use fapilog.Prelude.Int.{pos, negsuc}
use fapilog.Resources.{
  Pool, init, acquire, acquire_from, handed, created, leave, cleanup, release_impl,
}
use fapilog.Resources.Calls.{
  Call, acquire_call, wait_call, leave_call, release_call, cleanup_call, start_call, run,
}
use fapilog.Resources.Bounds.{IsBalanced, run-init-IsBalanced}

abbrev calls : List Call
calls =
    acquire_call true
    ∷ acquire_call true
    ∷ acquire_call true
    ∷ leave_call 0
    ∷ wait_call false
    ∷ cleanup_call 0
    ∷ release_call 1
    ∷ start_call
    ∷ []

run-init-IsBalanced_example : IsBalanced true (run (init 2) calls)
run-init-IsBalanced_example = run-init-IsBalanced 2 calls

-- two resources created and given back
abbrev used : Pool
used = record {
  max_size = 2;
  idle = 0 ∷ 1 ∷ [];
  all_resources = 1 ∷ 0 ∷ [];
  in_use_count = pos 0;
  created_count = 2;
  timeouts = 0;
  errors = 0;
  closed = false;
  held = [];
}

-- the end of a block after a cleanup takes the count below zero
below_zero : (leave (cleanup (acquire (init 1) true).0 0) false 0).in_use_count ≡ negsuc 0
unfolding leave cleanup acquire acquire_from handed created init release_impl
below_zero = refl

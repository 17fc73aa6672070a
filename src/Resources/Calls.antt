-- ===== src/Resources/Calls.antt =====
-- Sequences of calls of a pool, and where a resource stands.
use fapilog.Prelude.{
  ℕ, suc, ◌+◌, ◌≡◌, Bool, true, false, List, [], ◌∷◌, ◌++◌, ◌||◌, length, ◌==◌, if◌then◌else◌,
  arith,
}
use fapilog.Resources.{
  Pool, acquire, acquire_nowait, cleanup, start, waited, remove, leave, release,
}

-- the calls of a pool; a resource is given back by a caller that holds it
pub data Call : Type 0 where
  acquire_call : Bool → Call
  nowait_call : Call
  wait_call : Bool → Call
  leave_call : ℕ → Call
  release_call : ℕ → Call
  cleanup_call : ℕ → Call
  start_call : Call

abbrev pub member : ℕ → List ℕ → Bool
member r [] = false
member r (s ∷ held) = let rest = member r held in if s == r then true else rest

-- giving back what one does not hold does not happen
abbrev pub step : Pool → Call → Pool
step p (acquire_call factory) = (acquire p factory).0
step p nowait_call = (acquire_nowait p).0
step p (wait_call timed_out) = (waited p timed_out).0
step p (leave_call r) = if member r p.held then leave p false r else p
step p (release_call r) = if member r p.held then release p false r else p
step p (cleanup_call raising) = cleanup p raising
step p start_call = start p

abbrev pub run : Pool → List Call → Pool
run p [] = p
run p (c ∷ calls) = run (step p c) calls

abbrev pub occurs : ℕ → List ℕ → ℕ
occurs r [] = 0
occurs r (s ∷ rs) = let rest = occurs r rs in if s == r then suc rest else rest

abbrev pub cleans : Call → Bool
cleans (cleanup_call raising) = true
cleans _ = false

abbrev pub cleaned_by : Bool → List Call → Bool
cleaned_by cleaned [] = cleaned
cleaned_by cleaned (c ∷ calls) = cleaned_by (cleaned || cleans c) calls

pub occurs-append : (r : ℕ) (xs ys : List ℕ) → occurs r (xs ++ ys) ≡ occurs r xs + occurs r ys
occurs-append r [] ys = omega arith
occurs-append r (x ∷ xs) ys = ground (arith, occurs-append r xs ys)

pub length-remove :
    (r : ℕ) (held : List ℕ) → member r held ≡ true → suc (length (remove r held)) ≡ length held
length-remove r [] h = cc
length-remove r (s ∷ held) h = ground (arith, length-remove r held)

pub occurs-remove :
    (j r : ℕ) (held : List ℕ)
    → member r held ≡ true
    → occurs j held ≡ occurs j (remove r held) + occurs j (r ∷ [])
occurs-remove j r [] h = cc
occurs-remove j r (s ∷ held) h = ground (arith, occurs-remove j r held)

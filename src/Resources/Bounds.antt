-- ===== src/Resources/Bounds.antt =====
-- How many resources there are, and where they are.
use fapilog.Prelude.{
  ℕ, suc, ◌+◌, ◌≤◌, ◌≡◌, refl, sym, ap, ◌∙◌, Bool, true, false, List, [], ◌∷◌, ◌++◌, ◌||◌, length,
  ltb, ltb→lt, if◌then◌else◌, arith, subst, Bool-cases, inl, inr,
}
use fapilog.Prelude.Int.{ℤ, pos, succ_ℤ, pred_ℤ}
use fapilog.Resources.{
  Pool, init, waits, handed, created, acquire_from, acquire, nowait_from, acquire_nowait, cleanup,
  start, waited_from, waited, release_impl, remove, leave, release, less_one,
}
use fapilog.Resources.Calls.{
  occurs-append, length-remove, occurs-remove, Call, acquire_call, nowait_call, wait_call,
  leave_call, release_call, cleanup_call, start_call, member, step, run, occurs, cleans, cleaned_by,
}

-- The pool has created no more than it may, and each resource that it has created (and no other) is
-- in one place only and once: idle, held, or gone. Before any cleanup none is gone, the pool is open
-- and the count of those in use is that of the held ones.
pub record IsBalanced (cleaned : Bool) (p : Pool) : Type 0 where
  pub bound : p.created_count ≤ p.max_size
  pub gone : List ℕ
  pub split :
      (r : ℕ)
      → occurs r gone + (occurs r p.idle + occurs r p.held)
        ≡ (if ltb r p.created_count then 1 else 0)
  pub whole :
      cleaned ≡ false → (gone ≡ []) × (p.closed ≡ false) × (p.in_use_count ≡ pos (length p.held))

handed-IsBalanced :
    (cleaned : Bool) (p : Pool) (r : ℕ) (idle : List ℕ)
    → p.idle ≡ r ∷ idle
    → IsBalanced cleaned p
    → IsBalanced cleaned (handed p r idle)
unfolding handed
handed-IsBalanced cleaned p r idle e v = record {
  bound = v.bound;
  gone = v.gone;
  split = λ j. ground (arith, v.split j, ap (occurs j) e);
  whole = λ c. let (a, b, d) = v.whole c in (a, b, ap succ_ℤ d);
}

created-IsBalanced :
    (cleaned : Bool) (p : Pool) (factory : Bool)
    → suc p.created_count ≤ p.max_size
    → IsBalanced cleaned p
    → IsBalanced cleaned (created p factory).0
unfolding created handed
created-IsBalanced cleaned p false h v = v
created-IsBalanced cleaned p true h v = record {
  bound = omega (arith, h);
  gone = v.gone;
  split = λ j. ground (arith, v.split j);
  whole = λ c. let (a, b, d) = v.whole c in (a, b, ap succ_ℤ d);
}

acquire_from-IsBalanced :
    (cleaned : Bool) (p : Pool) (factory : Bool) (idle : List ℕ)
    → p.idle ≡ idle
    → IsBalanced cleaned p
    → IsBalanced cleaned (acquire_from p factory idle).0
unfolding acquire_from created
acquire_from-IsBalanced cleaned p factory (r ∷ idle) e v = handed-IsBalanced cleaned p r idle e v
acquire_from-IsBalanced cleaned p factory [] e v =
    elim (Bool-cases (ltb p.created_count p.max_size)) [
      | inr f ↦
          subst (λ b. IsBalanced cleaned (if b then created p factory else (p, waits)).0) (sym f) v
      | inl f ↦
          subst (λ b. IsBalanced cleaned (if b then created p factory else (p, waits)).0) (sym f)
            (created-IsBalanced cleaned p factory (ltb→lt p.created_count p.max_size f) v)
    ]

nowait_from-IsBalanced :
    (cleaned : Bool) (p : Pool) (idle : List ℕ)
    → p.idle ≡ idle
    → IsBalanced cleaned p
    → IsBalanced cleaned (nowait_from p idle).0
unfolding nowait_from
nowait_from-IsBalanced cleaned p [] e v = v
nowait_from-IsBalanced cleaned p (r ∷ idle) e v = handed-IsBalanced cleaned p r idle e v

timed_out-IsBalanced :
    (cleaned : Bool) (p : Pool)
    → IsBalanced cleaned p
    → IsBalanced cleaned (record p { timeouts = p.timeouts + 1 })
timed_out-IsBalanced cleaned p v = record {
  bound = v.bound;
  gone = v.gone;
  split = v.split;
  whole = v.whole;
}

waited_from-IsBalanced :
    (cleaned : Bool) (p : Pool) (timed_out : Bool) (idle : List ℕ)
    → p.idle ≡ idle
    → IsBalanced cleaned p
    → IsBalanced cleaned (waited_from p timed_out idle).0
unfolding waited_from
waited_from-IsBalanced cleaned p true [] e v = timed_out-IsBalanced cleaned p v
waited_from-IsBalanced cleaned p false [] e v = v
waited_from-IsBalanced cleaned p true (r ∷ idle) e v = timed_out-IsBalanced cleaned p v
waited_from-IsBalanced cleaned p false (r ∷ idle) e v = handed-IsBalanced cleaned p r idle e v

-- a held resource that is given back is idle in an open pool, and gone in a closed one
back-IsBalanced :
    (cleaned : Bool) (p : Pool) (r : ℕ) (z : ℤ)
    → member r p.held ≡ true
    → (p.in_use_count ≡ pos (length p.held) → z ≡ pos (length (remove r p.held)))
    → IsBalanced cleaned p
    → IsBalanced cleaned
        (release_impl (record p { in_use_count = z; held = remove r p.held }) false r)
unfolding release_impl
back-IsBalanced cleaned p r z h k v = elim (Bool-cases p.closed) [
  | inl c ↦ rw c (record {
    bound = v.bound;
    gone = r ∷ v.gone;
    split = λ j. ground (arith, v.split j, occurs-remove j r p.held h);
    whole = λ u. absurd (ground (arith, (v.whole u).1));
  })
  | inr c ↦ rw c (record {
    bound = v.bound;
    gone = v.gone;
    split =
        λ j. omega (arith, v.split j, occurs-remove j r p.held h, occurs-append j p.idle (r ∷ []));
    whole = λ u. let (a, b, d) = v.whole u in (a, refl, k d);
  })
]

leave-IsBalanced :
    (cleaned : Bool) (p : Pool) (r : ℕ)
    → member r p.held ≡ true
    → IsBalanced cleaned p
    → IsBalanced cleaned (leave p false r)
unfolding leave
leave-IsBalanced cleaned p r h v =
    back-IsBalanced cleaned p r (pred_ℤ p.in_use_count) h
      (λ d. ap pred_ℤ (d ∙ ap pos (sym (length-remove r p.held h)))) v

release-IsBalanced :
    (cleaned : Bool) (p : Pool) (r : ℕ)
    → member r p.held ≡ true
    → IsBalanced cleaned p
    → IsBalanced cleaned (release p false r)
unfolding release
release-IsBalanced cleaned p r h v =
    back-IsBalanced cleaned p r (less_one p.in_use_count) h
      (λ d. ap less_one (d ∙ ap pos (sym (length-remove r p.held h)))) v

cleanup-IsBalanced :
    (cleaned : Bool) (p : Pool) (raising : ℕ)
    → IsBalanced cleaned p
    → IsBalanced true (cleanup p raising)
unfolding cleanup
cleanup-IsBalanced cleaned p raising v = record {
  bound = v.bound;
  gone = v.gone ++ p.idle;
  split = λ j. omega (arith, v.split j, occurs-append j v.gone p.idle);
  whole = λ u. cc;
}

start-IsBalanced : (cleaned : Bool) (p : Pool) → IsBalanced cleaned p → IsBalanced cleaned (start p)
unfolding start
start-IsBalanced cleaned p v = record {
  bound = v.bound;
  gone = v.gone;
  split = v.split;
  whole = λ u. let (a, b, d) = v.whole u in (a, refl, d);
}

later-IsBalanced :
    (cleaned : Bool) (p : Pool) → IsBalanced cleaned p → IsBalanced (cleaned || false) p
later-IsBalanced true p v = v
later-IsBalanced false p v = v

step-IsBalanced :
    (cleaned : Bool) (p : Pool) (c : Call)
    → IsBalanced cleaned p
    → IsBalanced (cleaned || cleans c) (step p c)
unfolding acquire acquire_nowait waited
step-IsBalanced cleaned p (acquire_call factory) v =
    later-IsBalanced cleaned _ (acquire_from-IsBalanced cleaned p factory p.idle refl v)
step-IsBalanced cleaned p nowait_call v =
    later-IsBalanced cleaned _ (nowait_from-IsBalanced cleaned p p.idle refl v)
step-IsBalanced cleaned p (wait_call timed_out) v =
    later-IsBalanced cleaned _ (waited_from-IsBalanced cleaned p timed_out p.idle refl v)
step-IsBalanced cleaned p (leave_call r) v =
    later-IsBalanced cleaned _ (elim (Bool-cases (member r p.held)) [
      | inl h ↦
          subst (λ b. IsBalanced cleaned (if b then leave p false r else p)) (sym h)
            (leave-IsBalanced cleaned p r h v)
      | inr h ↦ subst (λ b. IsBalanced cleaned (if b then leave p false r else p)) (sym h) v
    ])
step-IsBalanced cleaned p (release_call r) v =
    later-IsBalanced cleaned _ (elim (Bool-cases (member r p.held)) [
      | inl h ↦
          subst (λ b. IsBalanced cleaned (if b then release p false r else p)) (sym h)
            (release-IsBalanced cleaned p r h v)
      | inr h ↦ subst (λ b. IsBalanced cleaned (if b then release p false r else p)) (sym h) v
    ])
step-IsBalanced true p (cleanup_call raising) v = cleanup-IsBalanced true p raising v
step-IsBalanced false p (cleanup_call raising) v = cleanup-IsBalanced false p raising v
step-IsBalanced cleaned p start_call v = later-IsBalanced cleaned _ (start-IsBalanced cleaned p v)

run-IsBalanced :
    (cleaned : Bool) (p : Pool) (calls : List Call)
    → IsBalanced cleaned p
    → IsBalanced (cleaned_by cleaned calls) (run p calls)
run-IsBalanced cleaned p [] v = v
run-IsBalanced cleaned p (c ∷ calls) v =
    run-IsBalanced (cleaned || cleans c) (step p c) calls (step-IsBalanced cleaned p c v)

-- Under any calls, cleanups and starts too, where a caller gives back only what it holds, a new pool
-- creates at most max_size resources, and each of them is in one place only: idle, held by one
-- caller, or gone from the pool. Without a cleanup none is gone, so that each is idle or held, and
-- the count of those in use is that of the held ones.
pub run-init-IsBalanced :
    (max_size : ℕ) (calls : List Call)
    → IsBalanced (cleaned_by false calls) (run (init max_size) calls)
unfolding init
run-init-IsBalanced max_size calls = run-IsBalanced false (init max_size) calls (record {
  bound = omega arith;
  gone = [];
  split = λ r. ground arith;
  whole = λ c. (refl, refl, refl);
})

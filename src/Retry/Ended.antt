-- ===== src/Retry/Ended.antt =====
-- Every call comes to an end that the attempts determine.
use fapilog.Prelude.{
  ℕ, zero, suc, ◌+◌, ◌-◌, ◌<◌, ◌≤◌, refl, subst, arith, ◌⊎◌, inl, inr, Bool-cases,
}
use fapilog.Retry.{
  RetryConfig, Answer, returned, raised, RetryStats, Result, success, error, exhausted,
  is_retryable_exception, retry,
}
use fapilog.Retry.Attempts.{IsRetried, AllRetried, Ends, Outcome, retry_ends, retry_exhausts}

-- The whole of a call: after k attempts that are tried again, another one ends it, or there is none
-- left.
abbrev pub Ended : RetryConfig → (ℕ → Answer) → Result × RetryStats → Type 0
Ended c f o =
    ((k : ℕ) × (r : Result) × (k < c.max_attempts)
      × AllRetried c f 0 k
      × Ends c (f k) r
      × Outcome r (k + 1) k o)
    ⊎ (AllRetried c f 0 c.max_attempts × Outcome exhausted c.max_attempts (c.max_attempts - 1) o)

Ends-or_IsRetried : (c : RetryConfig) (a : Answer) → ((r : Result) × Ends c a r) ⊎ IsRetried c a
Ends-or_IsRetried c (returned a) = inl (success a, refl)
Ends-or_IsRetried c (raised e) = elim (Bool-cases (is_retryable_exception c e)) [
  | inl h ↦ inr h
  | inr h ↦ inl (error e, (h, refl))
]

-- the first attempt from `i` on, among `n`, that is not tried again
first_end :
    (c : RetryConfig) (f : ℕ → Answer) (n i : ℕ)
    → ((k : ℕ) × (r : Result) × (k < n) × AllRetried c f i k × Ends c (f (i + k)) r)
      ⊎ AllRetried c f i n
first_end c f zero i = inr tt
first_end c f (suc n) i = elim (Ends-or_IsRetried c (f i)) [
  | inl (r, e) ↦
      inl (0, r, omega arith, tt, subst (λ j. Ends c (f j) r) {y = i + 0} (omega arith) e)
  | inr h ↦ elim (first_end c f n (i + 1)) [
    | inr t ↦ inr (h, t)
    | inl (k, r, lt, t, e) ↦ inl (
      suc k,
      r,
      omega (arith, lt),
      (h, t),
      subst (λ j. Ends c (f j) r) {y = i + suc k} (omega arith) e,
    )
  ]
]

-- Every call with at least one attempt ends in one of two ways. Either an attempt below the limit
-- returns or raises an error that may not be tried again, after attempts that may: then the call
-- returns or raises that, with one sleep for each attempt before it. Or max_attempts attempts raise
-- errors that may be tried again: then it raises RetryExhaustedError, with a sleep after each but
-- the last.
pub retry-Ended :
    (c : RetryConfig) (f : ℕ → Answer) (draws : ℕ → ℕ)
    → 1 ≤ c.max_attempts
    → Ended c f (retry c f draws)
retry-Ended c f draws n = elim (first_end c f c.max_attempts 0) [
  | inr h ↦ inr (h, retry_exhausts c f draws n h)
  | inl (k, r, lt, h, e) ↦
      let e' = subst (λ j. Ends c (f j) r) {y = k} (omega arith) e in
      inl (k, r, lt, h, e', retry_ends c f draws k r lt h e')
]

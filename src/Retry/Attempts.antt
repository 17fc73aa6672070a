-- ===== src/Retry/Attempts.antt =====
-- How many attempts are made, and what comes of them.
use fapilog.Prelude.{
  ℕ, zero, suc, ◌+◌, ◌-◌, ◌<◌, ◌≤◌, ◌≡◌, refl, sym, ap, ◌∙◌, Bool, true, false, not, [], ◌∷◌,
  length, length-append, subst, arith, if◌then◌else◌,
}
use fapilog.Retry.{
  RetryConfig, Raised, Answer, returned, raised, RetryStats, fresh_stats, Result, success, error,
  exhausted, is_retryable_exception, attempts_from, after_answer, after_failure, calculate_delay,
  slept, failed, succeeded, retry, stats_success, is_none,
}

-- an answer that is tried again
abbrev pub IsRetried : RetryConfig → Answer → Type 0
IsRetried c (returned a) = ⊥
IsRetried c (raised e) = is_retryable_exception c e ≡ true

abbrev pub AllRetried : RetryConfig → (ℕ → Answer) → ℕ → ℕ → Type 0
AllRetried c f attempt zero = Unit
AllRetried c f attempt (suc n) = IsRetried c (f attempt) × AllRetried c f (attempt + 1) n

-- `k` attempts and one more with `left` behind it
abbrev more : ℕ → ℕ → ℕ
more zero left = suc left
more (suc k) left = suc (more k left)

more-add : (k left : ℕ) → more k left ≡ k + left + 1
more-add zero left = omega arith
more-add (suc k) left = omega (arith, more-add k left)

after_failure-more :
    (c : RetryConfig) (draws : ℕ → ℕ) (attempt k left : ℕ) (go : RetryStats → Result × RetryStats)
    (s : RetryStats)
    → after_failure c draws attempt (more k left) go s
      ≡ go (slept s (calculate_delay c attempt (draws attempt)))
unfolding after_failure
after_failure-more c draws attempt zero left go s = refl
after_failure-more c draws attempt (suc k) left go s = refl

retried :
    (c : RetryConfig) (draws : ℕ → ℕ) (attempt left : ℕ) (go : RetryStats → Result × RetryStats)
    (s : RetryStats) (a : Answer)
    → IsRetried c a
    → (e : Raised) × (after_answer c draws attempt left go s a
        ≡ after_failure c draws attempt left go (failed s attempt e))
unfolding after_answer
retried c draws attempt left go s (returned a) h = absurd h
retried c draws attempt left go s (raised e) h = (
  e,
  ap
      (λ b.
        if not b
        then (error e, failed s attempt e)
        else after_failure c draws attempt left go (failed s attempt e))
      h,
)

-- the attempts behind this one
abbrev later : RetryConfig → (ℕ → Answer) → (ℕ → ℕ) → ℕ → ℕ → RetryStats → Result × RetryStats
later c f draws attempt left = attempts_from c f draws (attempt + 1) left

abbrev some_if : ℕ → Bool → Bool
some_if zero b = b
some_if (suc k) b = false

-- where the statistics stand after `k` attempts that are tried again
abbrev Passed : ℕ → ℕ → RetryStats → RetryStats → Type 0
Passed attempt k s s' =
    (length s'.sleeps ≡ length s.sleeps + k)
    × (s'.ended ≡ s.ended)
    × (is_none s'.last_exception ≡ some_if k (is_none s.last_exception))

some_if-false : (k : ℕ) → some_if k false ≡ false
some_if-false zero = refl
some_if-false (suc k) = refl

attempts_from_retried :
    (c : RetryConfig) (f : ℕ → Answer) (draws : ℕ → ℕ) (attempt k left : ℕ) (s : RetryStats)
    → AllRetried c f attempt k
    → (s' : RetryStats) × (attempts_from c f draws attempt (more k left) s
        ≡ after_answer c draws
            (attempt + k)
            left
            (later c f draws (attempt + k) left)
            s'
            (f (attempt + k)))
      × Passed attempt k s s'
unfolding attempts_from slept failed
attempts_from_retried c f draws attempt zero left s h = (
  s,
  ap (λ i. after_answer c draws i left (later c f draws i left) s (f i)) (omega arith),
  (omega arith, refl, refl),
)
attempts_from_retried c f draws attempt (suc k) left s (h, rest) =
    let (e, eq) =
      retried c draws attempt (more k left) (later c f draws attempt (more k left)) s (f attempt)
        h in
    let t = slept (failed s attempt e) (calculate_delay c attempt (draws attempt)) in
    let (s', a, (n, d, l)) = attempts_from_retried c f draws (attempt + 1) k left t rest in
    (
      s',
      eq
          ∙ (after_failure-more c draws attempt k left (later c f draws attempt (more k left))
                (failed s attempt e)
              ∙ (a
                  ∙ ap (λ i. after_answer c draws i left (later c f draws i left) s' (f i))
                      (omega arith))),
      (
        omega (arith, n, length-append s.sleeps (calculate_delay c attempt (draws attempt) ∷ [])),
        d,
        l ∙ some_if-false k,
      ),
    )

AllRetried-last :
    (c : RetryConfig) (f : ℕ → Answer) (attempt k : ℕ)
    → AllRetried c f attempt (suc k)
    → AllRetried c f attempt k × IsRetried c (f (attempt + k))
AllRetried-last c f attempt zero (h, t) = (tt, subst (λ i. IsRetried c (f i)) (omega arith) h)
AllRetried-last c f attempt (suc k) (h, t) =
    let (a, b) = AllRetried-last c f (attempt + 1) k t in
    ((h, a), subst (λ i. IsRetried c (f i)) (omega arith) b)

-- what an answer that ends the attempts comes to
abbrev pub Ends : RetryConfig → Answer → Result → Type 0
Ends c (returned a) r = r ≡ success a
Ends c (raised e) r = (is_retryable_exception c e ≡ false) × (r ≡ error e)

-- what the call returns or raises, the attempts made, the sleeps between them
abbrev pub Outcome : Result → ℕ → ℕ → Result × RetryStats → Type 0
Outcome r attempts sleeps o =
    (o.0 ≡ r) × (o.1.attempt_count ≡ attempts) × (length o.1.sleeps ≡ sleeps)

answer_ends :
    (c : RetryConfig) (draws : ℕ → ℕ) (attempt left : ℕ) (go : RetryStats → Result × RetryStats)
    (s : RetryStats) (a : Answer) (r : Result)
    → Ends c a r
    → Outcome r (attempt + 1) (length s.sleeps) (after_answer c draws attempt left go s a)
unfolding after_answer succeeded failed
answer_ends c draws attempt left go s (returned a) r h = (sym h, refl, refl)
answer_ends c draws attempt left go s (raised e) r (h, k) =
    subst
      (λ b. Outcome r (attempt + 1) (length s.sleeps) (
        if not b
        then (error e, failed s attempt e)
        else after_failure c draws attempt left go (failed s attempt e)))
      (sym h) (sym k, refl, refl)

-- When the first k attempts raise errors that may be tried again and the next one returns or raises
-- another error, below the limit of attempts, the call returns or raises that, after exactly k + 1
-- attempts with a sleep after each of the first k.
pub retry_ends :
    (c : RetryConfig) (f : ℕ → Answer) (draws : ℕ → ℕ) (k : ℕ) (r : Result)
    → k < c.max_attempts
    → AllRetried c f 0 k
    → Ends c (f k) r
    → Outcome r (k + 1) k (retry c f draws)
unfolding retry fresh_stats
retry_ends c f draws k r lt h e =
    let left = c.max_attempts - (k + 1) in
    let all : more k left ≡ c.max_attempts = omega (arith, more-add k left, lt) in
    let (s', a, (n, d, l)) = attempts_from_retried c f draws 0 k left fresh_stats h in
    let whole : retry c f draws
        ≡ after_answer c draws (0 + k) left (later c f draws (0 + k) left) s' (f (0 + k)) =
      ap (λ m. attempts_from c f draws 0 m fresh_stats) (sym all) ∙ a in
    let zero_k : 0 + k ≡ k = omega arith in
    let (x, y, z) =
      answer_ends c draws (0 + k) left (later c f draws (0 + k) left) s' (f (0 + k)) r
        (subst (λ i. Ends c (f i) r) (sym zero_k) e) in
    subst (Outcome r (k + 1) k) (sym whole) (x, omega (arith, y), omega (arith, z, n))

-- When all attempts raise errors that may be tried again, the call raises RetryExhaustedError after
-- exactly max_attempts attempts, with a sleep after each but the last.
pub retry_exhausts :
    (c : RetryConfig) (f : ℕ → Answer) (draws : ℕ → ℕ)
    → 1 ≤ c.max_attempts
    → AllRetried c f 0 c.max_attempts
    → Outcome exhausted c.max_attempts (c.max_attempts - 1) (retry c f draws)
unfolding retry fresh_stats after_failure failed
retry_exhausts c f draws n h =
    let k = c.max_attempts - 1 in
    let all : more k 0 ≡ c.max_attempts = omega (arith, more-add k 0, n) in
    let (first, last) =
      AllRetried-last c f 0 k
        (subst (AllRetried c f 0) {y = suc (c.max_attempts - 1)} (omega (arith, n)) h) in
    let (s', a, (m, d, l)) = attempts_from_retried c f draws 0 k 0 fresh_stats first in
    let (e, eq) = retried c draws (0 + k) 0 (later c f draws (0 + k) 0) s' (f (0 + k)) last in
    subst (Outcome exhausted c.max_attempts k)
      (sym (ap (λ m. attempts_from c f draws 0 m fresh_stats) (sym all) ∙ (a ∙ eq)))
      (refl, omega (arith, n), omega (arith, m))

after_answer-returned :
    (c : RetryConfig) (draws : ℕ → ℕ) (attempt left : ℕ) (go : RetryStats → Result × RetryStats)
    (s : RetryStats) (a : ℕ)
    → is_none s.last_exception ≡ false
    → let r = after_answer c draws attempt left go s (returned a) in
      (r.0 ≡ success a) × (stats_success r.1 ≡ false)
unfolding after_answer succeeded stats_success
after_answer-returned c draws attempt left go s a h = (refl, h)

-- A call that returns after at least one attempt that was tried again returns the value, and its
-- statistics say that it did not succeed.
pub late_success_unreported :
    (c : RetryConfig) (f : ℕ → Answer) (draws : ℕ → ℕ) (k a : ℕ)
    → k + 1 < c.max_attempts
    → AllRetried c f 0 (suc k)
    → f (k + 1) ≡ returned a
    → let r = retry c f draws in (r.0 ≡ success a) × (stats_success r.1 ≡ false)
unfolding retry fresh_stats
late_success_unreported c f draws k a lt h e =
    let left = c.max_attempts - (k + 2) in
    let all : more (suc k) left ≡ c.max_attempts = omega (arith, more-add (suc k) left, lt) in
    let (s', x, (n, d, l)) = attempts_from_retried c f draws 0 (suc k) left fresh_stats h in
    let i = 0 + suc k in
    let whole : retry c f draws
        ≡ after_answer c draws i left (later c f draws i left) s' (returned a) =
      ap (λ m. attempts_from c f draws 0 m fresh_stats) (sym all)
      ∙ (x
          ∙ ap (after_answer c draws i left (later c f draws i left) s')
              (ap f (omega arith) ∙ e)) in
    subst (λ r. (r.0 ≡ success a) × (stats_success r.1 ≡ false)) (sym whole)
      (after_answer-returned c draws i left (later c f draws i left) s' a l)

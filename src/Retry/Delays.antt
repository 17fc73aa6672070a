-- ===== src/Retry/Delays.antt =====
-- How long the sleeps between attempts are.
use fapilog.Prelude.{
  ℕ, zero, suc, ◌+◌, ◌*◌, ◌≤◌, min, ◌≡◌, refl, List, [], ◌∷◌, ◌++◌, arith, All, All-append,
  Bool-cases, inl, inr,
}
use fapilog.Retry.{
  RetryConfig, Answer, returned, raised, Jitter, full, equal, RetryStats, fresh_stats, Result,
  is_retryable_exception, attempts_from, after_answer, after_failure, calculate_delay, jittered,
  slept, failed, succeeded, retry, power,
}

mul_mono : (a b c d : ℕ) → a ≤ b → c ≤ d → a * c ≤ d * b
mul_mono a b c d h k =
    let first : a * c ≤ b * c = grind arith in
    let second : c * b ≤ d * b = grind arith in grind arith

jittered-le :
    (j : Jitter) (delay top draw : ℕ)
    → delay ≤ top
    → draw ≤ 1000
    → jittered j delay draw ≤ 2000 * top
unfolding jittered
jittered-le full delay top draw h k = mul_mono delay top (2 * draw) 2000 h (omega (arith, k))
jittered-le equal delay top draw h k = mul_mono delay top (1000 + draw) 2000 h (omega (arith, k))

calculate_delay-le :
    (c : RetryConfig) (attempt draw : ℕ)
    → draw ≤ 1000
    → calculate_delay c attempt draw ≤ 2000 * c.max_delay
unfolding calculate_delay
calculate_delay-le c attempt draw k =
    jittered-le c.jitter (min (c.base_delay * power c.multiplier attempt) c.max_delay) c.max_delay
      draw (omega arith) k

-- sleeps that add up to the total delay, none above the limit
abbrev sum : List ℕ → ℕ
sum [] = 0
sum (x ∷ xs) = x + sum xs

sum-append : (xs ys : List ℕ) → sum (xs ++ ys) ≡ sum xs + sum ys
sum-append [] ys = omega arith
sum-append (x ∷ xs) ys = omega (arith, sum-append xs ys)

abbrev pub AreBounded : RetryConfig → RetryStats → Type 0
AreBounded c s = All (λ d. d ≤ 2000 * c.max_delay) s.sleeps × (sum s.sleeps ≡ s.total_delay)

slept-AreBounded :
    (c : RetryConfig) (s : RetryStats) (delay : ℕ)
    → delay ≤ 2000 * c.max_delay
    → AreBounded c s
    → AreBounded c (slept s delay)
unfolding slept
slept-AreBounded c s delay h (a, b) = (
  All-append (λ d. d ≤ 2000 * c.max_delay) s.sleeps (delay ∷ []) a (h, tt),
  omega (arith, sum-append s.sleeps (delay ∷ []), b),
)

after_failure-AreBounded :
    (c : RetryConfig) (draws : ℕ → ℕ) (attempt left : ℕ) (go : RetryStats → Result × RetryStats)
    (s : RetryStats)
    → ((n : ℕ) → draws n ≤ 1000)
    → ((t : RetryStats) → AreBounded c t → AreBounded c (go t).1)
    → AreBounded c s
    → AreBounded c (after_failure c draws attempt left go s).1
unfolding after_failure
after_failure-AreBounded c draws attempt zero go s k g h = h
after_failure-AreBounded c draws attempt (suc left) go s k g h =
    let delay = calculate_delay c attempt (draws attempt) in
    g (slept s delay)
      (slept-AreBounded c s delay (calculate_delay-le c attempt (draws attempt) (k attempt)) h)

after_answer-AreBounded :
    (c : RetryConfig) (draws : ℕ → ℕ) (attempt left : ℕ) (go : RetryStats → Result × RetryStats)
    (s : RetryStats) (a : Answer)
    → ((n : ℕ) → draws n ≤ 1000)
    → ((t : RetryStats) → AreBounded c t → AreBounded c (go t).1)
    → AreBounded c s
    → AreBounded c (after_answer c draws attempt left go s a).1
unfolding after_answer succeeded failed
after_answer-AreBounded c draws attempt left go s (returned a) k g h = h
after_answer-AreBounded c draws attempt left go s (raised e) k g h =
    elim (Bool-cases (is_retryable_exception c e)) [
      | inl b ↦ rw b (after_failure-AreBounded c draws attempt left go (failed s attempt e) k g h)
      | inr b ↦ rw b h
    ]

attempts_from-AreBounded :
    (c : RetryConfig) (f : ℕ → Answer) (draws : ℕ → ℕ) (attempt left : ℕ)
    → ((n : ℕ) → draws n ≤ 1000)
    → (s : RetryStats) → AreBounded c s
    → AreBounded c (attempts_from c f draws attempt left s).1
unfolding attempts_from
attempts_from-AreBounded c f draws attempt zero k s h = h
attempts_from-AreBounded c f draws attempt (suc left) k s h =
    after_answer-AreBounded c draws attempt left (attempts_from c f draws (attempt + 1) left) s
      (f attempt) k (attempts_from-AreBounded c f draws (attempt + 1) left k) h

-- Whatever the function does, no sleep between attempts is longer than the maximal delay, with
-- either jitter, and the total delay of the statistics is the sum of the sleeps.
pub retry-AreBounded :
    (c : RetryConfig) (f : ℕ → Answer) (draws : ℕ → ℕ)
    → ((n : ℕ) → draws n ≤ 1000)
    → AreBounded c (retry c f draws).1
unfolding retry fresh_stats
retry-AreBounded c f draws k =
    attempts_from-AreBounded c f draws 0 c.max_attempts k fresh_stats (tt, refl)

-- ===== src/Retry/Tests.antt =====
-- The retrier at concrete functions.
use fapilog.Prelude.{ℕ, zero, suc, ◌≡◌, refl, false, none, [], ◌∷◌, codes, arith}
use fapilog.Retry.{
  RetryConfig, Raised, Answer, returned, raised, Result, success, error, exhausted, full, equal,
  retry, timeout, stats_success,
}
use fapilog.Retry.Ended.{Ended, retry-Ended}
use fapilog.Retry.Attempts.{Outcome, retry_ends, retry_exhausts, late_success_unreported}
use fapilog.Retry.Delays.{AreBounded, retry-AreBounded}

abbrev config : RetryConfig
config = record {
  max_attempts = 3;
  base_delay = 1;
  max_delay = 60;
  multiplier = 2;
  retryable_exceptions = codes "OSError" ∷ [];
  jitter = equal;
}

abbrev os_error : Raised
os_error = record { classes = codes "ConnectionError" ∷ codes "OSError" ∷ []; category = none }

abbrev value_error : Raised
value_error = record { classes = codes "ValueError" ∷ []; category = none }

-- fails once, then returns
abbrev flaky : ℕ → Answer
flaky zero = raised os_error
flaky (suc n) = returned 7

abbrev broken : ℕ → Answer
broken n = raised os_error

abbrev draws : ℕ → ℕ
draws n = 500

retry-Ended_example : Ended config flaky (retry config flaky draws)
retry-Ended_example = retry-Ended config flaky draws (omega arith)

flaky_outcome : Outcome (success 7) 2 1 (retry config flaky draws)
unfolding fapilog.Retry.is_retryable_exception
flaky_outcome = retry_ends config flaky draws 1 (success 7) (omega arith) (refl, tt) refl

broken_outcome : Outcome exhausted 3 2 (retry config broken draws)
unfolding fapilog.Retry.is_retryable_exception
broken_outcome = retry_exhausts config broken draws (omega arith) (refl, (refl, (refl, tt)))

flaky_success : let r = retry config flaky draws in (r.0 ≡ success 7) × (stats_success r.1 ≡ false)
unfolding fapilog.Retry.is_retryable_exception
flaky_success = late_success_unreported config flaky draws 0 7 (omega arith) (refl, tt) refl

retry-AreBounded_example : AreBounded config (retry config broken draws).1
retry-AreBounded_example = retry-AreBounded config broken draws (λ n. omega arith)

-- an error that may not be tried again ends the call at once
fatal : Outcome (error value_error) 1 0 (retry config (λ n. raised value_error) draws)
unfolding fapilog.Retry.is_retryable_exception fapilog.Retry.is_retryable_category
fatal =
    retry_ends config (λ n. raised value_error) draws 0 (error value_error) (omega arith) tt
      (refl, refl)

-- ===== src/Retry.antt =====
-- core/retry.py: AsyncRetrier. The function to call answers by the number of the attempt, a timeout
-- of an attempt is an exception like others. Delays are counted in 2000ths of the unit of the
-- configuration, so that jitter is exact: a draw is a number of thousandths. The multiplier, a float
-- in the code, is a natural number here.
pub mod Attempts
pub mod Ended
pub mod Delays
mod Tests
use fapilog.Prelude.{
  ℕ, zero, suc, ◌+◌, ◌-◌, ◌*◌, min, Bool, true, false, not, ◌||◌, ◌&&◌, Option, none, some, List,
  [], ◌∷◌, ◌++◌, Text, text_in, ◌==◌, if◌then◌else◌,
}

pub data ErrorCategory : Type 0 where
  system container component : ErrorCategory
  plugin_load plugin_exec plugin_config : ErrorCategory
  network io timeout : ErrorCategory
  auth authz validation serialization : ErrorCategory
  external database config setup : ErrorCategory

-- an exception: the names of its classes, and the category of a FapilogError
pub record Raised : Type 0 where
  pub classes : List Text
  pub category : Option ErrorCategory

pub data Jitter : Type 0 where
  full equal : Jitter

pub record RetryConfig : Type 0 where
  pub max_attempts : ℕ
  pub base_delay : ℕ
  pub max_delay : ℕ
  pub multiplier : ℕ
  pub retryable_exceptions : List Text
  pub jitter : Jitter

pub data Answer : Type 0 where
  returned : ℕ → Answer
  raised : Raised → Answer

-- `ended` says that the end time is set; `sleeps` are the delays, oldest first
pub record RetryStats : Type 0 where
  pub attempt_count : ℕ
  pub total_delay : ℕ
  pub ended : Bool
  pub last_exception : Option Raised
  pub sleeps : List ℕ

unfoldable pub fresh_stats : RetryStats
fresh_stats = record {
  attempt_count = 0;
  total_delay = 0;
  ended = false;
  last_exception = none;
  sleeps = [];
}

pub data Result : Type 0 where
  success : ℕ → Result
  error : Raised → Result
  exhausted : Result

abbrev any_in : List Text → List Text → Bool
any_in [] classes = false
any_in (c ∷ cs) classes = text_in c classes || any_in cs classes

unfoldable pub is_retryable_category : Option ErrorCategory → Bool
is_retryable_category (some network) = true
is_retryable_category (some timeout) = true
is_retryable_category (some external) = true
is_retryable_category (some io) = true
is_retryable_category _ = false

unfoldable pub is_retryable_exception : RetryConfig → Raised → Bool
unfolding is_retryable_category
is_retryable_exception c e =
    any_in c.retryable_exceptions e.classes || is_retryable_category e.category

abbrev pub power : ℕ → ℕ → ℕ
power m zero = 1
power m (suc n) = m * power m n

unfoldable pub jittered : Jitter → ℕ → ℕ → ℕ
jittered full delay draw = delay * (2 * draw)
jittered equal delay draw = delay * (1000 + draw)

unfoldable pub calculate_delay : RetryConfig → ℕ → ℕ → ℕ
unfolding jittered
calculate_delay c attempt draw =
    jittered c.jitter (min (c.base_delay * power c.multiplier attempt) c.max_delay) draw

-- what an attempt leaves: its number, and a sleep if another one follows
unfoldable pub slept : RetryStats → ℕ → RetryStats
slept s delay = record s { total_delay = s.total_delay + delay; sleeps = s.sleeps ++ delay ∷ [] }

unfoldable pub failed : RetryStats → ℕ → Raised → RetryStats
failed s attempt e = record s { attempt_count = attempt + 1; last_exception = some e }

unfoldable pub succeeded : RetryStats → ℕ → RetryStats
succeeded s attempt = record s { attempt_count = attempt + 1; ended = true }

-- no sleep after the last attempt; `go` makes the further attempts
unfoldable pub after_failure :
    RetryConfig
    → (ℕ → ℕ)
    → ℕ
    → ℕ
    → (RetryStats → Result × RetryStats)
    → RetryStats
    → Result × RetryStats
unfolding slept calculate_delay
after_failure c draws attempt zero go s = (exhausted, record s { ended = true })
after_failure c draws attempt (suc left) go s =
    go (slept s (calculate_delay c attempt (draws attempt)))

unfoldable pub after_answer :
    RetryConfig
    → (ℕ → ℕ)
    → ℕ
    → ℕ
    → (RetryStats → Result × RetryStats)
    → RetryStats
    → Answer
    → Result × RetryStats
unfolding after_failure succeeded failed is_retryable_exception
after_answer c draws attempt left go s (returned a) = (success a, succeeded s attempt)
after_answer c draws attempt left go s (raised e) =
    if not (is_retryable_exception c e)
    then (error e, failed s attempt e)
    else after_failure c draws attempt left go (failed s attempt e)

-- the attempts from this number on, of which so many are left
unfoldable pub attempts_from :
    RetryConfig → (ℕ → Answer) → (ℕ → ℕ) → ℕ → ℕ → RetryStats → Result × RetryStats
unfolding after_answer
attempts_from c f draws attempt zero s = (exhausted, record s { ended = true })
attempts_from c f draws attempt (suc left) s =
    after_answer c draws attempt left (attempts_from c f draws (attempt + 1) left) s (f attempt)

unfoldable pub retry : RetryConfig → (ℕ → Answer) → (ℕ → ℕ) → Result × RetryStats
unfolding attempts_from fresh_stats
retry c f draws = attempts_from c f draws 0 c.max_attempts fresh_stats

abbrev is_none : Option Raised → Bool
is_none none = true
is_none (some e) = false

-- the field `success` of `get_stats`
unfoldable pub stats_success : RetryStats → Bool
stats_success s = s.ended && is_none s.last_exception

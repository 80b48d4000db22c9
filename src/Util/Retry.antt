-- ===== src/Util/Retry.antt =====
-- `RetryPolicy.max_retries` and `exponential_backoff_with_jitter` of app/common/retry.py. The delays
-- are left out.
pub mod Laws
use ushnotice.Common.{ℕ, zero, suc, ◌-◌, String}

-- How a call ends: with a value, with an exception that may be retried, or with another.
pub data Ended (A : Type 0) : Type 0 where
  value : A → Ended A
  retryable : String → Ended A
  other : String → Ended A

unfoldable pub max_retries : ℕ → ℕ
max_retries max_attempts = max_attempts - 1

-- What leaves the function: a value, an exception of the call, or the TypeError of `raise None`.
pub data Retried (A : Type 0) : Type 0 where
  result : A → Retried A
  raised : String → Retried A
  raised_nothing : Retried A

-- `last_exc` after a call
last_exc : {A : Type 0} → Ended A → Retried A
last_exc (retryable message) = raised message
last_exc _ = raised_nothing

module _ {A E : Type 0} where
  -- a call that ends the loop, or else what the loop comes to
  conclude : Ended A → E → Retried A × E → Retried A × E
  conclude (value a) e rest = (result a, e)
  conclude (other message) e rest = (raised message, e)
  conclude (retryable message) e rest = rest

  module _ (func : E → Ended A × E) where
    -- The loop with `left` attempts to come, where `before` is what the last one came to.
    unfoldable pub attempts : ℕ → Retried A → E → Retried A × E
    unfolding last_exc conclude
    attempts zero before e = (before, e)
    attempts (suc left) before e =
        let (r, e') = func e in conclude r e' (attempts left (last_exc r) e')

    unfoldable pub exponential_backoff_with_jitter : ℕ → E → Retried A × E
    unfolding attempts
    exponential_backoff_with_jitter max_attempts e = attempts max_attempts raised_nothing e

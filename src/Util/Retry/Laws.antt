-- ===== src/Util/Retry/Laws.antt =====
-- How often a call is made, and what leaves the loop.
use ushnotice.Common.{ℕ, zero, suc, ◌+◌, ◌≤◌, ◌≡◌, ◌≢◌, refl, arith, String}
use ushnotice.Util.Retry.{
  Ended, value, retryable, other, Retried, raised, raised_nothing, last_exc, conclude, attempts,
  exponential_backoff_with_jitter,
}

module _ {A E : Type 0} (func : E → Ended A × E) where
  -- an ending that leaves a value or an exception
  abbrev IsDecided : Retried A → Type 0
  IsDecided r = r ≢ raised_nothing

  module _ (count : E → ℕ) (counts : (e : E) → count (func e).1 ≡ suc (count e)) where
    conclude_bounded :
        (r : Ended A) (e : E) (rest : Retried A × E) (n : ℕ)
        → count e ≤ n
        → count rest.1 ≤ n
        → count (conclude r e rest).1 ≤ n
    unfolding conclude
    conclude_bounded (value a) e rest n h k = h
    conclude_bounded (other message) e rest n h k = h
    conclude_bounded (retryable message) e rest n h k = k

    attempts_bounded :
        (left : ℕ) (before : Retried A) (e : E)
        → count (attempts func left before e).1 ≤ count e + left
    unfolding attempts
    attempts_bounded zero before e = omega arith
    attempts_bounded (suc left) before e =
        conclude_bounded (func e).0 (func e).1 _ (count e + suc left) (omega (arith, counts e))
          (omega (arith, counts e, attempts_bounded left (last_exc (func e).0) (func e).1))

  conclude-IsDecided :
      (r : Ended A) (e : E) (rest : Retried A × E)
      → (((message : String) → r ≡ retryable message → IsDecided rest.0))
      → IsDecided (conclude r e rest).0
  unfolding conclude
  conclude-IsDecided (value a) e rest h = λ k. cc
  conclude-IsDecided (other message) e rest h = λ k. cc
  conclude-IsDecided (retryable message) e rest h = h message refl

  once-IsDecided :
      (left : ℕ) (before : Retried A) (e : E)
      → ((message : String) → IsDecided (attempts func left (raised message) (func e).1).0)
      → IsDecided (attempts func (suc left) before e).0
  unfolding attempts last_exc
  once-IsDecided left before e h =
      conclude-IsDecided (func e).0 (func e).1 _ (λ message same. rw (same, last_exc) (h message))

  attempts-IsDecided :
      (left : ℕ) (message : String) (e : E) → IsDecided (attempts func left (raised message) e).0
  unfolding attempts
  attempts-IsDecided zero message e = λ k. cc
  attempts-IsDecided (suc left) message e =
      once-IsDecided left (raised message) e (λ m. attempts-IsDecided left m (func e).1)

  -- With at least one attempt, exponential_backoff_with_jitter ends with a value or an exception of
  -- the call, and where the world counts the calls, it makes at most as many as it has attempts.
  pub exponential_backoff_with_jitter_bounded :
      (max_attempts : ℕ) (e : E) (count : E → ℕ)
      → ((e : E) → count (func e).1 ≡ suc (count e))
      → ((exponential_backoff_with_jitter func (suc max_attempts) e).0 ≢ raised_nothing)
        × (count (exponential_backoff_with_jitter func (suc max_attempts) e).1
            ≤ count e + suc max_attempts)
  unfolding exponential_backoff_with_jitter
  exponential_backoff_with_jitter_bounded max_attempts e count counts = (
    once-IsDecided max_attempts raised_nothing e
        (λ m. attempts-IsDecided max_attempts m (func e).1),
    attempts_bounded count counts (suc max_attempts) raised_nothing e,
  )

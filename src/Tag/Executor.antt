-- ===== src/Tag/Executor.antt =====
-- internal/domain/tag/executor.go, the loop that retries an operation of the chat service. The state `S`
-- is all that an operation reads and changes; the context's cancellation is a function of the attempt.
use flowra.Base.{
  ℕ, zero, suc, ◌*◌, Bool, true, false, List, [], ◌∷◌, Result, ok, err, ltb, if◌then◌else◌,
}
use flowra.Errs.{Error, concurrent_modification}

abbrev pub max_retries : ℕ
max_retries = 5

-- In milliseconds.
abbrev pub initial_retry_delay : ℕ
initial_retry_delay = 100

abbrev pub max_retry_delay : ℕ
max_retry_delay = 2000

abbrev pub retry_delay_multiple : ℕ
retry_delay_multiple = 2

abbrev pub is_conflict : Error → Bool
is_conflict concurrent_modification = true
is_conflict _ = false

-- `delay *= retryDelayMultiple; if delay > maxRetryDelay { delay = maxRetryDelay }`
unfoldable pub next_delay : ℕ → ℕ
next_delay d =
    let d' = d * retry_delay_multiple in if ltb max_retry_delay d' then max_retry_delay else d'

-- What retryOnConcurrentModification returns: nil, the operation's own error under the operation's
-- name, the context's error, or the last conflict after the last retry.
pub data Failure : Type 0 where
  named : Error → Failure
  cancelled : Failure
  exhausted : Error → Failure

-- The result, the state after it and the delays that were waited, in order.
pub record Retried {ℓ} (S : Type ℓ) : Type ℓ where
  pub result : Result Failure (Unit {0})
  pub state : S
  pub waited : List ℕ
  pub attempts : ℕ

abbrev pub stop {ℓ} : {S : Type ℓ} → Result Failure (Unit {0}) → S → Retried S
stop r s = record { result = r; state = s; waited = []; attempts = 1 }

abbrev pub waiting {ℓ} : {S : Type ℓ} → ℕ → Retried S → Retried S
waiting delay r = record r { waited = delay ∷ r.waited; attempts = suc r.attempts }

-- The body of the loop up to the test on the number of attempts, with what follows as `k`.
unfoldable pub after_attempt {ℓ} :
    {S : Type ℓ} → Result Error (Unit {0}) × S → (Error → S → Retried S) → Retried S
after_attempt (ok _, s) k = stop (ok tt) s
after_attempt (err e, s) k = if is_conflict e then k e s else stop (err (named e)) s

module _ {ℓ} {S : Type ℓ} (operation : S → Result Error (Unit {0}) × S) (is_done : ℕ → Bool) where
  -- The loop from attempt `n` on, with `left` attempts left after this one.
  unfoldable pub retry_from : ℕ → ℕ → ℕ → S → Retried S
  unfolding after_attempt next_delay
  retry_from zero n delay s = after_attempt (operation s) (λ e s'. stop (err (exhausted e)) s')
  retry_from (suc left) n delay s = after_attempt (operation s) (λ e s'.
      let again = waiting delay (retry_from left (suc n) (next_delay delay) s') in
      if is_done n then stop (err cancelled) s' else again)

  -- retryOnConcurrentModification
  unfoldable pub retry : S → Retried S
  unfolding retry_from
  retry s = retry_from max_retries 0 initial_retry_delay s

-- ===== src/Retry/Attempts.antt =====
-- src/providers/retry.js: `withRetry`. What the operation comes to at each attempt is a function, and so are
-- the random part of a wait, whether `throwIfAborted` throws at the head of an attempt, and whether
-- the sleep after an attempt rejects. The callback onAttempt,
-- which reports to the caller and is taken not to throw, is left out.
use etnpilot.Common.{
  ℕ, zero, suc, ◌+◌, ◌-◌, ◌*◌, ◌^◌, min, Bool, not, ◌&&◌, ◌||◌, Option, none, some, List, [], ◌∷◌,
  if◌then◌else◌, leb, or_else,
}

-- What a call comes to: a value, or an error, with what a ProviderError says of itself (any other
-- error says no to both) and how long the rate limiter asks to wait.
pub data Outcome : Type 0 where
  answered : Outcome
  threw : (retryable safe_to_retry : Bool) → (retry_after_ms : Option ℕ) → Outcome

pub record Options : Type 0 where
  pub attempts : ℕ
  pub base_delay_ms : ℕ
  pub max_delay_ms : ℕ

-- `tried`: the attempt that failed, and how long was waited.
pub record Tried : Type 0 where
  pub attempt : ℕ
  pub wait_ms : ℕ

-- How it ends: with the value, with the error of the last call, or with the signal's reason.
pub data Ending : Type 0 where
  value failure aborted : Ending

-- How many calls were made, how it ended, and what was tried before.
pub record Retried : Type 0 where
  pub calls : ℕ
  pub ending : Ending
  pub tried : List Tried

abbrev pub backoff : Options → ℕ → ℕ
backoff o attempt = min o.max_delay_ms (o.base_delay_ms * 2 ^ (attempt - 1))

abbrev pub add_tried : Tried → Retried → Retried
add_tried t r = record r { tried = t ∷ r.tried }

module _ (o : Options) (call : ℕ → Outcome) (jitter : ℕ → ℕ)
    (is_aborted sleep_rejects : ℕ → Bool) where
  -- `await sleep(waitMs, signal)`, and the attempts after it.
  abbrev pub after_sleep : ℕ → Retried → Retried
  after_sleep attempt rest =
      if sleep_rejects attempt
      then record { calls = attempt; ending = aborted; tried = [] }
      else rest

  abbrev pub after_call : ℕ → Outcome → Retried → Retried
  after_call attempt answered rest = record { calls = attempt; ending = value; tried = [] }
  after_call attempt (threw retryable safe retry_after_ms) rest =
      if not (retryable && safe) || leb o.attempts attempt
      then record { calls = attempt; ending = failure; tried = [] }
      else add_tried
          (record {
            attempt = attempt;
            wait_ms = or_else retry_after_ms (backoff o attempt + jitter attempt);
          })
          (after_sleep attempt rest)

  -- One turn of the loop: `signal?.throwIfAborted()`, the call, and what follows it.
  abbrev pub turn : ℕ → Retried → Retried
  turn attempt rest =
      if is_aborted attempt
      then record { calls = attempt - 1; ending = aborted; tried = [] }
      else after_call attempt (call attempt) rest

  -- The loop from an attempt on, by the attempts that are left.
  unfoldable pub retry_from : ℕ → ℕ → Retried
  retry_from zero attempt = turn attempt (record { calls = attempt; ending = failure; tried = [] })
  retry_from (suc left) attempt = let rest = retry_from left (attempt + 1) in turn attempt rest

  -- From the first attempt; `none` is the TypeError.
  unfoldable pub with_retry : Option Retried
  unfolding retry_from
  with_retry = let r = retry_from (o.attempts - 1) 1 in if leb 1 o.attempts then some r else none

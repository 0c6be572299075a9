-- ===== src/Retry/Examples.antt =====
-- A provider that answers at the second attempt, a wait that the signal ends, and the theorem at them.
use etnpilot.Common.{ℕ, ◌==◌, ◌≡◌, refl, true, false, some, [], ◌∷◌, if◌then◌else◌}
use etnpilot.Retry.Attempts.{
  Outcome, answered, threw, Options, Retried, value, aborted, retry_from, with_retry,
}
use etnpilot.Retry.Replays.{IsSound, with_retry-IsSound}

abbrev options : Options
options = record { attempts = 3; base_delay_ms = 500; max_delay_ms = 8000 }

abbrev limited_once : ℕ → Outcome
limited_once n = if n == 1 then threw true true (some 1500) else answered

abbrev second : Retried
second = record { calls = 2; ending = value; tried = record { attempt = 1; wait_ms = 1500 } ∷ [] }

abbrev interrupted : Retried
interrupted = record second { calls = 1; ending = aborted }

answers_second : with_retry options limited_once (λ n. 7) (λ n. false) (λ n. false) ≡ some second
unfolding with_retry retry_from
answers_second = refl

stops_waiting :
    with_retry options limited_once (λ n. 7) (λ n. false) (λ n. n == 1) ≡ some interrupted
unfolding with_retry retry_from
stops_waiting = refl

with_retry-IsSound_example :
    IsSound options limited_once (λ n. 7) (λ n. false) (λ n. n == 1) 1 interrupted
with_retry-IsSound_example =
    with_retry-IsSound options limited_once (λ n. 7) (λ n. false) (λ n. n == 1) stops_waiting

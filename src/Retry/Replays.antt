-- ===== src/Retry/Replays.antt =====
-- src/providers/retry.js: which calls are repeated, and when the attempts end.
use etnpilot.Common.{
  ℕ, ◌<◌, ◌⊎◌, ap, ◌∙◌, zero, suc, ◌+◌, ◌-◌, ◌≤◌, ◌≡◌, refl, Bool, true, false, not, ◌&&◌, ◌||◌,
  Option, none, some, length, leb, arith, All, Bool-cases, inl, inr, or_else, some-injective, subst,
}
use etnpilot.Retry.Attempts.{
  Outcome, answered, threw, Options, Tried, Retried, Ending, value, failure, aborted, backoff,
  add_tried, after_sleep, after_call, turn, retry_from, with_retry,
}

abbrev pub is_answer : Outcome → Bool
is_answer answered = true
is_answer (threw retryable safe after) = false

-- An error that says that it may be retried and is safe to repeat.
abbrev pub is_replayable : Outcome → Bool
is_replayable answered = false
is_replayable (threw retryable safe after) = retryable && safe

-- What the rate limiter asked for.
abbrev pub asked_wait : Outcome → Option ℕ
asked_wait answered = none
asked_wait (threw retryable safe after) = after

-- An ending by the signal comes before the next call.
abbrev pub overtaken : Ending → ℕ
overtaken aborted = 1
overtaken _ = 0

module _ (o : Options) (call : ℕ → Outcome) (jitter : ℕ → ℕ)
    (is_aborted sleep_rejects : ℕ → Bool) where
  -- An attempt that was followed by another, or by a wait that the signal ended, failed with an error
  -- that allows it, and the wait after it was the one the rate limiter asked for, or else the backoff
  -- with its random part.
  abbrev pub IsReplay : Tried → Type 0
  IsReplay t =
      (is_replayable (call t.attempt) ≡ true)
      × (t.wait_ms ≡ or_else (asked_wait (call t.attempt)) (backoff o t.attempt + jitter t.attempt))

  -- Why it ended after so many calls.
  abbrev pub IsEnd : ℕ → Ending → Type 0
  IsEnd n value = is_answer (call n) ≡ true
  IsEnd n failure =
      (is_answer (call n) ≡ false) × ((not (is_replayable (call n)) || leb o.attempts n) ≡ true)
  IsEnd n aborted = (is_aborted (n + 1) ≡ true) ⊎ (sleep_rejects n ≡ true)

  pub record IsSound (first : ℕ) (r : Retried) : Type 0 where
    pub bounded : r.calls ≤ o.attempts
    pub counted : first + length r.tried ≡ r.calls + overtaken r.ending
    pub replays : All IsReplay r.tried
    pub ends : IsEnd r.calls r.ending
    pub heeds : (n : ℕ) → first ≤ n → n ≤ r.calls → is_aborted n ≡ false
    pub slept : (n : ℕ) → first ≤ n → n < r.calls → sleep_rejects n ≡ false

  only : (P : ℕ → Type 0) (attempt n : ℕ) → P attempt → attempt ≤ n → n ≤ attempt → P n
  only P attempt n p a b = subst P (omega arith) p

  -- What a property of the first number and of those after it says of all.
  from_next :
      (P : ℕ → Type 0) (attempt n : ℕ) → P attempt → (attempt + 1 ≤ n → P n) → attempt ≤ n → P n
  from_next P attempt n p later a = elim (Bool-cases (leb n attempt)) [
    | inl here ↦ only P attempt n p a (ground arith)
    | inr beyond ↦ later (ground arith)
  ]

  again-IsSound :
      (attempt : ℕ) (t : Tried) (rest : Retried)
      → IsReplay t
      → attempt ≤ o.attempts
      → is_aborted attempt ≡ false
      → IsSound (attempt + 1) rest
      → IsSound attempt
          (add_tried t (after_sleep o call jitter is_aborted sleep_rejects attempt rest))
  again-IsSound attempt t rest replay room free s = elim (Bool-cases (sleep_rejects attempt)) [
    | inl stopped ↦ rw stopped (record {
      bounded = room;
      counted = omega arith;
      replays = (replay, tt);
      ends = inr stopped;
      heeds = λ n a b. only (λ m. is_aborted m ≡ false) attempt n free a b;
      slept = λ n a b. absurd (omega arith);
    })
    | inr waited ↦ rw waited (record {
      bounded = s.bounded;
      counted = omega (arith, s.counted);
      replays = (replay, s.replays);
      ends = s.ends;
      heeds = λ n a b. from_next (λ m. is_aborted m ≡ false) attempt n free (λ c. s.heeds n c b) a;
      slept =
          λ n a b. from_next (λ m. sleep_rejects m ≡ false) attempt n waited (λ c. s.slept n c b) a;
    })
  ]

  after_call-IsSound :
      (attempt : ℕ) (c : Outcome) (rest : Retried)
      → call attempt ≡ c
      → attempt ≤ o.attempts
      → is_aborted attempt ≡ false
      → (leb o.attempts attempt ≡ false → IsSound (attempt + 1) rest)
      → IsSound attempt (after_call o call jitter is_aborted sleep_rejects attempt c rest)
  after_call-IsSound attempt answered rest e room free next = record {
    bounded = room;
    counted = omega arith;
    replays = tt;
    ends = rw e refl;
    heeds = λ n a b. only (λ m. is_aborted m ≡ false) attempt n free a b;
    slept = λ n a b. absurd (omega arith);
  }
  after_call-IsSound attempt (threw retryable safe after) rest e room free next =
      elim (Bool-cases (not (retryable && safe) || leb o.attempts attempt)) [
        | inl over ↦ rw over (record {
          bounded = room;
          counted = omega arith;
          replays = tt;
          ends = (rw e refl, rw e over);
          heeds = λ n a b. only (λ m. is_aborted m ≡ false) attempt n free a b;
          slept = λ n a b. absurd (omega arith);
        })
        | inr on ↦ rw on (
            again-IsSound attempt _ rest (rw e ground arith, rw e refl) room free
              (next (ground arith)))
      ]

  turn-IsSound :
      (attempt : ℕ) (rest : Retried)
      → 1 ≤ attempt
      → attempt ≤ o.attempts
      → (leb o.attempts attempt ≡ false → IsSound (attempt + 1) rest)
      → IsSound attempt (turn o call jitter is_aborted sleep_rejects attempt rest)
  turn-IsSound attempt rest positive room next = elim (Bool-cases (is_aborted attempt)) [
    | inr free ↦ rw free (after_call-IsSound attempt (call attempt) rest refl room free next)
    | inl stopped ↦ rw stopped (record {
      bounded = omega arith;
      counted = omega arith;
      replays = tt;
      ends = inl (ap is_aborted {x = attempt - 1 + 1} {y = attempt} (omega arith) ∙ stopped);
      heeds = λ n a b. absurd (omega arith);
      slept = λ n a b. absurd (omega arith);
    })
  ]

  retry_from-IsSound :
      (left attempt : ℕ)
      → 1 ≤ attempt
      → attempt + left ≡ o.attempts
      → IsSound attempt (retry_from o call jitter is_aborted sleep_rejects left attempt)
  unfolding retry_from
  retry_from-IsSound zero attempt positive h =
      turn-IsSound attempt _ positive (omega arith) (λ more. absurd (ground arith))
  retry_from-IsSound (suc left) attempt positive h =
      turn-IsSound attempt _ positive (omega arith)
        (λ more. retry_from-IsSound left (attempt + 1) (omega arith) (omega arith))

-- At most `attempts` calls are made, numbered from 1. A call is repeated only after an error that says
-- that it may be and is safe to repeat, and after the wait that the rate limiter asked for, if it did,
-- or else the backoff. It ends with the value of the last call; or with the error of the last call, if
-- that forbids a repetition or no attempt is left; or by the signal, if it is aborted at the head of
-- the attempt that would come next or ends the wait before that. Before each call that is made the
-- signal was not aborted, and no wait between two calls was ended by it.
pub with_retry-IsSound :
    (o : Options) (call : ℕ → Outcome) (jitter : ℕ → ℕ) (is_aborted sleep_rejects : ℕ → Bool)
    {r : Retried}
    → with_retry o call jitter is_aborted sleep_rejects ≡ some r
    → IsSound o call jitter is_aborted sleep_rejects 1 r
unfolding with_retry
with_retry-IsSound o call jitter is_aborted sleep_rejects {r} e =
    elim (Bool-cases (leb 1 o.attempts)) [
      | inl positive ↦
          subst (IsSound o call jitter is_aborted sleep_rejects 1)
            (some-injective (rw positive at e))
            (retry_from-IsSound o call jitter is_aborted sleep_rejects (o.attempts - 1) 1
              (omega arith) (ground arith))
      | inr not_positive ↦ absurd (cc (rw not_positive at e))
    ]

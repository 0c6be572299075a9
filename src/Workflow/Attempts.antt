-- ===== src/Workflow/Attempts.antt =====
-- src/workflow/engine.js: `executeWithRetry`, the attempts at one step.
use etnpilot.Common.{
  ℕ, zero, suc, ◌+◌, ◌≤◌, ◌≡◌, ◌⊎◌, ◌<◌, refl, sym, ap, ◌∙◌, Bool, true, false, String, JsNumber,
  whole, other, Json, arith, Bool-cases, inl, inr, ◌==◌,
}
use etnpilot.Workflow.Engine.{Settlement, resolved, rejected}

-- The end of one attempt, within its time limit: an error comes with whether the signal is aborted.
pub data AttemptEnd : Type 0 where
  gave : Json → AttemptEnd
  threw : (error : String) (aborted : Bool) → AttemptEnd

pub record Execution : Type 0 where
  pub attempts : ℕ
  pub outcome : Settlement

-- `retries`.
abbrev pub retries_of : JsNumber → ℕ
retries_of (whole n) = n
retries_of other = 0

abbrev pub after_attempt : ℕ → AttemptEnd → Execution → Execution
after_attempt n (gave r) again = record { attempts = n; outcome = resolved r }
after_attempt n (threw e true) again = record { attempts = n; outcome = rejected e }
after_attempt n (threw e false) again = again

-- The error of the last attempt, when no attempt is left.
abbrev pub last_attempt : ℕ → AttemptEnd → Execution
last_attempt n (gave r) = record { attempts = n; outcome = resolved r }
last_attempt n (threw e a) = record { attempts = n; outcome = rejected e }

-- The loop from attempt `n`, with so many retries left.
unfoldable pub attempt_from : ℕ → (ℕ → AttemptEnd) → ℕ → Execution
attempt_from zero run n = last_attempt n (run n)
attempt_from (suc left) run n = after_attempt n (run n) (attempt_from left run (n + 1))

unfoldable pub execute_with_retry : JsNumber → (ℕ → AttemptEnd) → Execution
execute_with_retry retries run = attempt_from (retries_of retries) run 1

-- An attempt that is followed by another.
abbrev pub is_retried : AttemptEnd → Bool
is_retried (threw e false) = true
is_retried _ = false

abbrev pub settlement_of : AttemptEnd → Settlement
settlement_of (gave r) = resolved r
settlement_of (threw e a) = rejected e

-- What the attempts from `n` on come to.
pub record IsOutcome (run : ℕ → AttemptEnd) (n left : ℕ) (x : Execution) : Type 0 where
  pub enough : n ≤ x.attempts
  pub bounded : x.attempts ≤ n + left
  pub last : x.outcome ≡ settlement_of (run x.attempts)
  pub before : (k : ℕ) → n ≤ k → k < x.attempts → is_retried (run k) ≡ true
  pub ended : (is_retried (run x.attempts) ≡ false) ⊎ (x.attempts ≡ n + left)

attempt_from-IsOutcome :
    (left : ℕ) (run : ℕ → AttemptEnd) (n : ℕ) → IsOutcome run n left (attempt_from left run n)
unfolding attempt_from
attempt_from-IsOutcome zero run n = go (run n) refl
  where
    go : (v : AttemptEnd) → run n ≡ v → IsOutcome run n 0 (last_attempt n v)
    go (gave r) e = record {
      enough = omega arith;
      bounded = omega arith;
      last = ap settlement_of (sym e);
      before = λ k a b. absurd (omega (arith, a, b));
      ended = inr (omega arith);
    }
    go (threw x a) e = record {
      enough = omega arith;
      bounded = omega arith;
      last = ap settlement_of (sym e);
      before = λ k a b. absurd (omega (arith, a, b));
      ended = inr (omega arith);
    }
attempt_from-IsOutcome (suc left) run n = go (run n) refl (attempt_from-IsOutcome left run (n + 1))
  where
    go :
        (v : AttemptEnd)
        → run n ≡ v
        → IsOutcome run (n + 1) left (attempt_from left run (n + 1))
        → IsOutcome run n (suc left) (after_attempt n v (attempt_from left run (n + 1)))
    go (gave r) e rest = record {
      enough = omega arith;
      bounded = omega arith;
      last = ap settlement_of (sym e);
      before = λ k a b. absurd (omega (arith, a, b));
      ended = inl (ap is_retried e);
    }
    go (threw x true) e rest = record {
      enough = omega arith;
      bounded = omega arith;
      last = ap settlement_of (sym e);
      before = λ k a b. absurd (omega (arith, a, b));
      ended = inl (ap is_retried e);
    }
    go (threw x false) e rest = record {
      enough = omega (arith, rest.enough);
      bounded = omega (arith, rest.bounded);
      last = rest.last;
      before = λ k a b. elim (Bool-cases (k == n)) [
        | inl here ↦ ap (λ j. is_retried (run j)) (ground (arith, here)) ∙ ap is_retried e
        | inr there ↦ rest.before k (ground (arith, there, a)) b
      ];
      ended = later rest.ended;
    }
      where
        later :
            (is_retried (run (attempt_from left run (n + 1)).attempts) ≡ false)
              ⊎ ((attempt_from left run (n + 1)).attempts ≡ n + 1 + left)
            → (is_retried (run (attempt_from left run (n + 1)).attempts) ≡ false)
              ⊎ ((attempt_from left run (n + 1)).attempts ≡ n + suc left)
        later (inl h) = inl h
        later (inr h) = inr (omega (arith, h))

-- A step is attempted until an attempt gives a result, or fails with the signal aborted, or no retry is left;
-- the outcome is that of the last attempt, and each attempt before it failed with the signal not aborted.
pub execute_with_retry-IsOutcome :
    (retries : JsNumber) (run : ℕ → AttemptEnd)
    → IsOutcome run 1 (retries_of retries) (execute_with_retry retries run)
unfolding execute_with_retry
execute_with_retry-IsOutcome retries run = attempt_from-IsOutcome (retries_of retries) run 1

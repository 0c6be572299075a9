-- ===== src/Ladder/Rungs.antt =====
-- src/workflow/ladder.js: which tiers are tried, and what a pass means.
use etnpilot.Common.{
  ℕ, zero, suc, ◌+◌, ◌-◌, ◌≤◌, ◌<◌, ◌≡◌, refl, ap, ◌∙◌, Bool, true, false, not, ◌&&◌, Option, none,
  some, List, [], ◌∷◌, String, ltb, map, length, all, arith, Bool-cases, inl, inr,
}
use etnpilot.Ladder.Climb.{
  Verifier, Outcome, Difficulty, simple, medium, complex, unknown, Triage, World, Step, Entry,
  Result, passed_at, ladder_exhausted, ladder_stuck, ladder_environment, Run, start_tier,
  verify_all, signature_of, is_command, is_same, record_attempt, turn, climb, first_tier,
  chosen_verifiers, attempt_limit, is_unusable, run_ladder,
}

-- The numbers from `a` on, `n` of them.
abbrev pub from_on : ℕ → ℕ → List ℕ
from_on a zero = []
from_on a (suc n) = a ∷ from_on (a + 1) n

verify_all-none :
    (verify : Verifier → Outcome) (vs : List Verifier)
    → (verify_all verify vs).1 ≡ none
    → all (λ v. (verify v).ok) vs ≡ true
unfolding verify_all
verify_all-none verify [] h = refl
verify_all-none verify (v ∷ vs) h = elim (Bool-cases (verify v).ok) [
  | inl ok ↦ rw ok (verify_all-none verify vs (rw ok at h))
  | inr bad ↦ absurd (cc (rw bad at h))
]

verify_all-some :
    (verify : Verifier → Outcome) (vs : List Verifier) {f : Verifier × String}
    → (verify_all verify vs).1 ≡ some f
    → all (λ v. (verify v).ok) vs ≡ false
unfolding verify_all
verify_all-some verify [] h = absurd (cc)
verify_all-some verify (v ∷ vs) h = elim (Bool-cases (verify v).ok) [
  | inl ok ↦ rw ok (verify_all-some verify vs (rw ok at h))
  | inr bad ↦ rw bad refl
]

module _ (w : World) (verifiers : List Verifier) where
  -- An attempt passes: its agent ends without an error, and every verifier is content.
  abbrev pub passes : ℕ → Bool
  passes n = w.run n && all (λ v. (w.verify n v).ok) verifiers

  -- A pass from attempt `a` on, with `k` attempts left: the first attempt that passes.
  abbrev pub IsFirstPass : ℕ → ℕ → ℕ → Result → Type 0
  IsFirstPass first a k (passed_at tier) =
      (j : ℕ) × (j < k)
      × (tier ≡ first + (a + j))
      × (passes (a + j) ≡ true)
      × (all (λ n. not (passes n)) (from_on a j) ≡ true)
  IsFirstPass first a k _ = Unit

  passes-eq : (m n : ℕ) → m ≡ n → passes m ≡ passes n
  passes-eq m n e = ap passes e

  module _ (first limit : ℕ) where
    record Sound (k a : ℕ) (r : Run) : Type 0 where
      consecutive :
          map (λ (e : Entry). e.tier) r.attempts ≡ from_on (first + a + 1) (length r.attempts)
      bounded : length r.attempts ≤ k
      complete : (r.result ≡ ladder_exhausted) → length r.attempts ≡ k
      pass : IsFirstPass first a k r.result

    later_pass :
        (k a : ℕ) (r : Result)
        → passes a ≡ false
        → IsFirstPass first (a + 1) k r
        → IsFirstPass first a (suc k) r
    later_pass k a (passed_at tier) fails (j, less, at_tier, good, before) = (
      suc j,
      omega arith,
      at_tier ∙ omega arith,
      passes-eq (a + suc j) (a + 1 + j) (omega arith) ∙ good,
      rw fails before,
    )
    later_pass k a ladder_exhausted fails s = tt
    later_pass k a ladder_stuck fails s = tt
    later_pass k a ladder_environment fails s = tt

    record_attempt-Sound :
        (k a : ℕ) (e : Entry) (r : Run)
        → e.tier ≡ first + a + 1
        → passes a ≡ false
        → Sound k (a + 1) r
        → Sound (suc k) a (record_attempt e r)
    record_attempt-Sound k a e r t fails s = record {
      consecutive =
          let here : first + (a + 1) + 1 ≡ first + a + 1 + 1 = omega arith in
          rw t (
            ap (λ x. (first + a + 1) ∷ x)
              (s.consecutive ∙ ap (λ x. from_on x (length r.attempts)) here));
      bounded = omega (arith, s.bounded);
      complete = λ h. ap suc (s.complete h);
      pass = later_pass k a r.result fails s.pass;
    }

    turn-Sound :
        (k a : ℕ) (previous : Option String) (runs : Bool) (checks : List (Verifier × Bool))
        (failure : Option (Verifier × String)) (after_error after_failure : Run)
        → w.run a ≡ runs
        → (verify_all (w.verify a) verifiers).1 ≡ failure
        → Sound k (a + 1) after_error
        → Sound k (a + 1) after_failure
        → Sound
            (suc k)
            a
            (turn w verifiers first limit a previous runs checks failure after_error after_failure)
    turn-Sound k a previous false checks failure after_error after_failure r f s t =
        record_attempt-Sound k a _ after_error refl (rw r refl) s
    turn-Sound k a previous true checks none after_error after_failure r f s t = record {
      consecutive = refl;
      bounded = omega arith;
      complete = λ h. absurd (cc);
      pass = (
        0,
        omega arith,
        omega arith,
        passes-eq (a + 0) a (omega arith) ∙ rw r (verify_all-none (w.verify a) verifiers f),
        refl,
      );
    }
    turn-Sound k a previous true checks (some (v, signature)) after_error after_failure r f s t =
        let fails : passes a ≡ false = rw r (verify_all-some (w.verify a) verifiers f) in
        elim (Bool-cases (is_command v && is_same previous signature && ltb a (limit - 1))) [
          | inl stuck ↦ rw stuck (record {
            consecutive = refl;
            bounded = omega arith;
            complete = λ h. absurd (cc);
            pass = tt;
          })
          | inr on ↦ rw on (record_attempt-Sound k a _ after_failure refl fails t)
        ]

    climb-Sound :
        (k a : ℕ) (previous : Option String)
        → Sound k a (climb w verifiers first limit k a previous)
    unfolding climb
    climb-Sound zero a previous = record {
      consecutive = refl;
      bounded = omega arith;
      complete = λ _. refl;
      pass = tt;
    }
    climb-Sound (suc k) a previous =
        let failure = (verify_all (w.verify a) verifiers).1 in
        turn-Sound k a previous (w.run a) _ failure _ _ refl refl (climb-Sound k (a + 1) previous)
          (climb-Sound k (a + 1) (signature_of failure))

start_tier-bound : (d : Difficulty) (n : ℕ) → start_tier d n ≤ n
start_tier-bound simple n = omega arith
start_tier-bound medium n = omega arith
start_tier-bound complex n = omega arith
start_tier-bound unknown n = omega arith

first_tier-bound : (w : World) (step : Step) → first_tier w step ≤ step.tiers
first_tier-bound w step = elim (Bool-cases step.routed) [
  | inr plain ↦ rw plain (omega arith)
  | inl routed ↦ rw routed (go w.triage w refl)
]
  where
    go :
        (t : Option Triage) (w : World)
        → w.triage ≡ t
        → first_tier w (record step { routed = true }) ≤ step.tiers
    go none w e = rw e (omega arith)
    go (some t) w e = rw e (start_tier-bound t.difficulty step.tiers)

module _ (w : World) (step : Step) where
  -- The attempts are tiers in a row, from the start tier up, no more of them than the limit, and none
  -- beyond the last tier of the step.
  pub run_ladder_rungs :
      (map (λ (e : Entry). e.tier) (run_ladder w step).attempts
        ≡ from_on (first_tier w step + 1) (length (run_ladder w step).attempts))
      × (length (run_ladder w step).attempts ≤ attempt_limit w step)
      × (first_tier w step + length (run_ladder w step).attempts ≤ step.tiers)
  unfolding run_ladder
  run_ladder_rungs = elim (Bool-cases (is_unusable w step)) [
    | inl unusable ↦ rw unusable (refl, omega arith, omega (arith, first_tier-bound w step))
    | inr usable ↦ rw usable (
        let s =
          climb-Sound w (chosen_verifiers w step) (first_tier w step) (attempt_limit w step)
            (attempt_limit w step) 0 none in
        let here : first_tier w step + 0 + 1 ≡ first_tier w step + 1 = omega arith in
        (
          s.consecutive
              ∙ ap
                  (λ x. from_on x (
                    length
                      (climb w (chosen_verifiers w step) (first_tier w step) (attempt_limit w step)
                        (attempt_limit w step) 0 none).attempts))
                  here,
          s.bounded,
          omega (arith, s.bounded, first_tier-bound w step),
        ))
  ]

  -- The receipt returned is that of the first attempt at which the agent ended without an error and
  -- every chosen verifier was content, and of a tier that the start tier and that attempt make up.
  pub run_ladder-IsFirstPass :
      IsFirstPass w
        (chosen_verifiers w step)
        (first_tier w step)
        0
        (attempt_limit w step)
        (run_ladder w step).result
  unfolding run_ladder
  run_ladder-IsFirstPass = elim (Bool-cases (is_unusable w step)) [
    | inl unusable ↦ rw unusable tt
    | inr usable ↦
        rw usable
          (climb-Sound w (chosen_verifiers w step) (first_tier w step) (attempt_limit w step)
            (attempt_limit w step) 0 none).pass
  ]

  -- The ladder is reported as exhausted only after as many attempts as the limit allows.
  pub run_ladder_exhausted :
      (run_ladder w step).result ≡ ladder_exhausted
      → length (run_ladder w step).attempts ≡ attempt_limit w step
  unfolding run_ladder
  run_ladder_exhausted h = elim (Bool-cases (is_unusable w step)) [
    | inl unusable ↦ absurd (cc (rw unusable at h))
    | inr usable ↦ rw usable (
        (climb-Sound w (chosen_verifiers w step) (first_tier w step) (attempt_limit w step)
            (attempt_limit w step) 0 none).complete
          (rw usable at h))
  ]

-- ===== src/Ladder/Climb.antt =====
-- src/workflow/ladder.js: `runLadder`. What the agent, the commands and the reviewers come to at each
-- attempt is a record of functions. Costs and the texts fed back to the next tier are left out.
use etnpilot.Common.{
  ℕ, zero, suc, ◌+◌, ◌-◌, ◌/◌, min, Bool, true, false, not, ◌&&◌, Option, none, some, List, [], ◌∷◌,
  String, str_eq, if◌then◌else◌, ltb, any, keep, or_else,
}

pub data Verifier : Type 0 where
  command reviewer : (name : String) → Verifier

abbrev pub is_command : Verifier → Bool
is_command (command name) = true
is_command (reviewer name) = false

-- What a verifier says (a reviewer is content only with a verdict 'approve'), and the signature of
-- what it says.
pub record Outcome : Type 0 where
  pub ok : Bool
  pub signature : String

pub data Difficulty : Type 0 where
  simple medium complex unknown : Difficulty

pub record Triage : Type 0 where
  pub difficulty : Difficulty
  pub low_risk : Bool

pub record Baseline : Type 0 where
  pub ok : Bool
  pub environment : Bool

-- `triage` and `baseline` are missing if the caller hands in no router or no baseline check; `run`
-- and `verify` tell of the attempt of a number whether the agent ends without an error, and what a
-- verifier says then.
pub record World : Type 0 where
  pub triage : Option Triage
  pub baseline : Option (List Verifier → Baseline)
  pub run : ℕ → Bool
  pub verify : ℕ → Verifier → Outcome

pub record Step : Type 0 where
  pub tiers : ℕ
  pub max_attempts : Option ℕ
  pub verify : List Verifier
  pub verify_light : List Verifier
  pub routed : Bool
  pub baseline : Bool

pub data Status : Type 0 where
  passed failed error : Status

pub record Entry : Type 0 where
  pub tier : ℕ
  pub status : Status
  pub checks : List (Verifier × Bool)

-- The receipt of the tier that passed, or the code of the error thrown.
pub data Result : Type 0 where
  passed_at : (tier : ℕ) → Result
  ladder_exhausted ladder_stuck ladder_environment : Result

pub record Run : Type 0 where
  pub result : Result
  pub attempts : List Entry

-- `startTier`.
abbrev pub start_tier : Difficulty → ℕ → ℕ
start_tier complex tiers = tiers - 1
start_tier medium tiers = min (tiers - 1) (tiers / 2)
start_tier _ tiers = 0

-- The loop over the verifiers: what each said, and the first that failed, with its signature.
unfoldable pub verify_all :
    (Verifier → Outcome) → List Verifier → List (Verifier × Bool) × Option (Verifier × String)
verify_all verify [] = ([], none)
verify_all verify (v ∷ vs) =
    let (checks, failure) = verify_all verify vs in
    if (verify v).ok
    then ((v, true) ∷ checks, failure)
    else ((v, false) ∷ [], some (v, (verify v).signature))

abbrev pub signature_of : Option (Verifier × String) → Option String
signature_of none = none
signature_of (some (v, signature)) = some signature

-- `now === previous`.
abbrev pub is_same : Option String → String → Bool
is_same none s = false
is_same (some p) s = str_eq s p

abbrev pub record_attempt : Entry → Run → Run
record_attempt e r = record r { attempts = e ∷ r.attempts }

abbrev pub ended : Result → Entry → Run
ended result e = record { result = result; attempts = e ∷ [] }

module _ (w : World) (verifiers : List Verifier) (first limit : ℕ) where
  -- The rest of an attempt, once the agent and the verifiers are done; the last two arguments are
  -- what follows an error of the agent, and a failed verification.
  abbrev pub turn :
      ℕ
      → Option String
      → Bool
      → List (Verifier × Bool)
      → Option (Verifier × String)
      → Run
      → Run
      → Run
  turn attempt previous false checks failure after_error after_failure =
      record_attempt (record { tier = first + attempt + 1; status = error; checks = [] })
        after_error
  turn attempt previous true checks none after_error after_failure =
      ended (passed_at (first + attempt))
        (record { tier = first + attempt + 1; status = passed; checks = checks })
  turn attempt previous true checks (some (v, signature)) after_error after_failure =
      let entry : Entry = record { tier = first + attempt + 1; status = failed; checks = checks } in
      if is_command v && is_same previous signature && ltb attempt (limit - 1)
      then ended ladder_stuck entry
      else record_attempt entry after_failure

  -- The loop, with the number of attempts left; `previous` is the signature of the last failed
  -- verification.
  unfoldable pub climb : ℕ → ℕ → Option String → Run
  unfolding verify_all
  climb zero attempt previous = record { result = ladder_exhausted; attempts = [] }
  climb (suc left) attempt previous =
      let (checks, failure) = verify_all (w.verify attempt) verifiers in
      let after_error = climb left (attempt + 1) previous in
      let after_failure = climb left (attempt + 1) (signature_of failure) in
      turn attempt previous (w.run attempt) checks failure after_error after_failure

abbrev pub first_tier : World → Step → ℕ
first_tier w step = if step.routed then tier_of w.triage else 0
  where
    tier_of : Option Triage → ℕ
    tier_of none = 0
    tier_of (some t) = start_tier t.difficulty step.tiers

abbrev pub is_empty : List Verifier → Bool
is_empty [] = true
is_empty (v ∷ vs) = false

-- The light verifiers, if there are any, are used only for a task that is known to be of low risk.
abbrev pub chosen_verifiers : World → Step → List Verifier
chosen_verifiers w step = if step.routed then choice w.triage else step.verify
  where
    choice : Option Triage → List Verifier
    choice none = step.verify
    choice (some t) =
        if t.low_risk && not (is_empty step.verify_light) then step.verify_light else step.verify

abbrev pub attempt_limit : World → Step → ℕ
attempt_limit w step = min (or_else step.max_attempts step.tiers) (step.tiers - first_tier w step)

-- Whether the checks cannot run here, before any change is made.
abbrev pub is_unusable : World → Step → Bool
is_unusable w step = checked w.baseline
  where
    checked : Option (List Verifier → Baseline) → Bool
    checked none = false
    checked (some check) =
        let commands = keep is_command (chosen_verifiers w step) in
        let b = check commands in
        step.baseline && any is_command (chosen_verifiers w step) && (not b.ok && b.environment)

unfoldable pub run_ladder : World → Step → Run
unfolding climb
run_ladder w step =
    if is_unusable w step
    then record { result = ladder_environment; attempts = [] }
    else climb w (chosen_verifiers w step) (first_tier w step) (attempt_limit w step)
        (attempt_limit w step) 0 none

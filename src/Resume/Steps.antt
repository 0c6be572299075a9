-- ===== src/Resume/Steps.antt =====
-- src/runtime/resume-plan.js: `planSteps`, over the entries of a receipt.
use etnpilot.Common.{
  Bool, true, false, not, ◌&&◌, Option, none, some, List, [], ◌∷◌, String, str_eq, if◌then◌else◌,
  all, includes, Json, Fields, field_at, has_field, without,
}
use etnpilot.Receipts.Signing.{is_text, fields_of}

-- A step in the plan that the run-start entry records.
pub record PlanStep : Type 0 where
  pub id : String
  pub kind : String
  pub needs : List String

pub data RerunReason : Type 0 where
  unfinished no_agent need_not_carried no_result : RerunReason

-- What is carried over: `reuse[step.id]`, and the digest of the workspace after the step.
pub record Carried : Type 0 where
  pub result : Fields
  pub entry_hash : Option Json
  pub effect : Option Json
  pub workspace_digest : Option Json

pub data StepAction : Type 0 where
  reuse : Carried → StepAction
  rerun : RerunReason → StepAction

pub record Planned : Type 0 where
  pub step : PlanStep
  pub action : StepAction

-- `[...entries].reverse().find(test)`, which is also what the map of the finished steps has.
abbrev pub keep_later : Option Fields → Bool → Fields → Option Fields
keep_later (some e) b fs = some e
keep_later none true fs = some fs
keep_later none false fs = none

abbrev pub find_last : (Fields → Bool) → List Fields → Option Fields
find_last test [] = none
find_last test (e ∷ es) = keep_later (find_last test es) (test e) e

abbrev pub is_succeeded_entry : Fields → Bool
is_succeeded_entry e = is_text "succeeded" (field_at "status" e)

-- An entry of `finished`.
abbrev pub is_evidence : String → Fields → Bool
is_evidence id e =
    is_text "step" (field_at "type" e) && (is_succeeded_entry e && is_text id (field_at "step" e))

-- `agentEntry`.
abbrev pub is_agent_entry : String → Fields → Bool
is_agent_entry id e =
    not (has_field "type" e)
    && (is_text id (field_at "workflowStep" e)
        && (is_succeeded_entry e && not (has_field "parentRunId" e)))

abbrev pub result_in : Fields → Fields
result_in e = without "proof" (without "signature" (without "hash" (without "previousHash" e)))

abbrev pub carried_from : Fields → Fields → Carried
carried_from evidence entry = record {
  result = result_in entry;
  entry_hash = field_at "hash" entry;
  effect = field_at "effect" evidence;
  workspace_digest = field_at "digest" (fields_of (field_at "workspaceDigest" evidence));
}

abbrev pub is_agent_step : PlanStep → Bool
is_agent_step s = str_eq s.kind "agent"

-- The tests of the loop, the needs being met or not.
abbrev pub action_of : PlanStep → Bool → Option Fields → Option Fields → StepAction
action_of s met none entry = rerun unfinished
action_of s met (some evidence) none =
    if not (is_agent_step s)
    then rerun no_agent
    else if not met
    then rerun need_not_carried
    else rerun no_result
action_of s met (some evidence) (some entry) =
    if met && is_agent_step s
    then reuse (carried_from evidence entry)
    else if not (is_agent_step s)
    then rerun no_agent
    else rerun need_not_carried

abbrev pub is_reuse : StepAction → Bool
is_reuse (reuse c) = true
is_reuse (rerun r) = false

-- `carried.add(step.id)`.
abbrev pub carried_with : StepAction → String → List String → List String
carried_with (reuse c) id carried = id ∷ carried
carried_with (rerun r) id carried = carried

abbrev pub plan_one : List Fields → List String → PlanStep → StepAction
plan_one entries carried s =
    action_of s (all (includes carried) s.needs) (find_last (is_evidence s.id) entries)
      (find_last (is_agent_entry s.id) entries)

-- The loop over `start.plan`, with the ids carried so far.
unfoldable pub plan_from : List Fields → List String → List PlanStep → List Planned
plan_from entries carried [] = []
plan_from entries carried (s ∷ ss) =
    record { step = s; action = plan_one entries carried s }
    ∷ plan_from entries (carried_with (plan_one entries carried s) s.id carried) ss

-- `planSteps`.
unfoldable pub plan_steps : List Fields → List PlanStep → List Planned
plan_steps entries plan = plan_from entries [] plan

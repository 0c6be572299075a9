-- ===== src/Resume/Conditions.antt =====
-- src/runtime/resume-plan.js: when a run can be resumed.
use etnpilot.Common.{
  ◌≡◌, true, false, not, ◌&&◌, Option, some, List, String, all, is_some, Fields, Json, field_at,
  is_truthy, Result, ok,
}
use etnpilot.Receipts.Signing.{is_text, fields_of}
use etnpilot.Receipts.Chain.{Chain, Failure}
use etnpilot.Resume.Steps.{PlanStep, Planned, is_reuse, plan_steps}
use etnpilot.Resume.Plan.{
  Found, Request, Plan, find_first, has_drifted, is_run_start, is_terminal, has_succeeded,
  workspace_path, expected_digest,
}

-- The workspace is as it is recorded, or is to be put back there.
pub data IsRestored (found : Found) (request : Request) (expected : Option Json) : Type 0 where
  same :
      (now : String)
      → found.workspace_now ≡ some now
      → is_text now expected ≡ true
      → IsRestored found request expected
  restored :
      request.reset_partial ≡ true → found.can_restore ≡ true → IsRestored found request expected

-- What resuming a run takes.
pub record CanResume (found : Found) (request : Request) (entries : List Fields) (start : Fields)
    (steps : List Planned) : Type 0 where
  pub unfinished : has_succeeded (find_first is_terminal entries) ≡ false
  pub wet : is_text "dry-run" (field_at "mode" start) ≡ false
  pub something_left : all (λ p. is_reuse p.action) steps ≡ false
  pub asked : is_truthy (field_at "input" (fields_of (field_at "request" start))) ≡ true
  pub placed : is_truthy (workspace_path found request start) ≡ true
  pub free : found.in_use ≡ false
  pub restored_workspace : IsRestored found request (expected_digest found request entries start)
  pub readable : is_some found.config_now ≡ true
  pub agreed :
      (has_drifted found.config_now (field_at "configDigest" start) && not request.allow_drift)
      ≡ false

module _ (found : Found) (request : Request) where
  -- The start of a run that can be resumed, and its receipt.
  pub record Resumes (entries : List Fields) (verified : Result Failure Chain) (p : Plan)
      : Type 0 where
    pub chain : Chain
    pub accepted : verified ≡ ok chain
    pub start : Fields
    pub started : find_first is_run_start entries ≡ some start
    pub plan : List PlanStep
    pub steps : p.steps ≡ plan_steps entries plan
    pub conditions : CanResume found request entries start p.steps

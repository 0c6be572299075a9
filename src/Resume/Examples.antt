-- ===== src/Resume/Examples.antt =====
-- A run of two steps, of which the first finished.
use mathlib.Core.List.{Memᴰ}
use mathlib.Core.List.Memᴰ.{head}
use Prim.Native.String.{◌++◌ as str_append}
use etnpilot.Common.{
  ◌≡◌, refl, true, false, none, some, List, [], ◌∷◌, Json, str, arr, obj, nil, cons, Fields, end,
  field,
}
use etnpilot.Receipts.Lines.{FileLine}
use etnpilot.Receipts.Store.{Hashing, appended, perform_all}
use etnpilot.Receipts.Chain.{Options}
use etnpilot.Receipts.Standing.{new_store}
use etnpilot.Resume.Steps.{PlanStep, Planned, rerun, unfinished, is_reuse, plan_from, plan_steps}
use etnpilot.Resume.Closed.{IsBacked, plan_steps-IsBacked}
use etnpilot.Resume.Plan.{Found, Request}

abbrev hashing : Hashing
hashing = record {
  digest = λ s. str_append "#" s;
  json = record {
    string_text = λ s. s;
    number_text = λ n. "0";
    date_text = λ n. "0";
    before = λ s t. true;
  };
  file_text = λ fs. "{}";
  bytes = λ s. 300;
}

abbrev options : Options
options = record {
  verifiers = [];
  require_signatures = false;
  require_terminal = false;
  require_dated = false;
}

abbrev digest_fields : Json
digest_fields = obj (field "digest" (str "git:1:2") end)

abbrev code_json : Json
code_json = obj (field "id" (str "code") (field "type" (str "agent") end))

abbrev check_json : Json
check_json = obj (
    field "id" (str "check")
      (field "type" (str "check") (field "needs" (arr (cons (str "code") nil)) end)))

abbrev start_fields : Fields
start_fields = field "type" (str "run-start") (
    field "mode" (str "run") (
      field "plan" (arr (cons code_json (cons check_json nil))) (
        field "request" (obj (field "input" (str "do it") end)) (
          field "workspace" (obj (field "path" (str "/w") end))
            (field "workspaceDigest" digest_fields (field "configDigest" (str "c1") end))))))

abbrev result_fields : Fields
result_fields =
    field "workflowStep" (str "code")
      (field "status" (str "succeeded") (field "text" (str "done") end))

abbrev done_fields : Fields
done_fields = field "type" (str "step") (
    field "step" (str "code")
      (field "status" (str "succeeded") (field "workspaceDigest" digest_fields end)))

abbrev lines : List FileLine
lines =
    (perform_all hashing none
      (appended 1 (obj start_fields)
        ∷ appended 2 (obj result_fields)
        ∷ appended 3 (obj done_fields)
        ∷ [])
      new_store).lines

abbrev found : Found
found = record {
  in_use = false;
  workspace_now = some "git:1:2";
  can_restore = true;
  config_now = some "c1";
}

abbrev request : Request
request = record { allow_drift = false; reset_partial = false }

abbrev code_step : PlanStep
code_step = record { id = "code"; kind = "agent"; needs = [] }

abbrev check_step : PlanStep
check_step = record { id = "check"; kind = "check"; needs = "code" ∷ [] }

abbrev recorded : List Fields
recorded = start_fields ∷ result_fields ∷ done_fields ∷ []

abbrev first_planned : Planned
first_planned = elim (plan_steps recorded (code_step ∷ check_step ∷ [])) [
  | [] ↦ record { step = code_step; action = rerun unfinished }
  | p ∷ ps ↦ p
]

first_member : Memᴰ first_planned (plan_steps recorded (code_step ∷ check_step ∷ []))
unfolding plan_steps plan_from
first_member = head refl

first_reused : is_reuse first_planned.action ≡ true
unfolding plan_steps plan_from
first_reused = refl

plan_steps-IsBacked_example :
    IsBacked recorded [] (plan_steps recorded (code_step ∷ check_step ∷ [])) first_planned.step
plan_steps-IsBacked_example =
    plan_steps-IsBacked recorded (code_step ∷ check_step ∷ []) first_planned first_member
      first_reused

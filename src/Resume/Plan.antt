-- ===== src/Resume/Plan.antt =====
-- src/runtime/resume-plan.js: `planResume`, over the lines of a receipt and what is found of the workspace, its
-- lock and the configuration.
use etnpilot.Common.{
  Bool, true, false, not, ◌&&◌, Option, none, some, List, [], ◌∷◌, ◌++◌, String, if◌then◌else◌, all,
  is_some, Json, null, str, arr, obj, Items, nil, cons, Fields, field_at, is_truthy, Result, ok,
  err,
}
use etnpilot.Receipts.Signing.{is_text, fields_of}
use etnpilot.Receipts.Store.{Hashing, is_true}
use etnpilot.Receipts.Lines.{Line, FileLine, contents}
use etnpilot.Receipts.Chain.{Options, Chain, Failure, verify_receipt_file}
use etnpilot.Resume.Steps.{PlanStep, Planned, find_last, is_reuse, is_succeeded_entry, plan_steps}

pub data Refusal : Type 0 where
  receipt_does_not_verify no_run_start no_step_plan already_succeeded dry_run : Refusal
  nothing_left no_request workspace_in_use no_workspace no_workspace_digest : Refusal
  workspace_gone workspace_changed config_unreadable config_changed : Refusal

-- What is found: a run that holds the lock of the worktree, the digest of the workspace if it can be read,
-- whether its recorded state can be put back, and the digest of the configuration if it can be read.
pub record Found : Type 0 where
  pub in_use : Bool
  pub workspace_now : Option String
  pub can_restore : Bool
  pub config_now : Option String

pub record Request : Type 0 where
  pub allow_drift : Bool
  pub reset_partial : Bool

pub record Plan : Type 0 where
  pub resumable : Bool
  pub refusals : List Refusal
  pub steps : List Planned
  pub reset : Bool
  pub reset_offer : Bool
  pub drift : Bool

-- The entries of a receipt that verifies: each of its lines is an object.
abbrev pub entries_of : List Line → List Fields
entries_of [] = []
entries_of (some (obj fs) ∷ ls) = fs ∷ entries_of ls
entries_of (_ ∷ ls) = entries_of ls

abbrev pub find_first : (Fields → Bool) → List Fields → Option Fields
find_first test [] = none
find_first test (e ∷ es) = let rest = find_first test es in if test e then some e else rest

abbrev pub text_in : Option Json → String
text_in (some (str t)) = t
text_in _ = ""

abbrev pub texts_in : Items → List String
texts_in nil = []
texts_in (cons (str t) xs) = t ∷ texts_in xs
texts_in (cons _ xs) = texts_in xs

abbrev pub needs_in : Option Json → List String
needs_in (some (arr xs)) = texts_in xs
needs_in _ = []

-- The steps of `start.plan`, as the run wrote them.
abbrev pub plan_items : Items → List PlanStep
plan_items nil = []
plan_items (cons (obj fs) xs) =
    record {
      id = text_in (field_at "id" fs);
      kind = text_in (field_at "type" fs);
      needs = needs_in (field_at "needs" fs);
    }
    ∷ plan_items xs
plan_items (cons _ xs) = plan_items xs

abbrev pub plan_in : Option Json → Option (List PlanStep)
plan_in (some (arr xs)) = some (plan_items xs)
plan_in _ = none

abbrev pub when : Bool → Refusal → List Refusal
when true r = r ∷ []
when false r = []

abbrev pub is_finished_entry : Fields → Bool
is_finished_entry e = is_text "step" (field_at "type" e) && is_succeeded_entry e

abbrev pub digest_in : Option Fields → Option Json
digest_in none = none
digest_in (some e) = field_at "digest" (fields_of (field_at "workspaceDigest" e))

-- `a ?? b`, null being no value either.
abbrev pub or_other : Option Json → Option Json → Option Json
or_other none d = d
or_other (some null) d = d
or_other (some v) d = some v

abbrev pub same_digest : String → Option Json → Bool
same_digest now expected = is_text now expected

pub record Checked : Type 0 where
  pub refused : List Refusal
  pub resets : Bool
  pub offers : Bool

abbrev pub refused_with : List Refusal → Checked
refused_with rs = record { refused = rs; resets = false; offers = false }

-- The workspace that can be read.
abbrev pub compare_workspace : Found → Request → Option Json → String → Checked
compare_workspace found request expected now =
    if same_digest now expected
    then refused_with []
    else if request.reset_partial && found.can_restore
    then record { refused = []; resets = true; offers = false }
    else record { refused = workspace_changed ∷ []; resets = false; offers = found.can_restore }

abbrev pub check_readable : Found → Request → Option Json → Option String → Checked
check_readable found request expected none = refused_with (workspace_gone ∷ [])
check_readable found request expected (some now) = compare_workspace found request expected now

-- `checkWorkspace`, after the test of the lock.
abbrev pub check_recorded : Found → Request → Option Json → Option Json → Checked
check_recorded found request path expected =
    if not (is_truthy path)
    then refused_with (no_workspace ∷ [])
    else if not (is_truthy expected)
    then refused_with (no_workspace_digest ∷ [])
    else check_readable found request expected found.workspace_now

abbrev pub lock_refusals : Found → Option Json → List Refusal
lock_refusals found path = when (is_truthy path && found.in_use) workspace_in_use

-- Whether the configuration is another than that of the start.
abbrev pub has_drifted : Option String → Option Json → Bool
has_drifted none recorded = false
has_drifted (some now) recorded = not (is_text now recorded)

abbrev pub config_refusals : Found → Request → Option Json → List Refusal
config_refusals found request recorded =
    when (not (is_some found.config_now)) config_unreadable
    ++ when (has_drifted found.config_now recorded && not request.allow_drift) config_changed

abbrev pub is_run_start : Fields → Bool
is_run_start e = is_text "run-start" (field_at "type" e)

abbrev pub is_terminal : Fields → Bool
is_terminal e = is_true (field_at "terminal" e)

abbrev pub has_succeeded : Option Fields → Bool
has_succeeded none = false
has_succeeded (some e) = is_succeeded_entry e

abbrev pub run_refusals : Option Fields → Fields → List Planned → List Refusal
run_refusals terminal start steps =
    when (has_succeeded terminal) already_succeeded
    ++ (when (is_text "dry-run" (field_at "mode" start)) dry_run
        ++ (when (all (λ p. is_reuse p.action) steps) nothing_left
            ++ when (not (is_truthy (field_at "input" (fields_of (field_at "request" start)))))
                no_request))

abbrev pub is_none : List Refusal → Bool
is_none [] = true
is_none (r ∷ rs) = false

abbrev pub refuse_plan : Refusal → Plan
refuse_plan r = record {
  resumable = false;
  refusals = r ∷ [];
  steps = [];
  reset = false;
  reset_offer = false;
  drift = false;
}

module _ (found : Found) (request : Request) where
  abbrev pub workspace_path : Fields → Option Json
  workspace_path start = field_at "path" (fields_of (field_at "workspace" start))

  abbrev pub expected_digest : List Fields → Fields → Option Json
  expected_digest entries start =
      or_other (digest_in (find_last is_finished_entry entries)) (digest_in (some start))

  abbrev pub all_refusals : List Fields → Fields → List Planned → List Refusal
  all_refusals entries start steps =
      run_refusals (find_first is_terminal entries) start steps
      ++ (lock_refusals found (workspace_path start)
          ++ ((check_recorded found request (workspace_path start)
                (expected_digest entries start)).refused
              ++ config_refusals found request (field_at "configDigest" start)))

  abbrev pub plan_started : List Fields → Fields → List PlanStep → Plan
  plan_started entries start plan =
      let steps = plan_steps entries plan in
      let refusals = all_refusals entries start steps in
      let checked =
        check_recorded found request (workspace_path start) (expected_digest entries start) in
      record {
        resumable = is_none refusals;
        refusals = refusals;
        steps = steps;
        reset = checked.resets;
        reset_offer = checked.offers;
        drift = has_drifted found.config_now (field_at "configDigest" start);
      }

  abbrev pub plan_with : List Fields → Option Fields → Option (List PlanStep) → Plan
  plan_with entries none plan = refuse_plan no_run_start
  plan_with entries (some start) none = refuse_plan no_step_plan
  plan_with entries (some start) (some plan) = plan_started entries start plan

  abbrev pub plan_of_start : Option Fields → Option (List PlanStep)
  plan_of_start none = none
  plan_of_start (some start) = plan_in (field_at "plan" start)

  abbrev pub plan_verified : List Fields → Result Failure Chain → Plan
  plan_verified entries (err e) = refuse_plan receipt_does_not_verify
  plan_verified entries (ok c) =
      plan_with entries (find_first is_run_start entries)
        (plan_of_start (find_first is_run_start entries))

  -- `planResume`.
  unfoldable pub plan_resume : Hashing → Options → List FileLine → Plan
  plan_resume h o lines =
      plan_verified (entries_of (contents lines))
        (verify_receipt_file h (record o { require_terminal = false }) lines)

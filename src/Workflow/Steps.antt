-- ===== src/Workflow/Steps.antt =====
-- src/workflow/engine.js: the steps of a workflow and what the engine keeps about each.
use etnpilot.Common.{
  Bool, true, false, ◌&&◌, ◌||◌, Option, none, some, List, [], ◌∷◌, String, str_eq, if◌then◌else◌,
  any, all, keep, Json,
}

-- A step that validateSteps has accepted: its needs are a list.
pub record Step : Type 0 where
  pub id : String
  pub needs : List String

pub data BlockReason : Type 0 where
  dependency_failed fail_fast : BlockReason

pub data Status : Type 0 where
  pending running : Status
  succeeded : (result : Json) → Status
  failed : (error : String) → Status
  blocked : BlockReason → Status

-- The map `states`, of which only the entries of steps are read.
abbrev pub States : Type 0
States = String → Status

-- The entry of a step is changed in place.
abbrev pub set : String → Status → States → String → Status
set id v states k = if str_eq id k then v else states k

abbrev pub is_pending : Status → Bool
is_pending pending = true
is_pending _ = false

abbrev pub is_running : Status → Bool
is_running running = true
is_running _ = false

abbrev pub is_succeeded : Status → Bool
is_succeeded (succeeded r) = true
is_succeeded _ = false

abbrev pub is_failed : Status → Bool
is_failed (failed e) = true
is_failed _ = false

-- `["failed", "blocked"].includes(status)`.
abbrev pub is_lost : Status → Bool
is_lost (failed e) = true
is_lost (blocked r) = true
is_lost _ = false

abbrev pub is_active : Status → Bool
is_active v = is_pending v || is_running v

abbrev pub needs_met : States → Step → Bool
needs_met states s = all (λ n. is_succeeded (states n)) s.needs

abbrev pub needs_lost : States → Step → Bool
needs_lost states s = any (λ n. is_lost (states n)) s.needs

abbrev pub is_ready : States → Step → Bool
is_ready states s = is_pending (states s.id) && needs_met states s

-- `ready`.
abbrev pub ready_steps : States → List Step → List Step
ready_steps states steps = keep (is_ready states) steps

-- `results.get(id)`: the results of the steps that have succeeded.
abbrev pub result_of : Status → Option Json
result_of (succeeded r) = some r
result_of _ = none

-- `dependencyResults`.
abbrev pub dependency_results : States → List String → List (String × Option Json)
dependency_results states [] = []
dependency_results states (n ∷ ns) = (n, result_of (states n)) ∷ dependency_results states ns

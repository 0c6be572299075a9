-- ===== src/Workflow/Graph.antt =====
-- src/workflow/engine.js: `validateSteps` and `assertAcyclic`. The map `indegree` has an entry for each step,
-- in the order of the steps, whose ids are distinct.
use etnpilot.Common.{
  ℕ, zero, suc, ◌+◌, ◌-◌, Bool, false, ◌&&◌, not, Option, none, some, List, [], ◌∷◌, ◌++◌, String,
  str_eq, if◌then◌else◌, includes, length, ltb, ◌==◌, Result, ok, err,
}
use etnpilot.Workflow.Steps.{Step}

-- A step as it is given: its id, if that is a string, and its needs, if there are any.
pub record RawStep : Type 0 where
  pub id : Option String
  pub needs : Option (List String)

pub data StepsError : Type 0 where
  no_steps over_budget no_id cycle : StepsError
  duplicate_step : String → StepsError
  unknown_need : String → String → StepsError
  self_need : String → String → StepsError

-- An entry of `indegree`.
pub record Degree : Type 0 where
  pub step : Step
  pub left : ℕ

abbrev pub ids_of : List Step → List String
ids_of [] = []
ids_of (s ∷ ss) = s.id ∷ ids_of ss

abbrev pub degrees_of : List Step → List Degree
degrees_of [] = []
degrees_of (s ∷ ss) = record { step = s; left = length s.needs } ∷ degrees_of ss

-- `steps.filter(test).map((step) => step.id)`, by the entries.
abbrev pub picked : (Degree → Bool) → List Degree → List String
picked test [] = []
picked test (d ∷ ds) = let rest = picked test ds in if test d then d.step.id ∷ rest else rest

-- The steps without needs, where the queue starts.
abbrev pub free_ids : List Degree → List String
free_ids ds = picked (λ d. d.left == 0) ds

abbrev pub awaits : String → Degree → Bool
awaits id d = includes d.step.needs id

-- The entry after a step is taken from the queue. One at 0 would fall below it, and never be 0 again.
abbrev pub lower_one : String → Degree → Degree
lower_one id d = if awaits id d then record d { left = d.left - 1 } else d

abbrev pub lower : String → List Degree → List Degree
lower id [] = []
lower id (d ∷ ds) = lower_one id d ∷ lower id ds

-- The entry becomes 0.
abbrev pub is_freed : String → Degree → Bool
is_freed id d = awaits id d && (d.left == 1)

-- The steps that are added to the queue.
abbrev pub freed : String → List Degree → List String
freed id ds = picked (is_freed id) ds

-- The loop over the queue, for at most so many steps: the number visited, or nothing if they do not do.
unfoldable pub visit : ℕ → List Degree → List String → ℕ → Option ℕ
visit n ds [] visited = some visited
visit zero ds (id ∷ queue) visited = none
visit (suc n) ds (id ∷ queue) visited = visit n (lower id ds) (queue ++ freed id ds) (visited + 1)

-- The number of steps that `assertAcyclic` visits.
unfoldable pub visited_steps : List Step → Option ℕ
visited_steps steps = visit (length steps) (degrees_of steps) (free_ids (degrees_of steps)) 0

abbrev pub all_visited : Option ℕ → List Step → Bool
all_visited none steps = false
all_visited (some n) steps = n == length steps

-- The ids and the needs, with the ids seen so far.
abbrev pub or_empty : Option (List String) → List String
or_empty none = []
or_empty (some ns) = ns

abbrev pub with_step : Step → Result StepsError (List Step) → Result StepsError (List Step)
with_step s (ok ss) = ok (s ∷ ss)
with_step s (err e) = err e

abbrev pub add_step :
    Option String
    → Option (List String)
    → List String
    → Result StepsError (List Step)
    → Result StepsError (List Step)
add_step none needs seen rest = err no_id
add_step (some id) needs seen rest =
    if str_eq id ""
    then err no_id
    else if includes seen id
    then err (duplicate_step id)
    else with_step (record { id = id; needs = or_empty needs }) rest

abbrev pub seen_with : Option String → List String → List String
seen_with none seen = seen
seen_with (some id) seen = id ∷ seen

abbrev pub normalize : List String → List RawStep → Result StepsError (List Step)
normalize seen [] = ok []
normalize seen (r ∷ rs) = add_step r.id r.needs seen (normalize (seen_with r.id seen) rs)

abbrev pub first_error : Option StepsError → Option StepsError → Option StepsError
first_error none e = e
first_error (some e) _ = some e

-- The first need of a step that is unknown, or the step itself.
abbrev pub need_error : List String → String → List String → Option StepsError
need_error ids id [] = none
need_error ids id (n ∷ ns) =
    let rest = need_error ids id ns in
    if not (includes ids n)
    then some (unknown_need id n)
    else if str_eq n id
    then some (self_need id n)
    else rest

abbrev pub needs_error : List String → List Step → Option StepsError
needs_error ids [] = none
needs_error ids (s ∷ ss) = first_error (need_error ids s.id s.needs) (needs_error ids ss)

abbrev pub check_graph : List Step → Option StepsError → Result StepsError (List Step)
check_graph steps (some e) = err e
check_graph steps none = if all_visited (visited_steps steps) steps then ok steps else err cycle

abbrev pub check_normalized : Result StepsError (List Step) → Result StepsError (List Step)
check_normalized (err e) = err e
check_normalized (ok steps) = check_graph steps (needs_error (ids_of steps) steps)

-- `validateSteps`.
unfoldable pub validate_steps : ℕ → List RawStep → Result StepsError (List Step)
validate_steps max_steps raw =
    if length raw == 0
    then err no_steps
    else if ltb max_steps (length raw)
    then err over_budget
    else check_normalized (normalize [] raw)

-- ===== src/Workflow/Examples.antt =====
-- A workflow of three steps, run to its end, and two that show what the engine does not accept or finish.
use mathlib.Core.List.{Memᴰ}
use mathlib.Core.List.Memᴰ.{head, tail}
use etnpilot.Common.{
  ℕ, ◌≤◌, ◌≡◌, ◌↔◌, refl, sym, subst, true, false, none, some, List, [], ◌∷◌, String, length, All,
  Keyed, arith, ok, str, if◌then◌else◌, ◌==◌, whole,
}
use etnpilot.Workflow.Steps.{Step, needs_met}
use etnpilot.Workflow.Engine.{
  stalled, finished, Config, resolved, rejected, Event, advanced, settled, left, start, perform,
  perform_all,
}
use etnpilot.Workflow.Graph.{RawStep, visit, visited_steps, all_visited, validate_steps}
use etnpilot.Workflow.Counting.{Distinct}
use etnpilot.Workflow.Changes.{is_started}
use etnpilot.Workflow.Invariant.{Fed}
use etnpilot.Workflow.Reachable.{perform_all_schedule}
use etnpilot.Workflow.Orders.{Order, visited_steps-ends}
use etnpilot.Workflow.Accepts.{all_visited_iff}
use etnpilot.Workflow.Progress.{is_stalled}
use etnpilot.Workflow.Valid.{IsRunnable, validate_steps-IsRunnable}
use etnpilot.Workflow.Stalls.{never_stalled}
use etnpilot.Workflow.Attempts.{
  AttemptEnd, threw, gave, attempt_from, execute_with_retry, IsOutcome,
  execute_with_retry-IsOutcome,
}

abbrev plan_step : Step
plan_step = record { id = "plan"; needs = [] }

abbrev code_step : Step
code_step = record { id = "code"; needs = "plan" ∷ [] }

abbrev review_step : Step
review_step = record { id = "review"; needs = "plan" ∷ "code" ∷ [] }

-- The steps stand in the file before what they need.
abbrev steps : List Step
steps = review_step ∷ code_step ∷ plan_step ∷ []

abbrev raw_steps : List RawStep
raw_steps =
    record { id = some "review"; needs = some ("plan" ∷ "code" ∷ []) }
    ∷ record { id = some "code"; needs = some ("plan" ∷ []) }
    ∷ record { id = some "plan"; needs = none }
    ∷ []

abbrev config : Config
config = record { concurrency = 2; stops_early = true }

-- The run of a step from the head of the loop: it is started, called, and settles.
abbrev run_step : String → List Event → List Event
run_step id rest = advanced ∷ advanced ∷ settled id (resolved (str id)) ∷ left id ∷ rest

abbrev to_the_end : List Event
to_the_end = run_step "plan" (run_step "code" (run_step "review" (advanced ∷ [])))

abbrev steps-Keyed : Keyed (λ s. s.id) steps
steps-Keyed = (refl, (refl, (refl, tt)))

accepted : validate_steps 100 raw_steps ≡ ok steps
unfolding validate_steps visited_steps visit
accepted = refl

all_done : (perform_all config steps to_the_end start).phase ≡ finished
unfolding perform_all perform
all_done = refl

three_calls : length (perform_all config steps to_the_end start).calls ≡ 3
unfolding perform_all perform
three_calls = refl

-- Without failFast, a step that stands before the one it needs is not blocked in the same round, and the
-- run is reported as stalled.
stalled_run :
    (perform_all
      (record { concurrency = 1; stops_early = false })
      (record { id = "review"; needs = "code" ∷ [] } ∷ code_step ∷ plan_step ∷ [])
      (advanced
        ∷ advanced
        ∷ settled "plan" (rejected "no plan")
        ∷ left "plan"
        ∷ advanced
        ∷ advanced
        ∷ [])
      start).phase
    ≡ stalled
unfolding perform_all perform
stalled_run = refl

-- A need that is repeated counts twice, and is taken off once.
repeated_need :
    visited_steps (plan_step ∷ record { id = "code"; needs = "plan" ∷ "plan" ∷ [] } ∷ []) ≡ some 1
unfolding visited_steps visit
repeated_need = refl

perform_all_schedule_example :
    (length (perform_all config steps to_the_end start).active ≤ 2)
    × ((s : Step)
        → Memᴰ s steps
        → is_started ((perform_all config steps to_the_end start).states s.id) ≡ true
        → needs_met (perform_all config steps to_the_end start).states s ≡ true)
    × Keyed (λ c. c.step) (perform_all config steps to_the_end start).calls
    × All
        (Fed steps (perform_all config steps to_the_end start).states)
        (perform_all config steps to_the_end start).calls
perform_all_schedule_example = perform_all_schedule config steps steps-Keyed to_the_end

never_stalled_example : is_stalled (perform_all config steps to_the_end start).phase ≡ false
never_stalled_example =
    never_stalled 100 raw_steps steps config accepted refl (omega arith) to_the_end

visited_steps-ends_example : (m : ℕ) × (visited_steps steps ≡ some m) × (m ≤ 3)
visited_steps-ends_example = visited_steps-ends steps steps-Keyed

steps_simple : (s : Step) → Memᴰ s steps → Distinct s.needs
steps_simple s (head e) = subst (λ x. Distinct x.needs) (sym e) (refl, (refl, tt))
steps_simple s (tail (head e)) = subst (λ x. Distinct x.needs) (sym e) (refl, tt)
steps_simple s (tail (tail (head e))) = subst (λ x. Distinct x.needs) (sym e) tt
steps_simple s (tail (tail (tail m))) = elim m [ ]

all_visited_iff_example : (all_visited (visited_steps steps) steps ≡ true) ↔ Order steps
all_visited_iff_example = all_visited_iff steps steps-Keyed steps_simple

validate_steps-IsRunnable_example : IsRunnable 100 steps
validate_steps-IsRunnable_example = validate_steps-IsRunnable 100 raw_steps steps accepted

-- An attempt that fails, and one that gives a result.
abbrev second_time : ℕ → AttemptEnd
second_time n = if n == 1 then threw "busy" false else gave (str "done")

two_attempts : (execute_with_retry (whole 3) second_time).attempts ≡ 2
unfolding execute_with_retry attempt_from
two_attempts = refl

execute_with_retry-IsOutcome_example :
    IsOutcome second_time 1 3 (execute_with_retry (whole 3) second_time)
execute_with_retry-IsOutcome_example = execute_with_retry-IsOutcome (whole 3) second_time

-- ===== src/Worker/Examples.antt =====
-- A worker that runs a job, and the theorems at its run.
use etnpilot.Common.{◌≡◌, refl, true, false, none, some, [], ◌∷◌, null, whole}
use etnpilot.Queue.Types.{Row}
use etnpilot.Queue.Ops.{get_row, NewJob, new_row, take_lease}
use etnpilot.Queue.Owner.{heartbeat, extend_lease}
use etnpilot.Queue.Effects.{Completed}
use etnpilot.Worker.Run.{beat, returned, threw, Assignment, execution, run}
use etnpilot.Worker.Methods.{has_lease}
use etnpilot.Worker.Release.{run-releases, run_returns}

abbrev asked_for : NewJob
asked_for = record {
  kind = "issue";
  delivery_id = none;
  payload = null;
  metadata = null;
  max_attempts = whole 3;
  available_at = none;
}

abbrev claimed : Row
claimed = take_lease "w" 1000 110 (new_row "j" asked_for 3 100)

abbrev assignment : Assignment
assignment = record { id = "j"; worker = "w"; lease_ms = whole 1000; retry_delay_ms = whole 5000 }

run-releases_example :
    has_lease "w" (
      get_row "j" (
        run assignment
          (beat 500 ∷ beat 3000 ∷ [])
          (threw (record { name = none; code = none; safe_to_retry = true }))
          false
          4000
          4001
          (claimed ∷ [])))
    ≡ false
run-releases_example =
    run-releases assignment 5000 (beat 500 ∷ beat 3000 ∷ [])
      (threw (record { name = none; code = none; safe_to_retry = true })) false 4000 4001
      (claimed ∷ []) refl

run_returns_example :
    (s : Row) × (get_row "j"
        (run assignment (beat 500 ∷ []) (returned null) true 900 901 (claimed ∷ []))
      ≡ some s)
    × Completed null 900 (extend_lease 1000 500 claimed) s
unfolding execution heartbeat
run_returns_example =
    run_returns assignment (beat 500 ∷ []) null true 900 901 (claimed ∷ [])
      (extend_lease 1000 500 claimed) (refl, tt) refl refl

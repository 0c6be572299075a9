-- ===== src/Ladder/Examples.antt =====
-- Ladders of four tiers, and the theorems at them.
use etnpilot.Common.{
  ◌+◌, ◌≡◌, ◌≤◌, ◌==◌, refl, true, false, not, none, some, [], ◌∷◌, map, length, if◌then◌else◌,
}
use etnpilot.Ladder.Climb.{
  command, reviewer, medium, World, Step, Entry, passed_at, ladder_exhausted, ladder_stuck, climb,
  verify_all, run_ladder,
}
use etnpilot.Ladder.Rungs.{from_on, IsFirstPass, run_ladder_rungs, run_ladder-IsFirstPass}

abbrev step : Step
step = record {
  tiers = 4;
  max_attempts = none;
  verify = command "npm test" ∷ reviewer "ann" ∷ [];
  verify_light = [];
  routed = true;
  baseline = true;
}

-- The second attempt, on the last tier, passes.
abbrev world : World
world = record {
  triage = some (record { difficulty = medium; low_risk = true });
  baseline = none;
  run = λ n. true;
  verify = λ n v. record { ok = n == 1; signature = "npm test: # failed" };
}

climbs : (run_ladder world step).result ≡ passed_at 3
unfolding run_ladder climb verify_all
climbs = refl

run_ladder_rungs_example :
    (map (λ (e : Entry). e.tier) (run_ladder world step).attempts
      ≡ from_on 3 (length (run_ladder world step).attempts))
    × (length (run_ladder world step).attempts ≤ 2)
    × (2 + length (run_ladder world step).attempts ≤ 4)
run_ladder_rungs_example = run_ladder_rungs world step

run_ladder-IsFirstPass_example : IsFirstPass world step.verify 2 0 2 (run_ladder world step).result
run_ladder-IsFirstPass_example = run_ladder-IsFirstPass world step

abbrev failing : World
failing = record world {
  verify = λ n v. record { ok = false; signature = if n == 0 then "a" else "b" };
}

none_passes : (run_ladder failing step).result ≡ ladder_exhausted
unfolding run_ladder climb verify_all
none_passes = refl

-- The same failure with an attempt between that ends in an error counts as one in a row.
abbrev erring : World
erring = record {
  triage = none;
  baseline = none;
  run = λ n. not (n == 1);
  verify = λ n v. record { ok = false; signature = "npm test: # failed" };
}

stuck_after_error : (run_ladder erring step).result ≡ ladder_stuck
unfolding run_ladder climb verify_all
stuck_after_error = refl

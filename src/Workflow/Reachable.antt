-- ===== src/Workflow/Reachable.antt =====
-- src/workflow/engine.js: a run of the engine, with the promises of its steps in any order.
use mathlib.Core.List.{Memᴰ}
use etnpilot.Common.{
  ◌≤◌, ◌≡◌, ◌⊎◌, refl, Bool, true, false, Option, none, some, List, [], ◌∷◌, String, if◌then◌else◌,
  any, includes, All, Keyed, length, arith, inl, inr,
}
use etnpilot.Workflow.Steps.{Step, is_active, needs_met}
use etnpilot.Workflow.Engine.{
  Phase, looping, waiting, finished, stalled, stopped, blocking, launching, Engine, Config, Event,
  advanced, settled, left, aborted, start, round, advance_from, block_scan, launch, perform,
  perform_all,
}
use etnpilot.Workflow.Changes.{is_started}
use etnpilot.Workflow.Invariant.{Fed, Core, InPhase, Tracked, Sound, launched_id}
use etnpilot.Workflow.Settling.{settle-Sound, leave-Sound}
use etnpilot.Workflow.Starts.{start_scan-Sound, block_scan-Sound, launch-Base}

module _ (config : Config) (steps : List Step) (keyed : Keyed (λ s. s.id) steps) where
  pub Sound-start : Sound config steps start
  Sound-start = record {
    core = record {
      slots = omega arith;
      ordered = λ t m h. absurd (cc);
      clean = λ n k. refl;
      held = λ k h. absurd (cc);
      called = λ k h. absurd (cc);
      once = tt;
      fed = tt;
    };
    tracked = λ k h. absurd (cc);
    in_phase = tt;
  }

  pub Tracked-any :
      (p : Phase) (e : Engine)
      → launched_id p ≡ none
      → Tracked config steps p e.states e.active
      → Tracked config steps looping e.states e.active
  Tracked-any p e n tracked k h = go (tracked k h)
    where
      go :
          (includes e.active k ≡ true) ⊎ (launched_id p ≡ some k)
          → (includes e.active k ≡ true) ⊎ (◌≡◌ {A = Option String} none (some k))
      go (inl a) = inl a
      go (inr b) = absurd (cc)

  round-Sound :
      (e : Engine)
      → Core config steps e.states e.active e.fatal e.calls
      → Tracked config steps looping e.states e.active
      → Sound config steps (round config steps e)
  round-Sound e core tracked = go (any (λ s. is_active (e.states s.id)) steps) e.aborted
    where
      go :
          (b c : Bool)
          → Sound config steps (
              if b
              then if c then record e { phase = stopped } else block_scan config steps steps e
              else record e { phase = finished })
      go true true = record { core = core; tracked = tracked; in_phase = tt }
      go true false = block_scan-Sound config steps steps e keyed (core, tracked)
      go false c = record { core = core; tracked = tracked; in_phase = tt }

  advance-Sound :
      (p : Phase) (e : Engine)
      → Core config steps e.states e.active e.fatal e.calls
      → Tracked config steps p e.states e.active
      → InPhase config steps p e.states e.active e.calls
      → Sound config steps e
      → Sound config steps (advance_from config steps p e)
  advance-Sound looping e core tracked phase sound = round-Sound e core tracked
  advance-Sound waiting e core tracked phase sound = sound
  advance-Sound finished e core tracked phase sound = sound
  advance-Sound stalled e core tracked phase sound = sound
  advance-Sound stopped e core tracked phase sound = sound
  advance-Sound (blocking rest) e core tracked phase sound =
      block_scan-Sound config steps rest e keyed (core, Tracked-any (blocking rest) e refl tracked)
  advance-Sound (launching call rest) e core tracked phase sound =
      start_scan-Sound config steps rest (launch config steps call e)
        (launch-Base config steps call rest e core tracked phase) phase.queued

  pub perform-Sound :
      (v : Event) (e : Engine)
      → Sound config steps e
      → Sound config steps (perform config steps v e)
  unfolding perform
  perform-Sound advanced e sound =
      advance-Sound e.phase e sound.core sound.tracked sound.in_phase sound
  perform-Sound (settled id o) e sound = settle-Sound config steps id o e sound
  perform-Sound (left id) e sound = leave-Sound config steps id e sound
  perform-Sound aborted e sound = record {
    core = sound.core;
    tracked = sound.tracked;
    in_phase = sound.in_phase;
  }

  pub perform_all-Sound :
      (vs : List Event) (e : Engine)
      → Sound config steps e
      → Sound config steps (perform_all config steps vs e)
  unfolding perform_all
  perform_all-Sound [] e sound = sound
  perform_all-Sound (v ∷ vs) e sound =
      perform_all-Sound vs (perform config steps v e) (perform-Sound v e sound)

  -- Of a workflow whose steps have distinct ids, run from its start with any sequence of settlements and
  -- departures: at most `concurrency` steps are in the map `running`; a step that runs, succeeded or failed
  -- has only needs that succeeded; each step is called at most once; and each call is that of a step of the
  -- workflow, whose inputs are its needs by name and in their order, each with the result that this
  -- need has succeeded with and still has.
  pub perform_all_schedule :
      (vs : List Event)
      → let e = perform_all config steps vs start in
        (length e.active ≤ config.concurrency)
        × ((s : Step)
            → Memᴰ s steps
            → is_started (e.states s.id) ≡ true
            → needs_met e.states s ≡ true)
        × Keyed (λ c. c.step) e.calls
        × All (Fed steps e.states) e.calls
  perform_all_schedule vs =
      let sound = perform_all-Sound vs start Sound-start in
      (sound.core.slots, sound.core.ordered, sound.core.once, sound.core.fed)

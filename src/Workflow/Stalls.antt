-- ===== src/Workflow/Stalls.antt =====
-- src/workflow/engine.js: no sequence of events stalls a run that fails fast.
use etnpilot.Common.{
  ℕ, ◌≤◌, ◌≡◌, refl, ap, true, false, ◌&&◌, not, List, [], ◌∷◌, any, includes, Keyed, Bool-cases,
  if_cases, inl, inr, ok,
}
use etnpilot.Workflow.Steps.{Step, is_active, is_pending, is_running, needs_lost, ready_steps}
use etnpilot.Workflow.Engine.{
  Phase, looping, waiting, finished, stalled, stopped, blocking, launching, Engine, Config, Event,
  advanced, settled, left, aborted, start, block_pending, is_stopping, fail_fast_block, start_ready,
  block_scan, round, launch, advance_from, awakened, perform, perform_all,
}
use etnpilot.Workflow.Graph.{RawStep, validate_steps}
use etnpilot.Workflow.Invariant.{Sound, launched_id}
use etnpilot.Workflow.Rounds.{Base}
use etnpilot.Workflow.Reachable.{Sound-start, perform-Sound, Tracked-any}
use etnpilot.Workflow.Orders.{Order}
use etnpilot.Workflow.Progress.{
  is_stalled, IsMoving, is_empty-append, block_pending_none, end_round-active, end_round-quiet,
  start_scan-end, start_ready-IsMoving,
}
use etnpilot.Workflow.Valid.{validate_steps-IsRunnable}

module _ (config : Config) (steps : List Step) (order : Order steps)
    (early : config.stops_early ≡ true) (some_slot : 1 ≤ config.concurrency)
    (keyed : Keyed (λ s. s.id) steps) where
  block_end-IsMoving :
      (e : Engine)
      → Base config steps e
      → IsMoving (start_ready config steps (fail_fast_block config steps e))
  block_end-IsMoving e base = elim (Bool-cases (is_stopping config steps e)) [
    | inl stopping ↦ rw stopping (
        start_scan-end config steps (ready_steps (block_pending e.states) steps)
          (record e { states = block_pending e.states })
          (end_round-quiet config steps (record e { states = block_pending e.states })
            (block_pending_none e.states steps)))
    | inr going ↦ rw going (start_ready-IsMoving config steps order early some_slot e base going)
  ]

  block_scan-IsMoving :
      (rest : List Step) (e : Engine)
      → Base config steps e
      → IsMoving (block_scan config steps rest e)
  block_scan-IsMoving [] e base = block_end-IsMoving e base
  block_scan-IsMoving (s ∷ rest) e base =
      let below = block_scan-IsMoving rest e base in
      if_cases IsMoving (is_pending (e.states s.id) && needs_lost e.states s) (λ t. refl)
        (λ f. below)

  round-IsMoving : (e : Engine) → Base config steps e → IsMoving (round config steps e)
  round-IsMoving e base =
      if_cases IsMoving (any (λ s. is_active (e.states s.id)) steps)
        (λ t. if_cases IsMoving e.aborted (λ a. refl) (λ a. block_scan-IsMoving steps e base))
        (λ f. refl)

  advance-IsMoving :
      (p : Phase) (e : Engine)
      → Sound config steps e
      → e.phase ≡ p
      → IsMoving e
      → IsMoving (advance_from config steps p e)
  advance-IsMoving looping e sound at h =
      round-IsMoving e
        (sound.core, Tracked-any config steps keyed e.phase e (ap launched_id at) sound.tracked)
  advance-IsMoving waiting e sound at h = h
  advance-IsMoving finished e sound at h = h
  advance-IsMoving stalled e sound at h = h
  advance-IsMoving stopped e sound at h = h
  advance-IsMoving (blocking rest) e sound at h =
      block_scan-IsMoving rest e
        (sound.core, Tracked-any config steps keyed e.phase e (ap launched_id at) sound.tracked)
  advance-IsMoving (launching call rest) e sound at h =
      start_scan-end config steps rest (launch config steps call e) (
        end_round-active config steps (launch config steps call e)
          (is_empty-append e.active call.step))

  awakened-IsMoving :
      (p : Phase) → is_stalled p ≡ false → is_stalled (awakened config steps p) ≡ false
  awakened-IsMoving looping h = h
  awakened-IsMoving waiting h = refl
  awakened-IsMoving finished h = h
  awakened-IsMoving stalled h = h
  awakened-IsMoving stopped h = h
  awakened-IsMoving (blocking rest) h = h
  awakened-IsMoving (launching call rest) h = h

  perform-IsMoving :
      (v : Event) (e : Engine)
      → Sound config steps e
      → IsMoving e
      → IsMoving (perform config steps v e)
  unfolding perform
  perform-IsMoving advanced e sound h = advance-IsMoving e.phase e sound refl h
  perform-IsMoving (settled id o) e sound h =
      if_cases IsMoving (includes e.active id && is_running (e.states id)) (λ t. h) (λ f. h)
  perform-IsMoving (left id) e sound h =
      if_cases IsMoving (includes e.active id && not (is_running (e.states id)))
        (λ t. awakened-IsMoving e.phase h) (λ f. h)
  perform-IsMoving aborted e sound h = h

  perform_all-IsMoving :
      (vs : List Event) (e : Engine)
      → Sound config steps e
      → IsMoving e
      → IsMoving (perform_all config steps vs e)
  unfolding perform_all
  perform_all-IsMoving [] e sound h = h
  perform_all-IsMoving (v ∷ vs) e sound h =
      perform_all-IsMoving vs (perform config steps v e)
        (perform-Sound config steps keyed v e sound) (perform-IsMoving v e sound h)

-- With `failFast` and at least one slot, no run of steps that validateSteps has let through ends in the
-- error "Workflow stalled without runnable steps", however the promises of its steps settle.
pub never_stalled :
    (max_steps : ℕ) (raw : List RawStep) (steps : List Step) (config : Config)
    → validate_steps max_steps raw ≡ ok steps
    → config.stops_early ≡ true
    → 1 ≤ config.concurrency
    → (vs : List Event) → is_stalled (perform_all config steps vs start).phase ≡ false
never_stalled max_steps raw steps config valid early some_slot vs =
    let runnable = validate_steps-IsRunnable max_steps raw steps valid in
    perform_all-IsMoving config steps runnable.order early some_slot runnable.keyed vs start
      (Sound-start config steps runnable.keyed) refl

-- ===== src/Workflow/Engine.antt =====
-- src/workflow/engine.js: `run`, cut where it awaits. Between two parts of it the promises of running steps
-- settle, and leave the map `running`, in any order. The event bus is left out: its `emit` never rejects
-- (src/core/events.js), so what it awaits changes nothing but the time.
use etnpilot.Common.{
  ℕ, Bool, true, false, ◌&&◌, not, Option, none, some, List, [], ◌∷◌, ◌++◌, String, str_eq,
  if◌then◌else◌, any, keep, includes, length, ltb, Json,
}
use etnpilot.Workflow.Steps.{
  Step, dependency_failed, fail_fast, Status, pending, running, succeeded, failed, blocked, States,
  set, is_pending, is_running, is_failed, is_active, needs_lost, ready_steps, dependency_results,
}

-- A call of `execute`, by the step and the results of its needs.
pub record Call : Type 0 where
  pub step : String
  pub inputs : List (String × Option Json)

-- Where `run` stands: at the head of its loop, at the await after a step is blocked or started, at the
-- race of the running steps, or at its end.
pub data Phase : Type 0 where
  looping waiting finished stalled stopped : Phase
  blocking : (rest : List Step) → Phase
  launching : (call : Call) (rest : List Step) → Phase

pub record Engine : Type 0 where
  pub states : States
  pub active : List String
  pub fatal : Option String
  pub aborted : Bool
  pub calls : List Call
  pub phase : Phase

pub record Config : Type 0 where
  pub concurrency : ℕ
  pub stops_early : Bool

abbrev pub start : Engine
start = record {
  states = λ id. pending;
  active = [];
  fatal = none;
  aborted = false;
  calls = [];
  phase = looping;
}

abbrev pub is_given : Option String → Bool
is_given none = false
is_given (some e) = true

abbrev pub is_empty : List String → Bool
is_empty [] = true
is_empty (x ∷ xs) = false

-- The pending steps, when nothing is started any more.
abbrev pub block_pending : States → States
block_pending states k = elim (states k) [ pending ↦ blocked fail_fast | v ↦ v ]

-- `running.delete(id)`.
abbrev pub delete : String → List String → List String
delete id xs = keep (λ x. not (str_eq x id)) xs

pub data Settlement : Type 0 where
  resolved : (result : Json) → Settlement
  rejected : (error : String) → Settlement

-- The reactions to the promise of a step.
abbrev pub settled_status : Settlement → Status
settled_status (resolved r) = succeeded r
settled_status (rejected e) = failed e

-- `fatalError ??= error`.
abbrev pub fatal_after : Settlement → Option String → Option String
fatal_after (rejected e) none = some e
fatal_after _ fatal = fatal

-- What happens: `run` goes on from an await, the promise of a step settles, a step leaves the map
-- `running`, and the signal is aborted.
pub data Event : Type 0 where
  advanced : Event
  settled : String → Settlement → Event
  left : String → Event
  aborted : Event

module _ (config : Config) (steps : List Step) where
  -- `fatalError && this.failFast`.
  abbrev pub is_stopping : Engine → Bool
  is_stopping e = is_given e.fatal && config.stops_early

  abbrev pub can_start : Engine → Bool
  can_start e = ltb (length e.active) config.concurrency && not (is_stopping e)

  -- The last test of the loop.
  abbrev pub end_round : Engine → Engine
  end_round e =
      if not (is_empty e.active)
      then record e { phase = waiting }
      else if any (λ s. is_pending (e.states s.id)) steps
      then record e { phase = stalled }
      else record e { phase = looping }

  -- The loop that starts steps, up to its first await.
  abbrev pub start_scan : List Step → Engine → Engine
  start_scan [] e = end_round e
  start_scan (s ∷ rest) e =
      if can_start e
      then record e {
        states = set s.id running e.states;
        phase =
            launching (record { step = s.id; inputs = dependency_results e.states s.needs }) rest;
      }
      else end_round e

  abbrev pub fail_fast_block : Engine → Engine
  fail_fast_block e = if is_stopping e then record e { states = block_pending e.states } else e

  abbrev pub start_ready : Engine → Engine
  start_ready e = start_scan (ready_steps e.states steps) e

  -- The loop that blocks steps, up to its first await.
  abbrev pub block_scan : List Step → Engine → Engine
  block_scan [] e = start_ready (fail_fast_block e)
  block_scan (s ∷ rest) e =
      let next = block_scan rest e in
      if is_pending (e.states s.id) && needs_lost e.states s
      then record e {
        states = set s.id (blocked dependency_failed) e.states;
        phase = blocking rest;
      }
      else next

  abbrev pub round : Engine → Engine
  round e =
      if any (λ s. is_active (e.states s.id)) steps
      then if e.aborted then record e { phase = stopped } else block_scan steps e
      else record e { phase = finished }

  -- `running.set(step.id, promise)`, with the call that makes the promise.
  abbrev pub launch : Call → Engine → Engine
  launch call e = record e { active = e.active ++ call.step ∷ []; calls = e.calls ++ call ∷ [] }

  abbrev pub advance_from : Phase → Engine → Engine
  advance_from looping e = round e
  advance_from (blocking rest) e = block_scan rest e
  advance_from (launching call rest) e = start_scan rest (launch call e)
  advance_from _ e = e

  abbrev pub settle : String → Settlement → Engine → Engine
  settle id outcome e =
      if includes e.active id && is_running (e.states id)
      then record e {
        states = set id (settled_status outcome) e.states;
        fatal = fatal_after outcome e.fatal;
      }
      else e

  -- The race is over when one of the running steps has left.
  abbrev pub awakened : Phase → Phase
  awakened waiting = looping
  awakened p = p

  abbrev pub leave : String → Engine → Engine
  leave id e =
      if includes e.active id && not (is_running (e.states id))
      then record e { active = delete id e.active; phase = awakened e.phase }
      else e

  unfoldable pub perform : Event → Engine → Engine
  perform advanced e = advance_from e.phase e
  perform (settled id outcome) e = settle id outcome e
  perform (left id) e = leave id e
  perform aborted e = record e { aborted = true }

  unfoldable pub perform_all : List Event → Engine → Engine
  perform_all [] e = e
  perform_all (v ∷ vs) e = perform_all vs (perform v e)

  -- The status of the summary.
  abbrev pub has_failed : Engine → Bool
  has_failed e = any (λ s. is_failed (e.states s.id)) steps

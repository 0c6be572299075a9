-- ===== src/Worker/Run.antt =====
-- src/workflow/queue-worker.js: `#run`, from the start of a claimed job's execution to its end. What
-- happens meanwhile is a list of events: the timer beats, the execution saves a checkpoint, or other
-- callers act on the queue. Errors reported to onError are left out.
use etnpilot.Common.{
  ℕ, Bool, true, false, ◌||◌, Option, none, some, List, [], ◌∷◌, String, if◌then◌else◌, Json,
  Fields, JsNumber, Result, ok, err,
}
use etnpilot.Queue.Types.{
  Row, Table, Job, QueueError, type_error, lease_lost, not_found, terminal, invalid_state,
  force_required, is_cancel_requested,
}
use etnpilot.Queue.Ops.{get_row}
use etnpilot.Queue.Owner.{heartbeat, checkpoint, complete, Thrown, fail, mark_canceled, abandon}
use etnpilot.Queue.Calls.{Call, perform_all}

pub data Event : Type 0 where
  beat : (now : ℕ) → Event
  saved : Fields → (stamp now : ℕ) → Event
  others_act : List Call → Event

pub data Ending : Type 0 where
  returned : (result : Json) → Ending
  threw : (error : Thrown) → Ending

-- A job, its worker, and the options of the worker.
pub record Assignment : Type 0 where
  pub id : String
  pub worker : String
  pub lease_ms : JsNumber
  pub retry_delay_ms : JsNumber

-- Whether a beat aborts the execution.
abbrev pub is_lost : Result QueueError Bool → Bool
is_lost (ok true) = false
is_lost (ok false) = true
is_lost (err e) = true

-- The execution: whether its signal is aborted at the end, and the table then.
unfoldable pub execution : Assignment → Bool → List Event → Table → Bool × Table
execution a aborted [] t = (aborted, t)
execution a aborted (beat now ∷ es) t =
    let (r, t') = heartbeat a.id a.worker a.lease_ms now t in
    execution a (aborted || is_lost r) es t'
execution a aborted (saved value stamp now ∷ es) t =
    execution a aborted es (checkpoint a.id a.worker value stamp now t).1
execution a aborted (others_act cs ∷ es) t = execution a aborted es (perform_all cs t)

-- `current?.status === "cancel_requested"`.
abbrev pub wants_cancel : Option Row → Bool
wants_cancel none = false
wants_cancel (some r) = is_cancel_requested r.status

-- An error of the queue, as the `catch` of `#run` sees it.
abbrev pub thrown_by_queue : QueueError → Thrown
thrown_by_queue type_error = record { name = some "TypeError"; code = none; safe_to_retry = false }
thrown_by_queue lease_lost = record {
  name = some "WorkflowQueueStateError";
  code = some "lease_lost";
  safe_to_retry = false;
}
thrown_by_queue not_found = record {
  name = some "WorkflowQueueStateError";
  code = some "not_found";
  safe_to_retry = false;
}
thrown_by_queue terminal = record {
  name = some "WorkflowQueueStateError";
  code = some "terminal";
  safe_to_retry = false;
}
thrown_by_queue invalid_state = record {
  name = some "WorkflowQueueStateError";
  code = some "invalid_state";
  safe_to_retry = false;
}
thrown_by_queue force_required = record {
  name = some "WorkflowQueueStateError";
  code = some "force_required";
  safe_to_retry = false;
}

-- The `catch` of `#run`, as the table it leaves; `gives_up` is `stopping || signal.aborted`.
abbrev pub catch_error : Assignment → Bool → Thrown → ℕ → Table → Table
catch_error a gives_up error now t =
    if wants_cancel (get_row a.id t)
    then (mark_canceled a.id a.worker now t).1
    else if gives_up
    then (abandon a.id a.worker "Worker stopped or lost its lease during execution." now t).1
    else (fail a.id a.worker error a.retry_delay_ms error.safe_to_retry now t).1

-- What follows the calls after a result: they may throw as well.
abbrev pub after_result : Assignment → Bool → ℕ → Result QueueError (Option Job) → Table → Table
after_result a gives_up now (ok job) t = t
after_result a gives_up now (err e) t = catch_error a gives_up (thrown_by_queue e) now t

abbrev pub settle : Assignment → Bool → Ending → (now again : ℕ) → Table → Table
settle a gives_up (threw error) now again t = catch_error a gives_up error now t
settle a gives_up (returned result) now again t =
    let (r, t') =
      if wants_cancel (get_row a.id t)
      then mark_canceled a.id a.worker now t
      else complete a.id a.worker result now t in
    after_result a gives_up again r t'

-- `#run`; `stopping` is whether the worker is stopping at the end.
unfoldable pub run :
    Assignment → List Event → Ending → (stopping : Bool) → (now again : ℕ) → Table → Table
unfolding execution
run a es ending stopping now again t =
    let (aborted, t') = execution a false es t in settle a (stopping || aborted) ending now again t'

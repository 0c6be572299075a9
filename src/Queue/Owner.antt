-- ===== src/Queue/Owner.antt =====
-- src/workflow/queue.js: what the worker that holds a job's lease does with it, what an operator
-- does.
use etnpilot.Common.{
  ℕ, ◌+◌, Bool, not, ◌&&◌, ◌||◌, Option, none, some, String, str_eq, if◌then◌else◌, ltb, ◌==◌,
  or_else, count, Json, str, time, obj, Fields, end, field, put, spread, JsNumber, update, ok,
  ◌>>=◌, ◌>>◌, pure, throw, require,
}
use etnpilot.Queue.Types.{
  Status, queued, retry_scheduled, cancel_requested, succeeded, failed, canceled, is_leased,
  is_running, is_cancel_requested, is_orphaned, is_terminal, is_resumable, Row, lease_lost,
  not_found, terminal, invalid_state, force_required, QueueAction, Job, owned_by,
}
use etnpilot.Queue.Ops.{
  has_id, get_row, get, positive_integer, non_negative_integer, stamped, orphaned_error, orphan,
}

-- An UPDATE, with the number of rows that it changed.
abbrev pub change : (Row → Bool) → (Row → Row) → QueueAction ℕ
change test f t = (ok (count test t), update test f t)

-- WHERE id = ? AND status = 'running' AND lease_owner = ?
abbrev pub held_by : String → String → Row → Bool
held_by id worker r = has_id id r && is_running r.status && owned_by worker r.lease_owner

abbrev pub extend_lease : ℕ → ℕ → Row → Row
extend_lease lease now r = record r { lease_expires_at = some (now + lease); updated_at = now }

unfoldable pub heartbeat : String → String → JsNumber → ℕ → QueueAction Bool
heartbeat id worker lease_ms now = do
  lease ← positive_integer lease_ms
  changes ← change (held_by id worker) (extend_lease lease now)
  pure (changes == 1)

-- `#assertOwned`: the job that the worker holds, or the error that it lost it.
abbrev pub owned : String → Option Row → QueueAction Row
owned worker none = throw lease_lost
owned worker (some r) =
    if is_running r.status && owned_by worker r.lease_owner then pure r else throw lease_lost

abbrev pub get_owned : String → String → QueueAction Row
get_owned id worker t = owned worker (get_row id t) t

-- The UPDATE of a job that must still be held, and the job as it is then.
abbrev pub change_held : String → String → (Row → Row) → QueueAction (Option Job)
change_held id worker f = do
  changes ← change (held_by id worker) f
  require (changes == 1) lease_lost
  get id

abbrev pub save_checkpoint : Fields → ℕ → Row → Row
save_checkpoint value now r = record r { checkpoint_json = value; updated_at = now }

-- `this.now()` is read twice: for the stamp, and for `updated_at`.
unfoldable pub checkpoint : String → String → Fields → ℕ → ℕ → QueueAction (Option Job)
checkpoint id worker value stamp now = do
  job ← get_owned id worker
  let merged = put "at" (time stamp) (spread job.checkpoint_json value)
  change_held id worker (save_checkpoint merged now)

abbrev pub finish_row : Status → Json → ℕ → Row → Row
finish_row status result now r = record r {
  status = status;
  result_json = some result;
  error_json = none;
  lease_owner = none;
  lease_expires_at = none;
  updated_at = now;
  finished_at = some now;
}

-- `#finish`, which only `complete` calls.
unfoldable pub finish : String → String → Status → Json → ℕ → QueueAction (Option Job)
finish id worker status result now = do
  job ← get_owned id worker
  change_held id worker (finish_row status result now)

unfoldable pub complete : String → String → Json → ℕ → QueueAction (Option Job)
unfolding finish
complete id worker result now = finish id worker succeeded result now

-- What `execute` threw: its name if it is an Error, and its `code`.
pub record Thrown : Type 0 where
  pub name : Option String
  pub code : Option String
  pub safe_to_retry : Bool

-- `...(error?.code ? { code: error.code } : {})`.
abbrev pub code_field : Option String → Fields
code_field none = end
code_field (some code) = if str_eq code "" then end else field "code" (str code) end

unfoldable pub summarize_error : Thrown → Json
summarize_error error = obj (
    field "name" (str (or_else error.name "Error")) (
      field "message" (str "Workflow execution failed. Inspect server logs and the run receipt.")
        (code_field error.code)))

abbrev pub failed_row : Bool → Json → ℕ → ℕ → Row → Row
failed_row can_retry error available now r = record r {
  status = if can_retry then retry_scheduled else failed;
  error_json = some error;
  available_at = available;
  lease_owner = none;
  lease_expires_at = none;
  updated_at = now;
  finished_at = if can_retry then none else some now;
}

-- What `fail` does once the job is seen to be held.
abbrev pub fail_held : String → String → Thrown → ℕ → Bool → ℕ → Row → QueueAction (Option Job)
fail_held id worker error retry_delay safe_to_retry now job =
    let can_retry = safe_to_retry && ltb job.attempts job.max_attempts in
    change_held id worker (failed_row can_retry (summarize_error error) (now + retry_delay) now)

unfoldable pub fail : String → String → Thrown → JsNumber → Bool → ℕ → QueueAction (Option Job)
fail id worker error retry_delay_ms safe_to_retry now = do
  retry_delay ← non_negative_integer retry_delay_ms
  job ← get_owned id worker
  fail_held id worker error retry_delay safe_to_retry now job

abbrev pub cancellation : Option String → String → Json
cancellation reason actor = obj (
    field "name" (str "Cancellation") (
      field "message" (str (or_else reason "Canceled by operator."))
        (field "actor" (str actor) end)))

abbrev pub cancel_row : Bool → Json → ℕ → Row → Row
cancel_row is_active error now r = record r {
  status = if is_active then cancel_requested else canceled;
  error_json = some error;
  updated_at = now;
  finished_at = if is_active then none else some now;
}

abbrev pub existing : Option Row → QueueAction Row
existing none = throw not_found
existing (some r) = pure r

abbrev pub get_existing : String → QueueAction Row
get_existing id t = existing (get_row id t) t

-- `request_cancel` and `resume`, once the job is found.
abbrev pub cancel_found : String → String → Option String → ℕ → Row → QueueAction (Option Job)
cancel_found id actor reason now job = do
  require (not (is_terminal job.status)) terminal
  changes ←
      change (λ r. has_id id r && not (is_terminal r.status))
        (cancel_row (is_leased job.status) (cancellation reason actor) now)
  get id

unfoldable pub request_cancel : String → String → Option String → ℕ → QueueAction (Option Job)
request_cancel id actor reason now = do job ← get_existing id; cancel_found id actor reason now job

abbrev pub canceled_row : ℕ → Row → Row
canceled_row now r = record r {
  status = canceled;
  lease_owner = none;
  lease_expires_at = none;
  updated_at = now;
  finished_at = some now;
}

unfoldable pub mark_canceled : String → String → ℕ → QueueAction (Option Job)
mark_canceled id worker now = do
  changes ←
      change (λ r. has_id id r && is_cancel_requested r.status && owned_by worker r.lease_owner)
        (canceled_row now)
  require (changes == 1) lease_lost
  get id

-- Whether or not a row changed, the answer is the job as it is then.
unfoldable pub abandon : String → String → String → ℕ → QueueAction (Option Job)
abandon id worker reason now = do
  changes ←
      change (λ r. has_id id r && is_leased r.status && owned_by worker r.lease_owner)
        (orphan (orphaned_error reason) now)
  get id

abbrev pub resumed_row : ℕ → Row → Row
resumed_row now r = record r {
  status = queued;
  attempts = 0;
  available_at = now;
  lease_owner = none;
  lease_expires_at = none;
  result_json = none;
  error_json = none;
  started_at = none;
  finished_at = none;
  updated_at = now;
  checkpoint_json = stamped "resumed" now;
}

abbrev pub resume_found : String → Bool → ℕ → Row → QueueAction (Option Job)
resume_found id force now job = do
  require (is_resumable job.status) invalid_state
  require (not (is_orphaned job.status) || force) force_required
  changes ← change (has_id id) (resumed_row now)
  get id

unfoldable pub resume : String → Bool → ℕ → QueueAction (Option Job)
resume id force now = do job ← get_existing id; resume_found id force now job

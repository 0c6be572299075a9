-- ===== src/Queue/Effects.antt =====
-- src/workflow/queue.js: what the UPDATEs mean for the row of a job, told column by column: of the row `r`
-- before and the row `s` after.
use etnpilot.Common.{
  ℕ, ◌+◌, ◌≡◌, Bool, true, false, ◌&&◌, Option, none, some, String, str_eq, if◌then◌else◌, ltb,
  or_else, Json, str, time, obj, Fields, end, field, field_at,
}
use etnpilot.Queue.Types.{
  queued, retry_scheduled, running, cancel_requested, succeeded, failed, canceled, is_leased, Row,
}
use etnpilot.Queue.Owner.{Thrown}

-- What no UPDATE touches: what was asked for, by whom and when.
pub record SameJob (r s : Row) : Type 0 where
  pub id : s.id ≡ r.id
  pub kind : s.kind ≡ r.kind
  pub delivery_id : s.delivery_id ≡ r.delivery_id
  pub payload : s.payload_json ≡ r.payload_json
  pub metadata : s.metadata_json ≡ r.metadata_json
  pub max_attempts : s.max_attempts ≡ r.max_attempts
  pub created_at : s.created_at ≡ r.created_at

-- Nobody holds a lease of the job.
abbrev pub Unleased : Row → Type 0
Unleased s = (s.lease_owner ≡ none) × (s.lease_expires_at ≡ none)

-- The job runs under the worker's lease, which counts as one more attempt; its first start is kept,
-- as is its progress.
pub record Leased (worker : String) (lease now : ℕ) (r s : Row) : Type 0 where
  pub same : SameJob r s
  pub status : s.status ≡ running
  pub attempts : s.attempts ≡ r.attempts + 1
  pub owner : s.lease_owner ≡ some worker
  pub expiry : s.lease_expires_at ≡ some (now + lease)
  pub started_at : s.started_at ≡ some (or_else r.started_at now)
  pub updated_at : s.updated_at ≡ now
  pub checkpoint : s.checkpoint_json ≡ r.checkpoint_json
  pub result : s.result_json ≡ r.result_json
  pub error : s.error_json ≡ r.error_json
  pub available_at : s.available_at ≡ r.available_at
  pub finished_at : s.finished_at ≡ r.finished_at

-- The job has ended with the result and without an error.
pub record Completed (result : Json) (now : ℕ) (r s : Row) : Type 0 where
  pub same : SameJob r s
  pub status : s.status ≡ succeeded
  pub recorded : s.result_json ≡ some result
  pub error : s.error_json ≡ none
  pub lease : Unleased s
  pub finished_at : s.finished_at ≡ some now
  pub updated_at : s.updated_at ≡ now
  pub attempts : s.attempts ≡ r.attempts
  pub checkpoint : s.checkpoint_json ≡ r.checkpoint_json
  pub started_at : s.started_at ≡ r.started_at
  pub available_at : s.available_at ≡ r.available_at

-- The code of an error is kept if it is not empty.
abbrev pub kept_code : Option String → Option Json
kept_code none = none
kept_code (some code) = if str_eq code "" then none else some (str code)

-- What is kept of an error: its name and its code, and a message that does not tell its own.
abbrev pub Summarizes : Thrown → Json → Type 0
Summarizes error j =
    (fs : Fields) × (j ≡ obj fs)
    × (field_at "name" fs ≡ some (str (or_else error.name "Error")))
    × (field_at "message" fs
        ≡ some (str "Workflow execution failed. Inspect server logs and the run receipt."))
    × (field_at "code" fs ≡ kept_code error.code)

-- The failure is recorded: the job is due again after the delay if that is safe and an attempt is
-- left, and has failed for good otherwise.
pub record FailureRecorded (error : Thrown) (delay : ℕ) (safe : Bool) (now : ℕ) (r s : Row)
    : Type 0 where
  pub same : SameJob r s
  pub status :
      s.status ≡ (if safe && ltb r.attempts r.max_attempts then retry_scheduled else failed)
  pub finished_at :
      s.finished_at ≡ (if safe && ltb r.attempts r.max_attempts then none else some now)
  pub recorded : (j : Json) × (s.error_json ≡ some j) × Summarizes error j
  pub available_at : s.available_at ≡ now + delay
  pub lease : Unleased s
  pub updated_at : s.updated_at ≡ now
  pub attempts : s.attempts ≡ r.attempts
  pub result : s.result_json ≡ r.result_json
  pub checkpoint : s.checkpoint_json ≡ r.checkpoint_json
  pub started_at : s.started_at ≡ r.started_at

-- The value of a key after the last field that sets it, or else the one before.
abbrev pub latest : String → Option Json → Fields → Option Json
latest k old end = old
latest k old (field j v fs) = latest k (if str_eq j k then some v else old) fs

-- The new fields stand over the former ones, under a new stamp, and the lease is as before.
pub record Checkpointed (value : Fields) (stamp now : ℕ) (r s : Row) : Type 0 where
  pub same : SameJob r s
  pub merged :
      (k : String)
      → field_at k s.checkpoint_json ≡ (
          if str_eq "at" k
          then some (time stamp)
          else latest k (field_at k r.checkpoint_json) value)
  pub updated_at : s.updated_at ≡ now
  pub status : s.status ≡ r.status
  pub owner : s.lease_owner ≡ r.lease_owner
  pub expiry : s.lease_expires_at ≡ r.lease_expires_at
  pub attempts : s.attempts ≡ r.attempts
  pub result : s.result_json ≡ r.result_json
  pub error : s.error_json ≡ r.error_json
  pub available_at : s.available_at ≡ r.available_at
  pub started_at : s.started_at ≡ r.started_at
  pub finished_at : s.finished_at ≡ r.finished_at

-- The job waits as on its first day, except that its progress says that it was resumed.
pub record Requeued (now : ℕ) (r s : Row) : Type 0 where
  pub same : SameJob r s
  pub status : s.status ≡ queued
  pub attempts : s.attempts ≡ 0
  pub available_at : s.available_at ≡ now
  pub lease : Unleased s
  pub result : s.result_json ≡ none
  pub error : s.error_json ≡ none
  pub started_at : s.started_at ≡ none
  pub finished_at : s.finished_at ≡ none
  pub updated_at : s.updated_at ≡ now
  pub phase : field_at "phase" s.checkpoint_json ≡ some (str "resumed")
  pub stamp : field_at "at" s.checkpoint_json ≡ some (time now)

-- Who canceled, and why.
abbrev pub Explained : String → Option String → Json → Type 0
Explained actor reason j =
    (fs : Fields) × (j ≡ obj fs)
    × (field_at "name" fs ≡ some (str "Cancellation"))
    × (field_at "message" fs ≡ some (str (or_else reason "Canceled by operator.")))
    × (field_at "actor" fs ≡ some (str actor))

-- The job of a worker is asked to stop, and any other one has ended; the lease is as before.
pub record CancelMarked (actor : String) (reason : Option String) (now : ℕ) (r s : Row)
    : Type 0 where
  pub same : SameJob r s
  pub leased : is_leased r.status ≡ true → (s.status ≡ cancel_requested) × (s.finished_at ≡ none)
  pub waiting : is_leased r.status ≡ false → (s.status ≡ canceled) × (s.finished_at ≡ some now)
  pub recorded : (j : Json) × (s.error_json ≡ some j) × Explained actor reason j
  pub owner : s.lease_owner ≡ r.lease_owner
  pub expiry : s.lease_expires_at ≡ r.lease_expires_at
  pub updated_at : s.updated_at ≡ now
  pub attempts : s.attempts ≡ r.attempts
  pub result : s.result_json ≡ r.result_json
  pub checkpoint : s.checkpoint_json ≡ r.checkpoint_json
  pub available_at : s.available_at ≡ r.available_at
  pub started_at : s.started_at ≡ r.started_at

-- ===== src/Queue/Types.antt =====
-- src/workflow/queue.js: the table of workflow jobs, its rows, and what a caller sees of them.
use etnpilot.Common.{
  ℕ, Bool, true, false, Option, none, some, List, String, str_eq, Json, Fields, Action,
}

pub data Status : Type 0 where
  queued retry_scheduled running cancel_requested succeeded failed canceled orphaned : Status

abbrev pub status_name : Status → String
status_name queued = "queued"
status_name retry_scheduled = "retry_scheduled"
status_name running = "running"
status_name cancel_requested = "cancel_requested"
status_name succeeded = "succeeded"
status_name failed = "failed"
status_name canceled = "canceled"
status_name orphaned = "orphaned"

-- `status IN ('queued', 'retry_scheduled')`.
abbrev pub is_waiting : Status → Bool
is_waiting queued = true
is_waiting retry_scheduled = true
is_waiting _ = false

-- `status IN ('running', 'cancel_requested')`.
abbrev pub is_leased : Status → Bool
is_leased running = true
is_leased cancel_requested = true
is_leased _ = false

abbrev pub is_running : Status → Bool
is_running running = true
is_running _ = false

abbrev pub is_cancel_requested : Status → Bool
is_cancel_requested cancel_requested = true
is_cancel_requested _ = false

abbrev pub is_orphaned : Status → Bool
is_orphaned orphaned = true
is_orphaned _ = false

-- `["succeeded", "failed", "canceled", "orphaned"].includes(status)`.
abbrev pub is_terminal : Status → Bool
is_terminal succeeded = true
is_terminal failed = true
is_terminal canceled = true
is_terminal orphaned = true
is_terminal _ = false

-- `["failed", "canceled", "orphaned"].includes(status)`.
abbrev pub is_resumable : Status → Bool
is_resumable failed = true
is_resumable canceled = true
is_resumable orphaned = true
is_resumable _ = false

-- A row of `workflow_jobs`; NULL is `none`, and times are milliseconds.
pub record Row : Type 0 where
  pub id : String
  pub kind : String
  pub delivery_id : Option String
  pub status : Status
  pub payload_json : Json
  pub metadata_json : Json
  pub checkpoint_json : Fields
  pub result_json : Option Json
  pub error_json : Option Json
  pub attempts : ℕ
  pub max_attempts : ℕ
  pub available_at : ℕ
  pub lease_owner : Option String
  pub lease_expires_at : Option ℕ
  pub created_at : ℕ
  pub updated_at : ℕ
  pub started_at : Option ℕ
  pub finished_at : Option ℕ

-- What the methods throw: `TypeError`, or `WorkflowQueueStateError` by its code.
pub data QueueError : Type 0 where
  type_error lease_lost not_found terminal invalid_state force_required : QueueError

abbrev pub Table : Type 0
Table = List Row

abbrev pub QueueAction : Type 0 → Type 0
QueueAction A = Action Table QueueError A

-- What `fromRow` hands out: the row under the names of the program.
pub record Job : Type 0 where
  pub id : String
  pub kind : String
  pub delivery_id : Option String
  pub status : Status
  pub payload : Json
  pub metadata : Json
  pub checkpoint : Fields
  pub result : Option Json
  pub error : Option Json
  pub attempts : ℕ
  pub max_attempts : ℕ
  pub available_at : ℕ
  pub lease_owner : Option String
  pub lease_expires_at : Option ℕ
  pub created_at : ℕ
  pub updated_at : ℕ
  pub started_at : Option ℕ
  pub finished_at : Option ℕ

abbrev pub from_row : Row → Job
from_row r = record {
  id = r.id;
  kind = r.kind;
  delivery_id = r.delivery_id;
  status = r.status;
  payload = r.payload_json;
  metadata = r.metadata_json;
  checkpoint = r.checkpoint_json;
  result = r.result_json;
  error = r.error_json;
  attempts = r.attempts;
  max_attempts = r.max_attempts;
  available_at = r.available_at;
  lease_owner = r.lease_owner;
  lease_expires_at = r.lease_expires_at;
  created_at = r.created_at;
  updated_at = r.updated_at;
  started_at = r.started_at;
  finished_at = r.finished_at;
}

-- `lease_owner = ?`: a comparison with NULL does not hold.
abbrev pub owned_by : String → Option String → Bool
owned_by worker none = false
owned_by worker (some owner) = str_eq owner worker

-- `delivery_id = ?`.
abbrev pub delivered_as : String → Row → Bool
delivered_as d r = owned_by d r.delivery_id

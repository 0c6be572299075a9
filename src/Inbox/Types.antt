-- ===== src/Inbox/Types.antt =====
-- src/core/approval-inbox.js: the table of approvals, and what a caller sees of its rows.
use etnpilot.Common.{ℕ, Bool, true, false, Option, List, String, Json, Action}

pub data Status : Type 0 where
  pending approved rejected approved_for_run expired : Status

abbrev pub status_name : Status → String
status_name pending = "pending"
status_name approved = "approved"
status_name rejected = "rejected"
status_name approved_for_run = "approved-for-run"
status_name expired = "expired"

abbrev pub is_pending : Status → Bool
is_pending pending = true
is_pending _ = false

-- A human's word on a question is one of the three decisions.
abbrev pub is_human_word : Status → Bool
is_human_word approved = true
is_human_word rejected = true
is_human_word approved_for_run = true
is_human_word _ = false

-- A row of `approvals`; NULL is `none`, and times are milliseconds.
pub record Row : Type 0 where
  pub id : String
  pub status : Status
  pub run_id : Option String
  pub workflow_job_id : Option String
  pub agent : Option String
  pub operation_kind : String
  pub details_json : Json
  pub policy_json : Option Json
  pub created_at : ℕ
  pub expires_at : ℕ
  pub decided_at : Option ℕ
  pub decided_by : Option String
  pub reason : Option String
  pub scope : Option String
  pub service_instance_id : Option String

-- `TypeError`, `ApprovalStateError` by its code, and SQLite's error on a used primary key.
pub data InboxError : Type 0 where
  type_error not_found already_decided key_in_use : InboxError

abbrev pub Table : Type 0
Table = List Row

abbrev pub InboxAction : Type 0 → Type 0
InboxAction A = Action Table InboxError A

-- What `fromRow` hands out.
pub record Approval : Type 0 where
  pub id : String
  pub status : Status
  pub run_id : Option String
  pub workflow_job_id : Option String
  pub agent : Option String
  pub operation_kind : String
  pub details : Json
  pub policy : Option Json
  pub created_at : ℕ
  pub expires_at : ℕ
  pub decided_at : Option ℕ
  pub decided_by : Option String
  pub reason : Option String
  pub scope : Option String
  pub service_instance_id : Option String

abbrev pub from_row : Row → Approval
from_row r = record {
  id = r.id;
  status = r.status;
  run_id = r.run_id;
  workflow_job_id = r.workflow_job_id;
  agent = r.agent;
  operation_kind = r.operation_kind;
  details = r.details_json;
  policy = r.policy_json;
  created_at = r.created_at;
  expires_at = r.expires_at;
  decided_at = r.decided_at;
  decided_by = r.decided_by;
  reason = r.reason;
  scope = r.scope;
  service_instance_id = r.service_instance_id;
}

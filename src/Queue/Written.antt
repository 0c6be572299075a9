-- ===== src/Queue/Written.antt =====
-- src/workflow/queue.js: that the UPDATEs of the methods write what the effects say, and that `fromRow` shows it.
use etnpilot.Common.{
  ℕ, ◌+◌, ◌≡◌, refl, ap, ◌∙◌, Bool, ◌&&◌, Option, none, some, String, str_eq, if◌then◌else◌, ltb,
  Json, time, Fields, end, field, field_at, put, spread, Result, ok, field_at-put, Bool-cases, inl,
  inr,
}
use etnpilot.Queue.Types.{Row, Table, Job, from_row, succeeded, is_leased, QueueError}
use etnpilot.Queue.Ops.{get_row, take_lease}
use etnpilot.Queue.Owner.{
  Thrown, finish_row, failed_row, summarize_error, code_field, save_checkpoint, cancel_row,
  cancellation, resumed_row,
}
use etnpilot.Queue.Effects.{
  SameJob, Leased, Completed, kept_code, Summarizes, FailureRecorded, latest, Checkpointed,
  Requeued, CancelMarked,
}
use etnpilot.Queue.Ownership.{Changed}

-- The job tells each column of the row.
pub record Shows (s : Row) (job : Job) : Type 0 where
  pub id : job.id ≡ s.id
  pub kind : job.kind ≡ s.kind
  pub delivery_id : job.delivery_id ≡ s.delivery_id
  pub status : job.status ≡ s.status
  pub payload : job.payload ≡ s.payload_json
  pub metadata : job.metadata ≡ s.metadata_json
  pub checkpoint : job.checkpoint ≡ s.checkpoint_json
  pub result : job.result ≡ s.result_json
  pub error : job.error ≡ s.error_json
  pub attempts : job.attempts ≡ s.attempts
  pub max_attempts : job.max_attempts ≡ s.max_attempts
  pub available_at : job.available_at ≡ s.available_at
  pub lease_owner : job.lease_owner ≡ s.lease_owner
  pub lease_expires_at : job.lease_expires_at ≡ s.lease_expires_at
  pub created_at : job.created_at ≡ s.created_at
  pub updated_at : job.updated_at ≡ s.updated_at
  pub started_at : job.started_at ≡ s.started_at
  pub finished_at : job.finished_at ≡ s.finished_at

pub from_row-Shows : (s : Row) → Shows s (from_row s)
from_row-Shows s = record {
  id = refl;
  kind = refl;
  delivery_id = refl;
  status = refl;
  payload = refl;
  metadata = refl;
  checkpoint = refl;
  result = refl;
  error = refl;
  attempts = refl;
  max_attempts = refl;
  available_at = refl;
  lease_owner = refl;
  lease_expires_at = refl;
  created_at = refl;
  updated_at = refl;
  started_at = refl;
  finished_at = refl;
}

-- What a method answers and leaves when its effect on the row of one job is `P`: the answer shows the
-- row that stands in the table then, and the rows of other jobs are as before.
abbrev pub Effected :
    String → (Row → Type 0) → Table → Result QueueError (Option Job) × Table → Type 0
Effected id P t (answer, u) =
    (s : Row) × P s
    × (job : Job) × (answer ≡ ok (some job))
    × Shows s job
    × ((j : String) → get_row j u ≡ (if str_eq j id then some s else get_row j t))

pub Changed-Effected :
    (id : String) (P : Row → Type 0) (s : Row) (t : Table)
    (c : Result QueueError (Option Job) × Table)
    → P s
    → Changed id s t c
    → Effected id P t c
Changed-Effected id P s t (answer, u) p (e, rows) = (s, p, from_row s, e, from_row-Shows s, rows)

-- An UPDATE that leaves these columns out.
module _ {r s : Row} where
  same_job :
      (s.id ≡ r.id)
      → (s.kind ≡ r.kind)
      → (s.delivery_id ≡ r.delivery_id)
      → (s.payload_json ≡ r.payload_json)
      → (s.metadata_json ≡ r.metadata_json)
      → (s.max_attempts ≡ r.max_attempts)
      → (s.created_at ≡ r.created_at)
      → SameJob r s
  same_job a b c d e f g = record {
    id = a;
    kind = b;
    delivery_id = c;
    payload = d;
    metadata = e;
    max_attempts = f;
    created_at = g;
  }

pub take_lease-Leased :
    (worker : String) (lease now : ℕ) (r : Row)
    → Leased worker lease now r (take_lease worker lease now r)
take_lease-Leased worker lease now r = record {
  same = same_job refl refl refl refl refl refl refl;
  status = refl;
  attempts = refl;
  owner = refl;
  expiry = refl;
  started_at = refl;
  updated_at = refl;
  checkpoint = refl;
  result = refl;
  error = refl;
  available_at = refl;
  finished_at = refl;
}

pub finish_row-Completed :
    (result : Json) (now : ℕ) (r : Row) → Completed result now r (finish_row succeeded result now r)
finish_row-Completed result now r = record {
  same = same_job refl refl refl refl refl refl refl;
  lease = (refl, refl);
  status = refl;
  recorded = refl;
  error = refl;
  finished_at = refl;
  updated_at = refl;
  attempts = refl;
  checkpoint = refl;
  started_at = refl;
  available_at = refl;
}

code_field-kept : (code : Option String) → field_at "code" (code_field code) ≡ kept_code code
code_field-kept none = refl
code_field-kept (some code) = elim (Bool-cases (str_eq code "")) [
  | inl empty ↦ rw (empty) refl
  | inr full ↦ rw full refl
]

summarize_error-Summarizes : (error : Thrown) → Summarizes error (summarize_error error)
unfolding summarize_error
summarize_error-Summarizes error = (_, refl, refl, refl, code_field-kept error.code)

pub failed_row-Recorded :
    (error : Thrown) (delay : ℕ) (safe : Bool) (now : ℕ) (r : Row)
    → FailureRecorded error delay safe now r (
        failed_row
          (safe && ltb r.attempts r.max_attempts)
          (summarize_error error)
          (now + delay)
          now
          r)
failed_row-Recorded error delay safe now r = record {
  same = same_job refl refl refl refl refl refl refl;
  lease = (refl, refl);
  recorded = (summarize_error error, refl, summarize_error-Summarizes error);
  status = refl;
  finished_at = refl;
  available_at = refl;
  updated_at = refl;
  attempts = refl;
  result = refl;
  checkpoint = refl;
  started_at = refl;
}

field_at-spread :
    (k : String) (old value : Fields)
    → field_at k (spread old value) ≡ latest k (field_at k old) value
field_at-spread k old end = refl
field_at-spread k old (field j v fs) =
    field_at-spread k (put j v old) fs ∙ ap (λ o. latest k o fs) (field_at-put k j v old)

pub save_checkpoint-Checkpointed :
    (value : Fields) (stamp now : ℕ) (r : Row)
    → Checkpointed value stamp now r
        (save_checkpoint (put "at" (time stamp) (spread r.checkpoint_json value)) now r)
save_checkpoint-Checkpointed value stamp now r = record {
  same = same_job refl refl refl refl refl refl refl;
  merged = λ k.
      field_at-put k "at" (time stamp) (spread r.checkpoint_json value)
      ∙ ap (λ o. if str_eq "at" k then some (time stamp) else o)
          (field_at-spread k r.checkpoint_json value);
  updated_at = refl;
  status = refl;
  owner = refl;
  expiry = refl;
  attempts = refl;
  result = refl;
  error = refl;
  available_at = refl;
  started_at = refl;
  finished_at = refl;
}

pub resumed_row-Requeued : (now : ℕ) (r : Row) → Requeued now r (resumed_row now r)
resumed_row-Requeued now r = record {
  same = same_job refl refl refl refl refl refl refl;
  lease = (refl, refl);
  status = refl;
  attempts = refl;
  available_at = refl;
  result = refl;
  error = refl;
  started_at = refl;
  finished_at = refl;
  updated_at = refl;
  phase = refl;
  stamp = refl;
}

pub cancel_row-CancelMarked :
    (actor : String) (reason : Option String) (now : ℕ) (r : Row)
    → CancelMarked actor reason now r
        (cancel_row (is_leased r.status) (cancellation reason actor) now r)
cancel_row-CancelMarked actor reason now r = record {
  same = same_job refl refl refl refl refl refl refl;
  leased = λ h. (rw h refl, rw h refl);
  waiting = λ h. (rw h refl, rw h refl);
  recorded = (cancellation reason actor, refl, (_, refl, refl, refl, refl));
  owner = refl;
  expiry = refl;
  updated_at = refl;
  attempts = refl;
  result = refl;
  checkpoint = refl;
  available_at = refl;
  started_at = refl;
}

-- ===== src/Inbox/Handler.antt =====
-- src/core/approval-inbox.js: the handler that puts a question and waits for its answer. What happens
-- while it waits is a list: other callers act and the handler polls, or its signal is aborted. The
-- callbacks onPending, notifier and onResolved are left out.
use etnpilot.Common.{
  ℕ, Option, none, some, List, [], ◌∷◌, String, str_eq, if◌then◌else◌, or_else, Json, JsNumber,
  Result, ok, err,
}
use etnpilot.Inbox.Types.{
  Status, approved, approved_for_run, expired, is_pending, InboxError, type_error, key_in_use,
  Table, Approval,
}
use etnpilot.Inbox.Ops.{Question, Said, create, get, decide}
use etnpilot.Inbox.Calls.{Call, perform_all}

-- What happens next: others act and the delay is over, so that the inbox is read at `now`; or others
-- act and the signal is aborted, by a stopped run with a message or else by the service. The times
-- are those that `decide` reads, and that of the `get` if `decide` fails.
pub data Event : Type 0 where
  polled : (others : List Call) (now : ℕ) → Event
  aborted : (others : List Call) (stopped_by : Option String) (now expiry seen again : ℕ) → Event

-- How the wait ends: with the record, by its status or by the signal; with an error of another kind;
-- or not yet, when no more events are given.
pub data Ending : Type 0 where
  waiting crashed : Ending
  answered : Approval → Ending
  stopped : (stopped_by : Option String) → Approval → Ending

abbrev pub withdrawal : Option String → Said
withdrawal stopped_by = record {
  actor = "service";
  reason = some (or_else stopped_by "Service is shutting down.");
  scope = none;
}

abbrev pub stopped_with : Option String → Option Approval → Ending
stopped_with stopped_by none = crashed
stopped_with stopped_by (some a) = stopped stopped_by a

-- What follows the `decide` of an aborted wait: an ApprovalStateError is answered by the record.
abbrev pub after_withdrawal :
    String → Option String → ℕ → Result InboxError (Option Approval) → Table → Ending × Table
after_withdrawal id stopped_by again (ok a) t = (stopped_with stopped_by a, t)
after_withdrawal id stopped_by again (err type_error) t = (crashed, t)
after_withdrawal id stopped_by again (err key_in_use) t = (crashed, t)
after_withdrawal id stopped_by again (err _) t =
    let (r, t') = get id again t in
    elim r [ ok a ↦ (stopped_with stopped_by a, t') | err e ↦ (crashed, t') ]

abbrev pub after_poll :
    Result InboxError (Option Approval) → Table → Ending × Table → Ending × Table
after_poll (ok (some a)) t rest = if is_pending a.status then rest else (answered a, t)
after_poll (ok none) t rest = (crashed, t)
after_poll (err e) t rest = (crashed, t)

-- The loop, and the abort that ends it.
unfoldable pub wait_for : String → List Event → Table → Ending × Table
wait_for id [] t = (waiting, t)
wait_for id (polled others now ∷ es) t =
    let (r, t') = get id now (perform_all others t) in
    let rest = wait_for id es t' in after_poll r t' rest
wait_for id (aborted others stopped_by now expiry seen again ∷ es) t =
    let (r, t') =
      decide id "rejected" (withdrawal stopped_by) now expiry seen (perform_all others t) in
    after_withdrawal id stopped_by again r t'

-- `approvalEvidence`.
pub record Evidence : Type 0 where
  pub operation_kind : String
  pub details : Json
  pub policy : Option Json
  pub status : Status
  pub decided_by : Option String
  pub decided_at : Option ℕ
  pub reason : Option String
  pub scope : Option String

-- `value ? { key: value } : {}`: an empty text is left out.
abbrev pub given : Option String → Option String
given none = none
given (some s) = if str_eq s "" then none else some s

abbrev pub evidence_of : Approval → Evidence
evidence_of a = record {
  operation_kind = a.operation_kind;
  details = a.details;
  policy = a.policy;
  status = a.status;
  decided_by = a.decided_by;
  decided_at = a.decided_at;
  reason = given a.reason;
  scope = given a.scope;
}

-- Why a question is answered with a rejection.
pub data Refusal : Type 0 where
  run_stopped : (message : String) → Refusal
  service_stopping request_expired by_user : Refusal
  because : (reason : String) → Refusal

pub data Kind : Type 0 where
  approve_once approve_for_run : (scope answer : Option String) → Kind
  reject : Refusal → Kind

pub record Answer : Type 0 where
  pub kind : Kind
  pub approval_id : String
  pub evidence : Evidence

abbrev pub refusal_of_stop : Option String → Refusal
refusal_of_stop none = service_stopping
refusal_of_stop (some message) = if str_eq message "" then service_stopping else run_stopped message

abbrev pub refusal_of_reason : Option String → Refusal
refusal_of_reason none = by_user
refusal_of_reason (some reason) = because reason

abbrev pub kind_of : Approval → Kind
kind_of a = elim a.status [
  | approved ↦ approve_once (given a.scope) (given a.reason)
  | approved_for_run ↦ approve_for_run (given a.scope) (given a.reason)
  | expired ↦ reject request_expired
  | _ ↦ reject (refusal_of_reason a.reason)
]

abbrev pub answer_of : Ending → Option Answer
answer_of waiting = none
answer_of crashed = none
answer_of (answered a) =
    some (record { kind = kind_of a; approval_id = a.id; evidence = evidence_of a })
answer_of (stopped stopped_by a) = some (record {
  kind = reject (refusal_of_stop stopped_by);
  approval_id = a.id;
  evidence = evidence_of a;
})

-- What follows `create`; the wait is given.
abbrev pub after_create :
    Result InboxError Approval → Table → Ending × Table → Option Answer × Table
after_create (ok a) t (ending, t') = (answer_of ending, t')
after_create (err e) t waited = (none, t)

-- The handler: `create`, a first poll, and the wait.
unfoldable pub handle :
    String
    → ℕ
    → JsNumber
    → Question
    → (others : List Call) (first : ℕ) → List Event
    → Table
    → Option Answer × Table
handle id now timeout q others first es t =
    let (created, t') = create id now timeout q t in
    after_create created t' (wait_for id (polled others first ∷ es) t')

-- ===== src/Inbox/Ops.antt =====
-- src/core/approval-inbox.js: the methods of `ApprovalInbox`. A method takes the random id and each
-- time that it reads as arguments: the clock is read again by the `expire` inside it.
use etnpilot.Common.{
  ℕ, ◌+◌, Bool, ◌&&◌, ◌||◌, Option, none, some, List, [], ◌∷◌, ◌++◌, map, take, String, str_eq,
  if◌then◌else◌, ltb, leb, ◌==◌, or_else, any, count, keep, Json, JsNumber, whole, other, select,
  update, ok, err, ◌>>=◌, ◌>>◌, pure, throw, require,
}
use etnpilot.Inbox.Types.{
  Status, pending, approved, rejected, approved_for_run, expired, status_name, is_pending, Row,
  type_error, not_found, already_decided, key_in_use, Table, InboxAction, Approval, from_row,
}

abbrev pub has_id : String → Row → Bool
has_id id r = str_eq r.id id

abbrev pub get_row : String → Table → Option Row
get_row id t = select (has_id id) t

abbrev pub view : Option Row → Option Approval
view none = none
view (some r) = some (from_row r)

-- The request and the context of `create`, with what `summarizeApprovalRequest` shows of the request.
pub record Question : Type 0 where
  pub kind : Option String
  pub details : Json
  pub run_id : Option String
  pub queue_job_id : Option String
  pub agent : Option String
  pub policy : Option Json
  pub service_instance_id : Option String

abbrev pub new_row : String → ℕ → ℕ → Question → Row
new_row id now timeout q = record {
  id = id;
  status = pending;
  run_id = q.run_id;
  workflow_job_id = q.queue_job_id;
  agent = q.agent;
  operation_kind = or_else q.kind "unknown";
  details_json = q.details;
  policy_json = q.policy;
  created_at = now;
  expires_at = now + timeout;
  decided_at = none;
  decided_by = none;
  reason = none;
  scope = none;
  service_instance_id = q.service_instance_id;
}

-- `Number.isInteger(timeoutMs) && timeoutMs >= 1`.
abbrev pub positive_integer : JsNumber → InboxAction ℕ
positive_integer other = throw type_error
positive_integer (whole n) = if leb 1 n then pure n else throw type_error

abbrev pub insert : Row → InboxAction Approval
insert r t = if any (has_id r.id) t then (err key_in_use, t) else (ok (from_row r), t ++ r ∷ [])

unfoldable pub create : String → ℕ → JsNumber → Question → InboxAction Approval
create id now timeout_ms q = do
  timeout ← positive_integer timeout_ms
  insert (new_row id now timeout q)

-- WHERE status = 'pending' AND expires_at <= ?
abbrev pub is_overdue : ℕ → Row → Bool
is_overdue now r = is_pending r.status && leb r.expires_at now

abbrev pub expire_row : ℕ → Row → Row
expire_row now r = record r { status = expired; decided_at = some now }

-- `expire`, as the table it leaves.
unfoldable pub expire : ℕ → Table → Table
expire now = update (is_overdue now) (expire_row now)

unfoldable pub get : String → ℕ → InboxAction (Option Approval)
unfolding expire
get id now t = let t' = expire now t in (ok (view (get_row id t')), t')

abbrev pub insert_newest : Row → List Row → List Row
insert_newest r [] = r ∷ []
insert_newest r (s ∷ t) =
    let rest = insert_newest r t in if ltb r.created_at s.created_at then s ∷ rest else r ∷ s ∷ t

abbrev pub newest_first : List Row → List Row
newest_first [] = []
newest_first (r ∷ t) = insert_newest r (newest_first t)

-- STATUSES.
abbrev pub is_known : String → Bool
is_known name =
    str_eq name "pending"
    || str_eq name "approved"
    || str_eq name "rejected"
    || str_eq name "approved-for-run"
    || str_eq name "expired"
    || str_eq name "all"

unfoldable pub list_approvals : String → JsNumber → ℕ → InboxAction (List Approval)
unfolding expire
list_approvals name limit now = do
  require (is_known name) type_error
  n ← positive_integer limit
  require (leb n 1000) type_error
  λ t.
      let t' = expire now t in
      (
        ok (
            map from_row (
              take n (
                newest_first (
                  keep (λ (r : Row). str_eq name "all" || str_eq (status_name r.status) name)
                    t')))),
        t',
      )

-- DECISIONS, with the status that a decision sets.
abbrev pub decision_status : String → Option Status
decision_status name =
    if str_eq name "approved"
    then some approved
    else if str_eq name "rejected"
    then some rejected
    else if str_eq name "approved-for-run"
    then some approved_for_run
    else none

pub record Verdict : Type 0 where
  pub status : Status
  pub actor : String
  pub reason : Option String
  pub scope : Option String

abbrev pub decided_row : Verdict → ℕ → Row → Row
decided_row v now r = record r {
  status = v.status;
  decided_at = some now;
  decided_by = some v.actor;
  reason = v.reason;
  scope = v.scope;
}

-- WHERE id = ? AND status = 'pending'
abbrev pub is_open : String → Row → Bool
is_open id r = has_id id r && is_pending r.status

-- The UPDATE of `decide`, and its answer, which `get` reads at the time `seen`.
abbrev pub record_decision : String → Verdict → (now seen : ℕ) → InboxAction (Option Approval)
record_decision id v now seen t =
    let t' = update (is_open id) (decided_row v now) t in
    if count (is_open id) t == 1 then get id seen t' else (err already_decided, t')

-- What follows the SELECT of `decide`.
abbrev pub decide_found :
    String → Verdict → (now seen : ℕ) → Option Row → InboxAction (Option Approval)
decide_found id v now seen none = throw not_found
decide_found id v now seen (some r) =
    if is_pending r.status then record_decision id v now seen else throw already_decided

-- `decide` once the decision is known to be one: `now` is the recorded time, and `expire` reads the
-- clock after it.
unfoldable pub decide_known :
    String → Verdict → (now expiry seen : ℕ) → InboxAction (Option Approval)
unfolding expire
decide_known id v now expiry seen t =
    let t' = expire expiry t in decide_found id v now seen (get_row id t') t'

-- What a caller of `decide` gives besides the decision.
pub record Said : Type 0 where
  pub actor : String
  pub reason : Option String
  pub scope : Option String

abbrev pub said : Said → Status → Verdict
said s status = record { status = status; actor = s.actor; reason = s.reason; scope = s.scope }

unfoldable pub decide :
    String → String → Said → (now expiry seen : ℕ) → InboxAction (Option Approval)
unfolding decide_known
decide id decision s now expiry seen = by_status (decision_status decision)
  where
    by_status : Option Status → InboxAction (Option Approval)
    by_status none = throw type_error
    by_status (some status) = decide_known id (said s status) now expiry seen

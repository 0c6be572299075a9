-- ===== src/Queue/Ops.antt =====
-- src/workflow/queue.js: the methods of `WorkflowQueue`. A method takes the random id and the time
-- that it reads as arguments, and returns its result or error with the table that it leaves.
use etnpilot.Common.{
  ℕ, ◌+◌, Bool, true, false, not, ◌&&◌, ◌||◌, Option, none, some, [], ◌∷◌, ◌++◌, String, str_eq,
  if◌then◌else◌, ltb, leb, ◌==◌, or_else, any, count, Json, str, time, obj, Fields, end, field,
  is_object, JsNumber, whole, other, select, update, ok, ◌>>=◌, ◌>>◌, pure, throw, require,
  transaction,
}
use etnpilot.Queue.Types.{
  queued, running, orphaned, is_waiting, is_leased, Row, type_error, Table, QueueAction, Job,
  from_row, owned_by, delivered_as,
}

abbrev pub has_id : String → Row → Bool
has_id id r = str_eq r.id id

abbrev pub get_row : String → Table → Option Row
get_row id t = select (has_id id) t

abbrev pub view : Option Row → Option Job
view none = none
view (some r) = some (from_row r)

abbrev pub get : String → QueueAction (Option Job)
get id t = (ok (view (get_row id t)), t)

abbrev pub get_by_delivery_id : String → QueueAction (Option Job)
get_by_delivery_id d t = (ok (view (select (delivered_as d) t)), t)

-- `assertPositiveInteger`.
abbrev pub positive_integer : JsNumber → QueueAction ℕ
positive_integer other = throw type_error
positive_integer (whole n) = if leb 1 n then pure n else throw type_error

-- `!Number.isInteger(value) || value < 0`.
abbrev pub non_negative_integer : JsNumber → QueueAction ℕ
non_negative_integer other = throw type_error
non_negative_integer (whole n) = pure n

abbrev pub nonempty : String → Bool
nonempty s = not (str_eq s "")

abbrev pub stamped : String → ℕ → Fields
stamped phase now = field "phase" (str phase) (field "at" (time now) end)

pub record NewJob : Type 0 where
  pub kind : String
  pub delivery_id : Option String
  pub payload : Json
  pub metadata : Json
  pub max_attempts : JsNumber
  pub available_at : Option ℕ

abbrev pub new_row : String → NewJob → ℕ → ℕ → Row
new_row id job max_attempts now = record {
  id = id;
  kind = job.kind;
  delivery_id = job.delivery_id;
  status = queued;
  payload_json = job.payload;
  metadata_json = job.metadata;
  checkpoint_json = stamped "accepted" now;
  result_json = none;
  error_json = none;
  attempts = 0;
  max_attempts = max_attempts;
  available_at = or_else job.available_at now;
  lease_owner = none;
  lease_expires_at = none;
  created_at = now;
  updated_at = now;
  started_at = none;
  finished_at = none;
}

-- The PRIMARY KEY and the UNIQUE column; NULLs do not conflict.
abbrev same_delivery : Option String → Option String → Bool
same_delivery none d = false
same_delivery (some c) d = owned_by c d

unfoldable pub keys_conflict : String → Option String → String → Option String → Bool
keys_conflict id delivery_id old_id old_delivery_id =
    str_eq old_id id || same_delivery delivery_id old_delivery_id

abbrev pub conflicts : Row → Row → Bool
conflicts new r = keys_conflict new.id new.delivery_id r.id r.delivery_id

-- `deliveryId ? SELECT ... : undefined`: the empty text counts as no delivery.
abbrev pub existing_job : Option String → Table → Option Job
existing_job none t = none
existing_job (some d) t = if nonempty d then view (select (delivered_as d) t) else none

-- INSERT OR IGNORE, and the answer `{ enqueued, job }`.
abbrev pub insert_or_ignore : Row → QueueAction (Bool × Option Job)
insert_or_ignore new t =
    if any (conflicts new) t
    then (ok (false, existing_job new.delivery_id t), t)
    else (ok (true, view (get_row new.id (t ++ new ∷ []))), t ++ new ∷ [])

unfoldable pub enqueue : String → ℕ → NewJob → QueueAction (Bool × Option Job)
enqueue id now job = do
  require (nonempty job.kind) type_error
  require (is_object job.payload) type_error
  max_attempts ← positive_integer job.max_attempts
  insert_or_ignore (new_row id job max_attempts now)

abbrev pub expired : ℕ → Row → Bool
expired now r = is_leased r.status && elim r.lease_expires_at [ none ↦ false | some e ↦ leb e now ]

abbrev pub orphaned_error : String → Json
orphaned_error message = obj (field "name" (str "OrphanedJob") (field "message" (str message) end))

abbrev pub orphan : Json → ℕ → Row → Row
orphan error now r = record r {
  status = orphaned;
  error_json = some error;
  lease_owner = none;
  lease_expires_at = none;
  updated_at = now;
  finished_at = some now;
}

abbrev pub lease_expired : Json
lease_expired =
    orphaned_error
      "The worker lease expired during execution. Explicit operator review is required before replay."

-- `#recoverExpiredLeases`.
unfoldable pub recover_expired_leases : ℕ → Table → Table
recover_expired_leases now = update (expired now) (orphan lease_expired now)

abbrev pub ready : ℕ → Row → Bool
ready now r = is_waiting r.status && leb r.available_at now

-- ORDER BY available_at, created_at.
abbrev pub earlier : Row → Row → Bool
earlier r s =
    ltb r.available_at s.available_at
    || r.available_at == s.available_at && ltb r.created_at s.created_at

abbrev pub first_of_two : Row → Option Row → Option Row
first_of_two r none = some r
first_of_two r (some s) = if earlier s r then some s else some r

-- The row that the SELECT of `claim` finds; among rows of equal times, the first one inserted.
unfoldable pub next_ready : ℕ → Table → Option Row
next_ready now [] = none
next_ready now (r ∷ t) =
    let rest = next_ready now t in if ready now r then first_of_two r rest else rest

abbrev pub take_lease : String → ℕ → ℕ → Row → Row
take_lease worker lease now r = record r {
  status = running;
  attempts = r.attempts + 1;
  lease_owner = some worker;
  lease_expires_at = some (now + lease);
  started_at = some (or_else r.started_at now);
  updated_at = now;
}

-- WHERE id = ? AND status IN ('queued', 'retry_scheduled') AND available_at <= ?
abbrev pub claimable : String → ℕ → Row → Bool
claimable id now r = has_id id r && ready now r

-- The UPDATE of `claim` for the row that its SELECT found, if any.
abbrev pub claim_found : String → ℕ → ℕ → Option Row → QueueAction (Option Job)
claim_found worker lease now none t = (ok none, t)
claim_found worker lease now (some row) t =
    let claimed = update (claimable row.id now) (take_lease worker lease now) t in
    (
      ok (if count (claimable row.id now) t == 1 then view (get_row row.id claimed) else none),
      claimed,
    )

-- The body of the transaction of `claim`.
unfoldable pub claim_next : String → ℕ → ℕ → QueueAction (Option Job)
claim_next worker lease now t =
    let recovered = recover_expired_leases now t in
    claim_found worker lease now (next_ready now recovered) recovered

unfoldable pub claim : String → JsNumber → ℕ → QueueAction (Option Job)
claim worker lease_ms now = do
  require (nonempty worker) type_error
  lease ← positive_integer lease_ms
  transaction (claim_next worker lease now)

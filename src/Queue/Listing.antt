-- ===== src/Queue/Listing.antt =====
-- src/workflow/queue.js: the listings, and the number of active jobs of src/workflow/queue-worker.js.
use etnpilot.Common.{
  ℕ, ◌+◌, Bool, ◌||◌, List, [], ◌∷◌, String, str_eq, if◌then◌else◌, ltb, leb, take, count, map,
  JsNumber, ok, ◌>>=◌, ◌>>◌, require,
}
use etnpilot.Queue.Types.{
  queued, retry_scheduled, running, cancel_requested, succeeded, failed, canceled, orphaned,
  status_name, Row, type_error, Table, QueueAction, Job, from_row,
}
use etnpilot.Queue.Ops.{positive_integer}

-- ORDER BY created_at DESC, by insertion; rows of one time keep their order.
abbrev pub insert_newest : Row → List Row → List Row
insert_newest r [] = r ∷ []
insert_newest r (s ∷ t) = if ltb r.created_at s.created_at then s ∷ insert_newest r t else r ∷ s ∷ t

abbrev pub newest_first : List Row → List Row
newest_first [] = []
newest_first (r ∷ t) = insert_newest r (newest_first t)

abbrev pub with_status : String → List Row → List Row
with_status name [] = []
with_status name (r ∷ t) =
    if str_eq name "all" || str_eq (status_name r.status) name
    then r ∷ with_status name t
    else with_status name t

-- STATUS_SET.
abbrev pub known_status : String → Bool
known_status name =
    str_eq name "all"
    || str_eq name (status_name queued)
    || str_eq name (status_name retry_scheduled)
    || str_eq name (status_name running)
    || str_eq name (status_name cancel_requested)
    || str_eq name (status_name succeeded)
    || str_eq name (status_name failed)
    || str_eq name (status_name canceled)
    || str_eq name (status_name orphaned)

unfoldable pub list_jobs : String → JsNumber → QueueAction (List Job)
list_jobs name limit = do
  require (known_status name) type_error
  n ← positive_integer limit
  require (leb n 1000) type_error
  λ t. (ok (map from_row (take n (newest_first (with_status name t)))), t)

-- `counts()[name]`, where a status that no row has counts 0.
abbrev pub count_status : String → Table → ℕ
count_status name t = count (λ (r : Row). str_eq (status_name r.status) name) t

-- `activeJobCount` of src/workflow/queue-worker.js.
unfoldable pub active_job_count : Table → ℕ
active_job_count t =
    count_status "queued" t
    + count_status "retry_scheduled" t
    + count_status "running" t
    + count_status "cancel_requested" t

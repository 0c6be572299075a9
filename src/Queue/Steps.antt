-- ===== src/Queue/Steps.antt =====
-- src/workflow/queue.js: what may happen to a row of `workflow_jobs`, as a relation, and to the
-- table as a whole. The methods are shown to follow it in Queue/Refinement.antt.
use etnpilot.Common.{ℕ, ◌≤◌, ◌<◌, ◌≡◌, Bool, true, false, [], ◌∷◌, ◌++◌, String, Json, Fields, any}
use etnpilot.Queue.Types.{
  succeeded, is_waiting, is_leased, is_running, is_cancel_requested, is_resumable, Row, Table,
}
use etnpilot.Queue.Ops.{conflicts, orphan, take_lease, NewJob, new_row}
use etnpilot.Queue.Owner.{
  extend_lease, save_checkpoint, finish_row, failed_row, cancel_row, canceled_row, resumed_row,
}

-- One row, before and after; `re` tells whether an operator may put an ended job back.
pub data Change (re : Bool) (r : Row) : Row → Type 0 where
  kept : Change re r r
  claimed :
      (worker : String) (lease now : ℕ)
      → is_waiting r.status ≡ true
      → Change re r (take_lease worker lease now r)
  extended : (lease now : ℕ) → is_running r.status ≡ true → Change re r (extend_lease lease now r)
  saved :
      (value : Fields) (now : ℕ)
      → is_running r.status ≡ true
      → Change re r (save_checkpoint value now r)
  finished :
      (result : Json) (now : ℕ)
      → is_running r.status ≡ true
      → Change re r (finish_row succeeded result now r)
  retried :
      (error : Json) (available now : ℕ)
      → is_running r.status ≡ true
      → r.attempts < r.max_attempts
      → Change re r (failed_row true error available now r)
  given_up :
      (error : Json) (available now : ℕ)
      → is_running r.status ≡ true
      → Change re r (failed_row false error available now r)
  cancel_wanted :
      (error : Json) (now : ℕ)
      → is_leased r.status ≡ true
      → Change re r (cancel_row true error now r)
  withdrawn :
      (error : Json) (now : ℕ)
      → is_waiting r.status ≡ true
      → Change re r (cancel_row false error now r)
  stopped : (now : ℕ) → is_cancel_requested r.status ≡ true → Change re r (canceled_row now r)
  lost : (error : Json) (now : ℕ) → is_leased r.status ≡ true → Change re r (orphan error now r)
  resumed : (now : ℕ) → re ≡ true → is_resumable r.status ≡ true → Change re r (resumed_row now r)

-- The rows of a table, one by one.
pub data Changes (re : Bool) : Table → Table → Type 0 where
  nil : Changes re [] []
  cons : {r s : Row} {t u : Table} → Change re r s → Changes re t u → Changes re (r ∷ t) (s ∷ u)

pub data Step (re : Bool) (t : Table) : Table → Type 0 where
  change : {u : Table} → Changes re t u → Step re t u
  insert :
      (id : String) (job : NewJob) (max_attempts now : ℕ)
      → 1 ≤ max_attempts
      → any (conflicts (new_row id job max_attempts now)) t ≡ false
      → Step re t (t ++ new_row id job max_attempts now ∷ [])

pub data Steps (re : Bool) (t : Table) : Table → Type 0 where
  here : Steps re t t
  next : {u v : Table} → Steps re t u → Step re u v → Steps re t v

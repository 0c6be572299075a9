-- ===== src/Queue/Holder.antt =====
-- src/workflow/queue.js: what the holder of a job's lease does to the job.
use etnpilot.Common.{ℕ, ◌≡◌, Bool, true, String, some, Json, Fields, whole}
use etnpilot.Queue.Types.{Row, Table}
use etnpilot.Queue.Ops.{get_row}
use etnpilot.Queue.Owner.{checkpoint, complete, Thrown, fail}
use etnpilot.Queue.Invariant.{IsKeyed}
use etnpilot.Queue.Ownership.{holds, complete-Changed, fail-Changed, checkpoint-Changed}
use etnpilot.Queue.Effects.{Completed, FailureRecorded, Checkpointed}
use etnpilot.Queue.Written.{
  Effected, Changed-Effected, finish_row-Completed, failed_row-Recorded,
  save_checkpoint-Checkpointed,
}

-- On a table with distinct keys, the holder of a running job's lease completes it (it has succeeded with
-- exactly that result, no error and no lease, and its end is recorded), records a failure (it is due again
-- after the delay if the caller says that is safe and an attempt is left, and has failed for good
-- otherwise; the lease is gone; of the error the name and a code that is not empty are kept, with a fixed
-- message) or saves a checkpoint (the given fields stand over the former ones, under a new stamp; status
-- and lease are as before). Each answers with the row as it is then; the other columns of the job and
-- all other jobs are as before.
pub holder-Effected :
    (id worker : String) (now : ℕ) (t : Table) (r : Row) (result : Json) (error : Thrown)
    (delay : ℕ) (safe : Bool) (value : Fields) (stamp : ℕ)
    → IsKeyed t
    → get_row id t ≡ some r
    → holds worker (some r) ≡ true
    → Effected id (Completed result now r) t (complete id worker result now t)
      × Effected id
          (FailureRecorded error delay safe now r)
          t
          (fail id worker error (whole delay) safe now t)
      × Effected id (Checkpointed value stamp now r) t (checkpoint id worker value stamp now t)
holder-Effected id worker now t r result error delay safe value stamp k e h = (
  Changed-Effected id (Completed result now r) _ t (complete id worker result now t)
      (finish_row-Completed result now r) (complete-Changed id worker now t r k e h result),
  Changed-Effected id (FailureRecorded error delay safe now r) _ t
      (fail id worker error (whole delay) safe now t) (failed_row-Recorded error delay safe now r)
      (fail-Changed id worker now t r k e h error delay safe),
  Changed-Effected id (Checkpointed value stamp now r) _ t (checkpoint id worker value stamp now t)
      (save_checkpoint-Checkpointed value stamp now r)
      (checkpoint-Changed id worker now t r k e h value stamp),
)

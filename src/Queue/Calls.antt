-- ===== src/Queue/Calls.antt =====
-- src/workflow/queue.js: the calls of the methods that write the table, as data, with the random id
-- and the times that each reads, and the table after any sequence of them.
use etnpilot.Common.{ℕ, Bool, Option, List, [], ◌∷◌, String, Json, Fields, JsNumber}
use etnpilot.Queue.Types.{Table}
use etnpilot.Queue.Ops.{NewJob, enqueue, claim}
use etnpilot.Queue.Owner.{
  heartbeat, checkpoint, complete, Thrown, fail, request_cancel, mark_canceled, abandon, resume,
}

pub data Call : Type 0 where
  enqueue_call : (id : String) (now : ℕ) → NewJob → Call
  claim_call : (worker : String) → JsNumber → (now : ℕ) → Call
  heartbeat_call : (id worker : String) → JsNumber → (now : ℕ) → Call
  checkpoint_call : (id worker : String) → Fields → (stamp now : ℕ) → Call
  complete_call : (id worker : String) → Json → (now : ℕ) → Call
  fail_call : (id worker : String) → Thrown → JsNumber → Bool → (now : ℕ) → Call
  cancel_call : (id actor : String) → Option String → (now : ℕ) → Call
  mark_canceled_call : (id worker : String) → (now : ℕ) → Call
  abandon_call : (id worker reason : String) → (now : ℕ) → Call
  resume_call : (id : String) → Bool → (now : ℕ) → Call

unfoldable pub perform : Call → Table → Table
perform (enqueue_call id now job) t = (enqueue id now job t).1
perform (claim_call worker lease now) t = (claim worker lease now t).1
perform (heartbeat_call id worker lease now) t = (heartbeat id worker lease now t).1
perform (checkpoint_call id worker value stamp now) t = (checkpoint id worker value stamp now t).1
perform (complete_call id worker result now) t = (complete id worker result now t).1
perform (fail_call id worker error delay safe now) t = (fail id worker error delay safe now t).1
perform (cancel_call id actor reason now) t = (request_cancel id actor reason now t).1
perform (mark_canceled_call id worker now) t = (mark_canceled id worker now t).1
perform (abandon_call id worker reason now) t = (abandon id worker reason now t).1
perform (resume_call id force now) t = (resume id force now t).1

unfoldable pub perform_all : List Call → Table → Table
perform_all [] t = t
perform_all (c ∷ cs) t = perform_all cs (perform c t)

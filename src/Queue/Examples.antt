-- ===== src/Queue/Examples.antt =====
-- Small tables of the job queue, what the methods do on them, and the theorems at them.
use etnpilot.Common.{
  ◌≡◌, refl, true, false, [], ◌∷◌, String, Option, none, some, ◌≢◌, arith, ok, err, null, num, obj,
  end, whole,
}
use etnpilot.Queue.Types.{running, orphaned, Row, Table, Job, from_row, lease_lost}
use etnpilot.Queue.Ops.{
  NewJob, new_row, enqueue, claim, recover_expired_leases, next_ready, keys_conflict, claim_next,
}
use etnpilot.Queue.Owner.{complete, fail, checkpoint, Thrown, resume, request_cancel}
use etnpilot.Queue.Steps.{Steps}
use etnpilot.Queue.Invariant.{IsKeyed, IsSound}
use etnpilot.Queue.Calls.{
  enqueue_call, claim_call, complete_call, heartbeat_call, perform, perform_all,
}
use etnpilot.Queue.Refinement.{perform-Steps}
use etnpilot.Queue.Claims.{Claimed, claim-Claimed, claim_exclusive}
use etnpilot.Queue.Lifecycle.{reachable-IsSound, Follows, perform_all-Follows}
use etnpilot.Queue.Ownership.{stranger_refused}
use etnpilot.Queue.Effects.{Completed, FailureRecorded, Checkpointed, Requeued, CancelMarked}
use etnpilot.Queue.Written.{Effected}
use etnpilot.Queue.Holder.{holder-Effected}
use etnpilot.Queue.Operators.{IsProper, enqueue_duplicate, resume-Resumed, request_cancel-Canceled}

abbrev request : NewJob
request = record {
  kind = "agent";
  delivery_id = some "d1";
  payload = obj end;
  metadata = obj end;
  max_attempts = whole 2;
  available_at = none;
}

abbrev fresh : Row
fresh = new_row "a" request 2 100

abbrev leased : Row
leased = record fresh {
  id = "b";
  delivery_id = none;
  status = running;
  attempts = 1;
  lease_owner = some "w";
  lease_expires_at = some 400;
  started_at = some 150;
}

abbrev ended : Row
ended = record leased {
  id = "c";
  status = orphaned;
  lease_owner = none;
  lease_expires_at = none;
  finished_at = some 500;
}

abbrev jobs : Table
jobs = fresh ∷ leased ∷ ended ∷ []

jobs-IsKeyed : IsKeyed jobs
unfolding keys_conflict
jobs-IsKeyed = (refl, (refl, (refl, tt)))

abbrev proper : IsProper request 2
proper = record { kind = refl; payload = refl; attempts = refl; positive = omega arith }

abbrev thrown : Thrown
thrown = record { name = some "Error"; code = none; safe_to_retry = true }

claims :
    (claim "v" (whole 50) 200 jobs).0
    ≡ ok (
        some (
          from_row (record fresh {
            status = running;
            attempts = 1;
            lease_owner = some "v";
            lease_expires_at = some 250;
            started_at = some 200;
            updated_at = 200;
          })))
unfolding claim claim_next recover_expired_leases next_ready
claims = refl

perform-Steps_example : Steps false jobs (perform (complete_call "b" "w" (num 1) 300) jobs)
perform-Steps_example = perform-Steps (complete_call "b" "w" (num 1) 300) jobs jobs-IsKeyed

reachable-IsSound_example :
    IsSound (perform_all (enqueue_call "a" 100 request ∷ claim_call "w" (whole 5) 200 ∷ []) [])
reachable-IsSound_example =
    reachable-IsSound (enqueue_call "a" 100 request ∷ claim_call "w" (whole 5) 200 ∷ [])

perform_all-Follows_example :
    Follows false "c" ended
      (perform_all (claim_call "v" (whole 50) 200 ∷ heartbeat_call "b" "w" (whole 9) 210 ∷ []) jobs)
perform_all-Follows_example =
    perform_all-Follows (claim_call "v" (whole 50) 200 ∷ heartbeat_call "b" "w" (whole 9) 210 ∷ [])
      jobs "c" ended jobs-IsKeyed refl

claim-Claimed_example :
    (job : Option Job) × ((claim "v" (whole 50) 200 jobs).0 ≡ ok job)
    × Claimed "v" 50 200 (recover_expired_leases 200 jobs) (claim "v" (whole 50) 200 jobs).1 job
claim-Claimed_example = claim-Claimed "v" 50 200 jobs refl (omega arith) jobs-IsKeyed

abbrev waiting : Table
waiting = fresh ∷ record fresh { id = "z"; delivery_id = none } ∷ []

waiting-IsKeyed : IsKeyed waiting
unfolding keys_conflict
waiting-IsKeyed = (refl, (refl, tt))

claim_exclusive_example : ◌≢◌ {A = String} "z" "a"
unfolding claim claim_next recover_expired_leases next_ready
claim_exclusive_example =
    claim_exclusive "v" "w" 50 50 200 210 waiting refl refl (omega arith) (omega arith)
      waiting-IsKeyed (omega arith) refl refl

stranger_refused_example :
    (checkpoint "b" "v" end 300 300 jobs ≡ (err lease_lost, jobs))
    × (complete "b" "v" null 300 jobs ≡ (err lease_lost, jobs))
    × (fail "b" "v" thrown (whole 5) true 300 jobs ≡ (err lease_lost, jobs))
stranger_refused_example = stranger_refused "b" "v" end null thrown 5 300 300 true jobs refl

holder-Effected_example :
    Effected "b" (Completed (num 1) 300 leased) jobs (complete "b" "w" (num 1) 300 jobs)
    × Effected "b"
        (FailureRecorded thrown 5 true 300 leased)
        jobs
        (fail "b" "w" thrown (whole 5) true 300 jobs)
    × Effected "b" (Checkpointed end 300 300 leased) jobs (checkpoint "b" "w" end 300 300 jobs)
holder-Effected_example =
    holder-Effected "b" "w" 300 jobs leased (num 1) thrown 5 true end 300 jobs-IsKeyed refl refl

enqueue_duplicate_example : enqueue "n" 300 request jobs ≡ (ok (false, some (from_row fresh)), jobs)
enqueue_duplicate_example =
    enqueue_duplicate "n" 300 request 2 "d1" jobs fresh proper refl refl refl

resume-Resumed_example : Effected "c" (Requeued 600 ended) jobs (resume "c" true 600 jobs)
resume-Resumed_example = resume-Resumed "c" true 600 jobs ended jobs-IsKeyed refl

request_cancel-Canceled_example :
    Effected "b" (CancelMarked "cli" none 300 leased) jobs (request_cancel "b" "cli" none 300 jobs)
request_cancel-Canceled_example =
    request_cancel-Canceled "b" "cli" none 300 jobs leased jobs-IsKeyed refl

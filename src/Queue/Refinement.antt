-- ===== src/Queue/Refinement.antt =====
-- src/workflow/queue.js: every method follows the relation of Queue/Steps.antt.
use etnpilot.Common.{
  ℕ, ◌+◌, ◌≤◌, ◌<◌, ◌≡◌, refl, sym, ap, subst, Bool, true, false, not, ◌&&◌, ◌||◌, List, [], ◌∷◌,
  String, Option, none, some, ◌==◌, ltb, any, All, arith, Bool-cases, inl, inr, JsNumber, update,
  count, Fields, Json, ok, ◌>>=◌, pure, put, spread, time, is_object, transaction,
  transaction_commits,
}
use etnpilot.Queue.Types.{
  succeeded, is_leased, is_running, is_cancel_requested, is_terminal, is_resumable, is_orphaned,
  Row, Table, Job, owned_by,
}
use etnpilot.Queue.Ops.{
  conflicts, NewJob, new_row, enqueue, insert_or_ignore, has_id, nonempty, get_row,
  recover_expired_leases, next_ready, claim_next, claim_found, claimable, expired, claim,
  take_lease, orphaned_error,
}
use etnpilot.Queue.Owner.{
  change as change_rows, extend_lease, save_checkpoint, finish_row, failed_row, fail_held,
  summarize_error, canceled_row, cancel_row, cancellation, cancel_found, resumed_row, resume_found,
  heartbeat, checkpoint, complete, Thrown, fail, request_cancel, mark_canceled, abandon, resume,
  get_owned, change_held, held_by,
}
use etnpilot.Queue.Steps.{
  Change, kept, claimed, extended, saved, finished, retried, given_up, cancel_wanted, withdrawn,
  stopped, lost, resumed, Changes, nil, cons, Step, change, insert, Steps, here, next,
}
use etnpilot.Queue.Guards.{
  positive_rule, non_negative_rule, owned_rule, existing_rule, All-intro, All-map, OnlyRow-select,
}
use etnpilot.Queue.Invariant.{IsKeyed, IsSound, Steps-IsSound}
use etnpilot.Queue.Calls.{
  Call, enqueue_call, claim_call, heartbeat_call, checkpoint_call, complete_call, fail_call,
  cancel_call, mark_canceled_call, abandon_call, resume_call, perform, perform_all,
}

held_running :
    (id worker : String) (r : Row) → held_by id worker r ≡ true → is_running r.status ≡ true
held_running id worker r h = ground arith

pub claim_found_ok :
    (worker : String) (lease now : ℕ) (o : Option Row) (t : Table)
    → (job : Option Job) × ((claim_found worker lease now o t).0 ≡ ok job)
claim_found_ok worker lease now none t = (none, refl)
claim_found_ok worker lease now (some row) t = (_, refl)

-- The body of the transaction does not throw, so there is no rollback.
pub transaction-claim_next :
    (worker : String) (lease now : ℕ) (t : Table)
    → (transaction (claim_next worker lease now) t).1 ≡ (claim_next worker lease now t).1
unfolding claim_next
transaction-claim_next worker lease now t =
    let recovered = recover_expired_leases now t in
    let (job, answered) = claim_found_ok worker lease now (next_ready now recovered) recovered in
    ap (λ p. p.1) (transaction_commits (claim_next worker lease now) t answered)

module _ {re : Bool} where
  Steps-step : {t u : Table} → Step re t u → Steps re t u
  Steps-step s = next here s

  -- An UPDATE changes the rows that pass its test, and keeps the others.
  update-Changes :
      (test : Row → Bool) (f : Row → Row) (t : Table)
      → All (λ r. test r ≡ true → Change re r (f r)) t
      → Changes re t (update test f t)
  update-Changes test f [] h = nil
  update-Changes test f (r ∷ t) h = elim (Bool-cases (test r)) [
    | inl e ↦ rw e (cons (h.0 e) (update-Changes test f t h.1))
    | inr e ↦ rw e (cons kept (update-Changes test f t h.1))
  ]

  update-Steps :
      (test : Row → Bool) (f : Row → Row) (t : Table)
      → ((r : Row) → test r ≡ true → Change re r (f r))
      → Steps re t (update test f t)
  update-Steps test f t h = Steps-step (change (update-Changes test f t (All-intro _ t h)))

  -- An UPDATE by the key of a row that was found.
  update_one-Steps :
      (id : String) (job : Row) (test : Row → Bool) (f : Row → Row) (t : Table)
      → IsKeyed t
      → get_row id t ≡ some job
      → ((r : Row) → test r ≡ true → has_id id r ≡ true)
      → (test job ≡ true → Change re job (f job))
      → Steps re t (update test f t)
  update_one-Steps id job test f t k e keyed h =
      Steps-step
        (change (update-Changes test f t (All-map t (λ r o ht. each r ht (o (keyed r ht))) only)))
    where
      only : All (λ r. has_id id r ≡ true → r ≡ job) t
      only = OnlyRow-select id t job k e

      each : (r : Row) → test r ≡ true → r ≡ job → Change re r (f r)
      each r ht same =
          subst (λ x. Change re x (f x)) (sym same) (h (subst (λ x. test x ≡ true) same ht))

  change_held-Steps :
      (id worker : String) (f : Row → Row) (t : Table)
      → Steps re t (update (held_by id worker) f t)
      → Steps re t (change_held id worker f t).1
  change_held-Steps id worker f t h = elim (Bool-cases (count (held_by id worker) t == 1)) [
    | inl e ↦ rw e h
    | inr e ↦ rw e h
  ]

  failed-Change :
      (r : Row) (can : Bool) (error : Json) (available now : ℕ)
      → is_running r.status ≡ true
      → (can ≡ true → r.attempts < r.max_attempts)
      → Change re r (failed_row can error available now r)
  failed-Change r true error available now h m = retried error available now h (m refl)
  failed-Change r false error available now h m = given_up error available now h

  heartbeat-Steps :
      (id worker : String) (lease : JsNumber) (now : ℕ) (t : Table)
      → Steps re t (heartbeat id worker lease now t).1
  unfolding heartbeat
  heartbeat-Steps id worker lease now t =
      positive_rule (Steps re t) t here lease
        (λ n.
          change_rows (held_by id worker) (extend_lease n now) >>= λ changes. pure (changes == 1))
        λ n _.
          update-Steps (held_by id worker) _ t (λ r h. extended n now (held_running id worker r h))

  checkpoint-Steps :
      (id worker : String) (value : Fields) (stamp now : ℕ) (t : Table)
      → Steps re t (checkpoint id worker value stamp now t).1
  unfolding checkpoint
  checkpoint-Steps id worker value stamp now t =
      owned_rule (Steps re t) t here worker (get_row id t)
        (λ job.
          change_held id worker
            (save_checkpoint (put "at" (time stamp) (spread job.checkpoint_json value)) now))
        λ job _ _.
          change_held-Steps id worker _ t
            (update-Steps (held_by id worker) _ t (λ r h. saved _ now (held_running id worker r h)))

  complete-Steps :
      (id worker : String) (result : Json) (now : ℕ) (t : Table)
      → Steps re t (complete id worker result now t).1
  unfolding complete
  complete-Steps id worker result now t =
      owned_rule (Steps re t) t here worker (get_row id t)
        (λ _. change_held id worker (finish_row succeeded result now))
        λ job _ _. change_held-Steps id worker _ t (
          update-Steps (held_by id worker) _ t
            (λ r h. finished result now (held_running id worker r h)))

  fail-Steps :
      (id worker : String) (error : Thrown) (delay : JsNumber) (safe : Bool) (now : ℕ) (t : Table)
      → IsKeyed t
      → Steps re t (fail id worker error delay safe now t).1
  unfolding fail
  fail-Steps id worker error delay safe now t k =
      non_negative_rule (Steps re t) t here delay
        (λ n. get_owned id worker >>= fail_held id worker error n safe now)
        λ n.
          owned_rule (Steps re t) t here worker (get_row id t)
            (fail_held id worker error n safe now)
            λ job e run.
              let can = safe && ltb job.attempts job.max_attempts in
              change_held-Steps id worker _ t (
                update_one-Steps id job (held_by id worker) _ t k e (λ r h. ground arith)
                  (λ _.
                    failed-Change job can (summarize_error error) (now + n) now run
                      (λ c. ground arith)))

  mark_canceled-Steps :
      (id worker : String) (now : ℕ) (t : Table) → Steps re t (mark_canceled id worker now t).1
  unfolding mark_canceled
  mark_canceled-Steps id worker now t =
      let stops =
        λ (r : Row). has_id id r && is_cancel_requested r.status && owned_by worker r.lease_owner in
      let changed : Steps re t (update stops (canceled_row now) t) =
        update-Steps stops (canceled_row now) t (λ r h. stopped now (ground arith)) in
      elim (Bool-cases (count stops t == 1)) [ inl e ↦ rw e changed | inr e ↦ rw e changed ]

  abandon-Steps :
      (id worker reason : String) (now : ℕ) (t : Table)
      → Steps re t (abandon id worker reason now t).1
  unfolding abandon
  abandon-Steps id worker reason now t =
      update-Steps _ _ t (λ r h. lost (orphaned_error reason) now (ground arith))

  cancel-Change :
      (r : Row) (error : Json) (now : ℕ)
      → is_terminal r.status ≡ false
      → Change re r (cancel_row (is_leased r.status) error now r)
  cancel-Change r error now live = elim (Bool-cases (is_leased r.status)) [
    | inl leased ↦ rw leased (cancel_wanted error now leased)
    | inr idle ↦ rw idle (withdrawn error now (ground arith))
  ]

  request_cancel-Steps :
      (id actor : String) (reason : Option String) (now : ℕ) (t : Table)
      → IsKeyed t
      → Steps re t (request_cancel id actor reason now t).1
  unfolding request_cancel
  request_cancel-Steps id actor reason now t k =
      existing_rule (Steps re t) t here (get_row id t) (cancel_found id actor reason now) λ job e.
        elim (Bool-cases (is_terminal job.status)) [
          | inl done ↦ rw done here
          | inr live ↦ rw live (
              update_one-Steps id job (λ r. has_id id r && not (is_terminal r.status))
                (cancel_row (is_leased job.status) (cancellation reason actor) now) t k e
                (λ r h. ground arith) (λ _. cancel-Change job (cancellation reason actor) now live))
        ]

  insert-Steps :
      (id : String) (now : ℕ) (job : NewJob) (n : ℕ) (t : Table)
      → 1 ≤ n
      → Steps re t (insert_or_ignore (new_row id job n now) t).1
  insert-Steps id now job n t positive =
      elim (Bool-cases (any (conflicts (new_row id job n now)) t)) [
        | inl taken ↦ rw taken here
        | inr free ↦ rw free (Steps-step (insert id job n now positive free))
      ]

  enqueue-Steps :
      (id : String) (now : ℕ) (job : NewJob) (t : Table) → Steps re t (enqueue id now job t).1
  unfolding enqueue
  enqueue-Steps id now job t = elim (Bool-cases (nonempty job.kind)) [
    | inr unkind ↦ rw unkind here
    | inl kind ↦ elim (Bool-cases (is_object job.payload)) [
      | inr flat ↦ rw (kind, flat) here
      | inl object ↦
          rw (kind, object)
            (positive_rule (Steps re t) t here job.max_attempts
              (λ n. insert_or_ignore (new_row id job n now))
              λ n positive. insert-Steps id now job n t positive)
    ]
  ]

  pub recover-Changes : (now : ℕ) (t : Table) → Changes re t (recover_expired_leases now t)
  unfolding recover_expired_leases
  recover-Changes now t =
      update-Changes (expired now) _ t (All-intro _ t (λ r h. lost _ now (ground arith)))

  recover-Steps : (now : ℕ) (t : Table) → Steps re t (recover_expired_leases now t)
  recover-Steps now t = Steps-step (change (recover-Changes now t))

  Steps-then : {t u v : Table} → Steps re t u → Steps re u v → Steps re t v
  Steps-then a here = a
  Steps-then a (next b s) = next (Steps-then a b) s

  claim_found-Steps :
      (worker : String) (lease now : ℕ) (o : Option Row) (t : Table)
      → Steps re t (claim_found worker lease now o t).1
  claim_found-Steps worker lease now none t = here
  claim_found-Steps worker lease now (some row) t =
      update-Steps (claimable row.id now) (take_lease worker lease now) t
        (λ r h. claimed worker lease now (ground arith))

  claim_next-Steps :
      (worker : String) (lease now : ℕ) (t : Table) → Steps re t (claim_next worker lease now t).1
  unfolding claim_next
  claim_next-Steps worker lease now t =
      let recovered = recover_expired_leases now t in
      Steps-then (recover-Steps now t)
        (claim_found-Steps worker lease now (next_ready now recovered) recovered)

  pub claim-Steps :
      (worker : String) (lease : JsNumber) (now : ℕ) (t : Table)
      → Steps re t (claim worker lease now t).1
  unfolding claim
  claim-Steps worker lease now t = elim (Bool-cases (nonempty worker)) [
    | inr unnamed ↦ rw unnamed here
    | inl named ↦ rw named (
        positive_rule (Steps re t) t here lease (λ n. transaction (claim_next worker n now))
          λ n _.
            subst (Steps re t) (sym (transaction-claim_next worker n now t))
              (claim_next-Steps worker n now t))
  ]

resume-Steps :
    (id : String) (force : Bool) (now : ℕ) (t : Table)
    → IsKeyed t
    → Steps true t (resume id force now t).1
unfolding resume
resume-Steps id force now t k =
    existing_rule (Steps true t) t here (get_row id t) (resume_found id force now) λ job e.
      elim (Bool-cases (is_resumable job.status)) [
        | inr not_resumable ↦ rw not_resumable here
        | inl resumable ↦ elim (Bool-cases (not (is_orphaned job.status) || force)) [
          | inr unforced ↦ rw (resumable, unforced) here
          | inl allowed ↦
              rw (resumable, allowed)
                (update_one-Steps id job (has_id id) (resumed_row now) t k e (λ r h. h)
                  (λ _. resumed now refl resumable))
        ]
      ]

abbrev pub is_resume : Call → Bool
is_resume (resume_call id force now) = true
is_resume _ = false

-- Whatever the call, on a table with distinct keys, the table that it leaves follows from the one
-- before by steps of the relation, and a job that has ended is put back by `resume` only.
pub perform-Steps : (c : Call) (t : Table) → IsKeyed t → Steps (is_resume c) t (perform c t)
unfolding perform
perform-Steps (enqueue_call id now job) t k = enqueue-Steps id now job t
perform-Steps (claim_call worker lease now) t k = claim-Steps worker lease now t
perform-Steps (heartbeat_call id worker lease now) t k = heartbeat-Steps id worker lease now t
perform-Steps (checkpoint_call id worker value stamp now) t k =
    checkpoint-Steps id worker value stamp now t
perform-Steps (complete_call id worker result now) t k = complete-Steps id worker result now t
perform-Steps (fail_call id worker error delay safe now) t k =
    fail-Steps id worker error delay safe now t k
perform-Steps (cancel_call id actor reason now) t k = request_cancel-Steps id actor reason now t k
perform-Steps (mark_canceled_call id worker now) t k = mark_canceled-Steps id worker now t
perform-Steps (abandon_call id worker reason now) t k = abandon-Steps id worker reason now t
perform-Steps (resume_call id force now) t k = resume-Steps id force now t k

pub perform_all-IsSound : (cs : List Call) (t : Table) → IsSound t → IsSound (perform_all cs t)
unfolding perform_all
perform_all-IsSound [] t v = v
perform_all-IsSound (c ∷ cs) t v =
    perform_all-IsSound cs (perform c t) (Steps-IsSound (perform-Steps c t v.keyed) v)

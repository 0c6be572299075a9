-- ===== src/Queue/Operators.antt =====
-- src/workflow/queue.js: what those outside the workers do: deliver a job, cancel it, put it back.
use etnpilot.Common.{
  ℕ, ◌≤◌, ◌≡◌, refl, ◌∙◌, Bool, true, false, not, ◌&&◌, ◌||◌, [], ◌∷◌, ◌++◌, String, Option, some,
  if◌then◌else◌, any, arith, Bool-cases, inl, inr, whole, ok, err, eq_refl, is_object, select,
  le→leb, eq→str_eq,
}
use etnpilot.Queue.Types.{
  Status, Row, Table, from_row, is_resumable, is_orphaned, is_terminal, is_leased, QueueError,
  terminal, invalid_state, force_required, delivered_as,
}
use etnpilot.Queue.Ops.{
  has_id, get_row, nonempty, NewJob, new_row, conflicts, keys_conflict, enqueue, insert_or_ignore,
}
use etnpilot.Queue.Owner.{resume, resumed_row, request_cancel, cancel_row, cancellation}
use etnpilot.Queue.Invariant.{IsKeyed}
use etnpilot.Queue.Lookup.{get_row-In}
use etnpilot.Queue.Ownership.{update-Changed}
use etnpilot.Queue.Effects.{Requeued, CancelMarked}
use etnpilot.Queue.Written.{
  Effected, Changed-Effected, resumed_row-Requeued, cancel_row-CancelMarked,
}

-- The arguments that `enqueue` accepts.
pub record IsProper (job : NewJob) (max_attempts : ℕ) : Type 0 where
  pub kind : nonempty job.kind ≡ true
  pub payload : is_object job.payload ≡ true
  pub attempts : job.max_attempts ≡ whole max_attempts
  pub positive : 1 ≤ max_attempts

enqueue-eq :
    (id : String) (now : ℕ) (job : NewJob) (n : ℕ) (t : Table)
    → IsProper job n
    → enqueue id now job t ≡ insert_or_ignore (new_row id job n now) t
unfolding enqueue
enqueue-eq id now job n t p = rw (p.kind, p.payload, p.attempts, le→leb 1 n p.positive)

conflict-of_delivery :
    (new : Row) (d : String) (t : Table) (r : Row)
    → new.delivery_id ≡ some d
    → select (delivered_as d) t ≡ some r
    → any (conflicts new) t ≡ true
unfolding keys_conflict
conflict-of_delivery new d [] r e s = cc
conflict-of_delivery new d (q ∷ t) r e s = ground (arith, conflict-of_delivery new d t r e)

-- A delivery that a job of the table already stands for is not inserted again: `enqueue` answers
-- with that job, and the table stays as it is.
pub enqueue_duplicate :
    (id : String) (now : ℕ) (job : NewJob) (n : ℕ) (d : String) (t : Table) (r : Row)
    → IsProper job n
    → job.delivery_id ≡ some d
    → nonempty d ≡ true
    → select (delivered_as d) t ≡ some r
    → enqueue id now job t ≡ (ok (false, some (from_row r)), t)
enqueue_duplicate id now job n d t r p e filled s =
    enqueue-eq id now job n t p
    ∙ rw (conflict-of_delivery (new_row id job n now) d t r e s, e, filled, s)

get_row-last :
    (new : Row) (t : Table)
    → any (conflicts new) t ≡ false
    → get_row new.id (t ++ new ∷ []) ≡ some new
unfolding keys_conflict
get_row-last new [] a = rw (eq_refl new.id)
get_row-last new (q ∷ t) a = ground (arith, get_row-last new t)

-- A job whose id and delivery are new is added behind the others, queued with no attempt made, and
-- is the answer.
pub enqueue_new :
    (id : String) (now : ℕ) (job : NewJob) (n : ℕ) (t : Table)
    → IsProper job n
    → any (conflicts (new_row id job n now)) t ≡ false
    → enqueue id now job t
      ≡ (ok (true, some (from_row (new_row id job n now))), t ++ new_row id job n now ∷ [])
enqueue_new id now job n t p free =
    enqueue-eq id now job n t p ∙ rw (free, get_row-last (new_row id job n now) t free)

keyed_by : (id : String) (t : Table) (r : Row) → get_row id t ≡ some r → has_id id r ≡ true
keyed_by id t r e = eq→str_eq r.id id (get_row-In id t r e).1

-- When `resume` accepts a job in this status.
abbrev pub may_resume : Bool → Status → Bool
may_resume force s = is_resumable s && (not (is_orphaned s) || force)

abbrev pub resume_error : Status → QueueError
resume_error s = if is_resumable s then force_required else invalid_state

abbrev pub Resumed : String → Bool → ℕ → Table → Row → Type 0
Resumed id force now t r =
    if may_resume force r.status
    then Effected id (Requeued now r) t (resume id force now t)
    else (resume id force now t ≡ (err (resume_error r.status), t))

-- On a table with distinct keys `resume` puts a failed or canceled job back, and an orphaned one
-- only by force: it is queued and due now, with no attempt made, no lease, result, error, start or
-- end, and a progress that says it was resumed; what it asks for is as before, the answer shows it
-- so, and no other job changes. Any other job it refuses, with an error that tells the two reasons apart, and
-- the table stays as it is.
pub resume-Resumed :
    (id : String) (force : Bool) (now : ℕ) (t : Table) (r : Row)
    → IsKeyed t
    → get_row id t ≡ some r
    → Resumed id force now t r
unfolding resume
resume-Resumed id force now t r k e = elim (Bool-cases (is_resumable r.status)) [
  | inr h ↦ rw h (rw (e, h))
  | inl h ↦ elim (Bool-cases (not (is_orphaned r.status) || force)) [
    | inr unforced ↦ rw (h, unforced) (rw (e, h, unforced))
    | inl allowed ↦
        rw (h, allowed)
          (rw (e, h, allowed)
            (Changed-Effected id (Requeued now r) (resumed_row now r) t _
              (resumed_row-Requeued now r)
              (update-Changed id (has_id id) (resumed_row now) t r (λ x p. p) (λ x. refl) e
                (keyed_by id t r e))))
  ]
]

abbrev pub Canceled : String → String → Option String → ℕ → Table → Row → Type 0
Canceled id actor reason now t r =
    if is_terminal r.status
    then (request_cancel id actor reason now t ≡ (err terminal, t))
    else Effected id (CancelMarked actor reason now r) t (request_cancel id actor reason now t)

-- On a table with distinct keys `request_cancel` ends a job that no worker has at once (it is
-- canceled, with the time of its end), and marks the job of a worker as one to stop, with no end yet; the
-- lease's owner and expiry, the attempts, the result and the progress are as before, the error tells
-- who canceled and why, the answer shows the job so, and no other job changes. A job that has ended it
-- refuses, and the table stays as it is.
pub request_cancel-Canceled :
    (id actor : String) (reason : Option String) (now : ℕ) (t : Table) (r : Row)
    → IsKeyed t
    → get_row id t ≡ some r
    → Canceled id actor reason now t r
unfolding request_cancel
request_cancel-Canceled id actor reason now t r k e = elim (Bool-cases (is_terminal r.status)) [
  | inl ended ↦ rw ended (rw (e, ended))
  | inr live ↦ rw live (
      rw (e, live)
        (Changed-Effected id (CancelMarked actor reason now r) _ t _
          (cancel_row-CancelMarked actor reason now r)
          (update-Changed id (λ x. has_id id x && not (is_terminal x.status))
            (cancel_row (is_leased r.status) (cancellation reason actor) now) t r
            (λ x p. ground arith) (λ x. refl) e (rw (keyed_by id t r e, live)))))
]

-- ===== src/Inbox/Waiting.antt =====
-- src/core/approval-inbox.js: the wait of the handler ends, with an answer.
use etnpilot.Common.{
  ℕ, ◌+◌, ◌≤◌, ◌≡◌, refl, ap, ◌∙◌, Bool, true, false, ◌||◌, Option, none, some, is_some, List, [],
  ◌∷◌, ◌++◌, String, any, update_row, arith, Bool-cases, inl, inr, leb, Result, ok, err, eq_refl,
  whole, select-update, select-append, select-insert, Keyed-insert,
}
use etnpilot.Inbox.Types.{
  rejected, is_pending, Row, Table, InboxError, type_error, not_found, already_decided, key_in_use,
  Approval,
}
use etnpilot.Inbox.Ops.{
  has_id, get_row, Question, new_row, create, is_overdue, expire_row, expire, get, view,
  decided_row, is_open,
}
use etnpilot.Inbox.Calls.{Call, get_call, decide_call, perform, perform_all}
use etnpilot.Inbox.Changes.{perform_all-keeps}
use etnpilot.Inbox.Decisions.{
  IsKeyed, perform_all-IsKeyed, get_row-expire, decide-answer, due_answer,
}
use etnpilot.Inbox.Handler.{
  Event, polled, aborted, Ending, waiting, crashed, answered, stopped, withdrawal, after_withdrawal,
  after_poll, wait_for, answer_of, handle,
}

-- The question stands in the inbox with the time at which it is due.
abbrev IsDue : String → ℕ → Table → Type 0
IsDue id due t = (r : Row) × (get_row id t ≡ some r) × (r.expires_at ≡ due)

perform_all-IsDue :
    (cs : List Call) (id : String) (due : ℕ) (t : Table)
    → IsDue id due t
    → IsDue id due (perform_all cs t)
unfolding expire
perform_all-IsDue cs id due t =
    perform_all-keeps (IsDue id due)
      (λ now u (r, g, d).
        (update_row (is_overdue now) (expire_row now) r, get_row-expire id now u r g, ground arith))
      (λ other v now u w (r, g, d). (
        update_row (is_open other) (decided_row v now) r,
        select-update (λ x. x.id) id (is_open other) (decided_row v now) u r (λ _. refl) g,
        ground arith,
      ))
      (λ other now timeout q u free (r, g, d). (r, select-append (λ x. x.id) id u _ r g, d)) cs t

-- The wait is over, with a record.
abbrev pub is_over : Ending → Bool
is_over waiting = false
is_over crashed = false
is_over (answered a) = true
is_over (stopped stopped_by a) = true

-- A poll that is due time, or an abort.
abbrev pub ends_by : ℕ → Event → Bool
ends_by due (polled others now) = leb due now
ends_by due (aborted others stopped_by now expiry seen again) = true

after_poll-over :
    (id : String) (due now : ℕ) (t : Table) (rest : Ending × Table) (others : Bool)
    → IsDue id due t
    → (leb due now || others) ≡ true
    → (others ≡ true → is_over rest.0 ≡ true)
    → is_over (after_poll (ok (view (get_row id (expire now t)))) (expire now t) rest).0 ≡ true
after_poll-over id due now t rest others (r, g, d) h k =
    rw (get_row-expire id now t r g) (elim (Bool-cases (is_overdue now r)) [
      | inl late ↦ rw late refl
      | inr early ↦ rw early (elim (Bool-cases (is_pending r.status)) [
        | inl waits ↦ rw waits (k (ground arith))
        | inr settled ↦ rw settled refl
      ])
    ])

after_withdrawal-over :
    (id : String) (stopped_by : Option String) (again : ℕ) (r : Result InboxError (Option Approval))
    (t : Table) (due now expiry : ℕ) (o : Row)
    → IsDue id due t
    → r ≡ due_answer (some rejected) (withdrawal stopped_by) now expiry (some o)
    → is_over (after_withdrawal id stopped_by again r t).0 ≡ true
unfolding get
after_withdrawal-over id stopped_by again (ok (some a)) t due now expiry o w e = refl
after_withdrawal-over id stopped_by again (ok none) t due now expiry o w e = ground arith
after_withdrawal-over id stopped_by again (err type_error) t due now expiry o w e = ground arith
after_withdrawal-over id stopped_by again (err key_in_use) t due now expiry o w e = ground arith
after_withdrawal-over id stopped_by again (err not_found) t due now expiry o w e = ground arith
after_withdrawal-over id stopped_by again (err already_decided) t due now expiry o (r, g, d) e =
    rw (get_row-expire id again t r g) refl

wait_for-over :
    (id : String) (es : List Event) (t : Table) (due : ℕ)
    → IsKeyed t
    → IsDue id due t
    → any (ends_by due) es ≡ true
    → is_over (wait_for id es t).0 ≡ true
unfolding wait_for get perform perform_all
wait_for-over id [] t due k w h = absurd (cc)
wait_for-over id (polled others now ∷ es) t due k w h =
    let acted = perform_all-IsDue others id due t w in
    after_poll-over id due now (perform_all others t)
      (wait_for id es (expire now (perform_all others t))) (any (ends_by due) es) acted h
      (wait_for-over id es (expire now (perform_all others t)) due
        (perform_all-IsKeyed (get_call id now ∷ []) _ (perform_all-IsKeyed others t k))
        (perform_all-IsDue (get_call id now ∷ []) id due _ acted))
wait_for-over id (aborted others stopped_by now expiry seen again ∷ es) t due k w h =
    let (r, g, d) = perform_all-IsDue others id due t w in
    let t' = perform_all others t in
    let call = decide_call id "rejected" (withdrawal stopped_by) now expiry seen in
    after_withdrawal-over id stopped_by again _ _ due now expiry r
      (perform_all-IsDue (call ∷ []) id due t' (r, g, d))
      (decide-answer id "rejected" (withdrawal stopped_by) now expiry seen t'
          (perform_all-IsKeyed others t k)
        ∙ ap (due_answer (some rejected) (withdrawal stopped_by) now expiry) g)

answer_of-over : (e : Ending) → is_over e ≡ true → is_some (answer_of e) ≡ true
answer_of-over waiting h = absurd (cc)
answer_of-over crashed h = absurd (cc)
answer_of-over (answered a) h = refl
answer_of-over (stopped stopped_by a) h = refl

-- The handler answers: with a positive timeout, a new id and an inbox of distinct ids, the wait ends
-- with an answer, and no error, once the inbox is polled when the timeout is over, or the signal is
-- aborted.
pub handle_answers :
    (id : String) (now timeout : ℕ) (q : Question) (others : List Call) (first : ℕ)
    (es : List Event) (t : Table)
    → IsKeyed t
    → any (has_id id) t ≡ false
    → 1 ≤ timeout
    → any (ends_by (now + timeout)) (polled others first ∷ es) ≡ true
    → is_some (handle id now (whole timeout) q others first es t).0 ≡ true
unfolding handle create
handle_answers id now timeout q others first es t k free long h =
    let r = new_row id now timeout q in
    let wait : is_over (wait_for id (polled others first ∷ es) (t ++ r ∷ [])).0 ≡ true =
      wait_for-over id (polled others first ∷ es) (t ++ r ∷ []) (now + timeout)
        (Keyed-insert (λ x. x.id) r t free k)
        (r, select-insert (λ x. x.id) r t free (eq_refl id), refl) h in
    let positive : leb 1 timeout ≡ true = ground arith in
    rw positive (rw free (answer_of-over _ wait))

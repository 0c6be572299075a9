-- ===== src/Inbox/Decisions.antt =====
-- src/core/approval-inbox.js: what `decide` answers and leaves, and that nothing is decided twice.
use etnpilot.Common.{
  ℕ, ◌≤◌, ◌≡◌, refl, ap, ◌∙◌, true, false, not, ◌&&◌, Option, none, some, is_some, List, [], ◌∷◌,
  String, count, update, update_row, arith, Bool-cases, Option-cases, inl, inr, ltb, ◌==◌,
  if◌then◌else◌, All, All-append, Result, ok, err, Keyed, Keyed-update, Keyed-insert, select-update,
  select-update-none, select-append, select-key, count_found,
}
use etnpilot.Inbox.Types.{
  Status, is_pending, is_human_word, Row, Table, InboxError, type_error, not_found, already_decided,
  Approval, from_row,
}
use etnpilot.Inbox.Ops.{
  get_row, new_row, is_overdue, expire_row, expire, get, decision_status, Verdict, Said, said,
  decided_row, is_open, record_decision, decide_found, decide_known, decide,
}
use etnpilot.Inbox.Calls.{Call, expire_call, perform, perform_all}
use etnpilot.Inbox.Changes.{decision_status-decided, settled_by_human, perform_all-keeps}

abbrev key : Row → String
key r = r.id

abbrev pub IsKeyed : Table → Type 0
IsKeyed t = Keyed key t

pub get_row-expire :
    (id : String) (now : ℕ) (t : Table) (r : Row)
    → get_row id t ≡ some r
    → get_row id (expire now t) ≡ some (update_row (is_overdue now) (expire_row now) r)
unfolding expire
get_row-expire id now t r e =
    select-update key id (is_overdue now) (expire_row now) t r (λ _. refl) e

get_row-expire-none :
    (id : String) (now : ℕ) (t : Table) → get_row id t ≡ none → get_row id (expire now t) ≡ none
unfolding expire
get_row-expire-none id now t e =
    select-update-none key id (is_overdue now) (expire_row now) t (λ _. refl) e

-- A question that is decided or expired stays as it is, whatever calls follow: no later decision,
-- expiry or new question changes its row.
pub perform_all_settled :
    (cs : List Call) (id : String) (t : Table) (r : Row)
    → get_row id t ≡ some r
    → is_pending r.status ≡ false
    → get_row id (perform_all cs t) ≡ some r
unfolding expire
perform_all_settled cs id t r e settled =
    perform_all-keeps (λ u. get_row id u ≡ some r)
      (λ now u h. get_row-expire id now u r h ∙ rw settled refl)
      (λ other v now u d h.
        select-update key id (is_open other) (decided_row v now) u r (λ _. refl) h
        ∙ ap (λ x. some x) (ground arith))
      (λ other now timeout q u free h. select-append key id u _ r h) cs t e

pub perform_all-IsKeyed : (cs : List Call) (t : Table) → IsKeyed t → IsKeyed (perform_all cs t)
unfolding expire
perform_all-IsKeyed cs t =
    perform_all-keeps IsKeyed
      (λ now u h. Keyed-update key (is_overdue now) (expire_row now) u (λ _. refl) h)
      (λ id v now u d h. Keyed-update key (is_open id) (decided_row v now) u (λ _. refl) h)
      (λ id now timeout q u free h. Keyed-insert key (new_row id now timeout q) u free h) cs t

-- A row says when it was settled exactly if it is, and who decided exactly if somebody did, and an
-- expired one was settled no earlier than it was due.
pub record RowIsSound (r : Row) : Type 0 where
  pub settled : is_some r.decided_at ≡ not (is_pending r.status)
  pub decided : is_some r.decided_by ≡ is_human_word r.status
  pub expires_later : r.created_at ≤ r.expires_at

expire_row-RowIsSound :
    (now : ℕ) (r : Row) → RowIsSound r → RowIsSound (update_row (is_overdue now) (expire_row now) r)
expire_row-RowIsSound now r h = ground arith

expire-All-RowIsSound : (now : ℕ) (t : Table) → All RowIsSound t → All RowIsSound (expire now t)
unfolding expire
expire-All-RowIsSound now [] h = tt
expire-All-RowIsSound now (r ∷ t) h =
    (expire_row-RowIsSound now r h.0, expire-All-RowIsSound now t h.1)

decide-All-RowIsSound :
    (id : String) (v : Verdict) (now : ℕ) (t : Table)
    → is_human_word v.status ≡ true
    → All RowIsSound t
    → All RowIsSound (update (is_open id) (decided_row v now) t)
decide-All-RowIsSound id v now [] d h = tt
decide-All-RowIsSound id v now (r ∷ t) d h =
    (decided_row-RowIsSound id v now r d h.0, decide-All-RowIsSound id v now t d h.1)
  where
    decided_row-RowIsSound :
        (id : String) (v : Verdict) (now : ℕ) (r : Row)
        → is_human_word v.status ≡ true
        → RowIsSound r
        → RowIsSound (update_row (is_open id) (decided_row v now) r)
    decided_row-RowIsSound id v now r d h = ground (arith, settled_by_human v.status d)

-- After any sequence of calls on an empty inbox no two questions have the same id, and each row says
-- when it was settled exactly if it is settled, who decided it exactly if it was decided by someone,
-- and is due no earlier than it was asked.
pub perform_all-IsSound :
    (cs : List Call) → IsKeyed (perform_all cs []) × All RowIsSound (perform_all cs [])
perform_all-IsSound cs = (
  perform_all-IsKeyed cs [] tt,
  perform_all-keeps (All RowIsSound) expire-All-RowIsSound decide-All-RowIsSound
      (λ id now timeout q u free h.
        All-append RowIsSound u (new_row id now timeout q ∷ []) h
          (record { settled = refl; decided = refl; expires_later = omega arith }, tt))
      cs [] tt,
)

-- The answer that is due to a decision, given what stands in the inbox.
abbrev pub due_answer :
    Option Status → Said → (now expiry : ℕ) → Option Row → Result InboxError (Option Approval)
due_answer none s now expiry o = err type_error
due_answer (some status) s now expiry none = err not_found
due_answer (some status) s now expiry (some r) =
    if is_pending r.status && ltb expiry r.expires_at
    then ok (some (from_row (decided_row (said s status) now r)))
    else err already_decided

record_decision-eq :
    (id : String) (v : Verdict) (now seen : ℕ) (t : Table) (r : Row)
    → IsKeyed t
    → get_row id t ≡ some r
    → is_pending r.status ≡ true
    → is_human_word v.status ≡ true
    → (record_decision id v now seen t).0 ≡ ok (some (from_row (decided_row v now r)))
unfolding get
record_decision-eq id v now seen t r k e p d =
    let one : count (is_open id) t == 1 ≡ true =
      rw (count_found key id (λ s. is_pending s.status) t r k e p) refl in
    let mine : is_open id r ≡ true = rw (select-key key id t r e) p in
    let after = select-update key id (is_open id) (decided_row v now) t r (λ _. refl) e in
    rw one (rw (get_row-expire id seen _ _ after) (rw mine (rw (settled_by_human v.status d) refl)))

-- `decide` answers as is due on every branch: a word that is no decision is a type error, an unknown
-- question is not found, a question that is settled or, when `expire` reads the clock, overdue counts
-- as decided already, and else the decided question is returned. The ids must be distinct.
pub decide-answer :
    (id d : String) (s : Said) (now expiry seen : ℕ) (t : Table)
    → IsKeyed t
    → (decide id d s now expiry seen t).0
      ≡ due_answer (decision_status d) s now expiry (get_row id t)
unfolding decide decide_known perform perform_all
decide-answer id d s now expiry seen t k = elim (Option-cases (decision_status d)) [
  | inl none_such ↦ rw none_such refl
  | inr (status, e) ↦ rw e (go status e (get_row id t) refl)
]
  where
    k' : IsKeyed (expire expiry t)
    k' = perform_all-IsKeyed (expire_call expiry ∷ []) t k

    go :
        (status : Status)
        → decision_status d ≡ some status
        → (o : Option Row) → get_row id t ≡ o
        → (decide_found id
            (said s status)
            now
            seen
            (get_row id (expire expiry t))
            (expire expiry t)).0
          ≡ due_answer (some status) s now expiry (get_row id t)
    go status f none e = rw (e, get_row-expire-none id expiry t e) refl
    go status f (some r) e =
        rw (e, get_row-expire id expiry t r e)
          (elim (Bool-cases (is_overdue expiry r)) [
            | inl late ↦ rw late ground arith
            | inr early ↦ rw early (elim (Bool-cases (is_pending r.status)) [
              | inl waits ↦ ground (
                arith,
                record_decision-eq id (said s status) now seen (expire expiry t) r k'
                    (get_row-expire id expiry t r e ∙ rw early refl) waits
                    (decision_status-decided d status f),
              )
              | inr settled ↦ rw settled refl
            ])
          ])

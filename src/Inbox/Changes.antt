-- ===== src/Inbox/Changes.antt =====
-- src/core/approval-inbox.js: what any call does to the table: it expires overdue questions, records
-- a decision on open ones, or adds a question with a new key. What these keep, every call keeps.
use etnpilot.Common.{
  ℕ, ◌≡◌, refl, true, false, Option, none, some, List, [], ◌∷◌, ◌++◌, String, any, count, update,
  arith, Bool-cases, Option-cases, inl, inr, leb, ◌==◌, whole, other, JsNumber,
}
use etnpilot.Inbox.Types.{
  Status, pending, expired, approved, rejected, approved_for_run, is_pending, is_human_word, Row,
  Table,
}
use etnpilot.Inbox.Ops.{
  has_id, get_row, Question, new_row, insert, create, expire, get, list_approvals, is_known,
  decision_status, Verdict, Said, said, decided_row, is_open, record_decision, decide_found,
  decide_known, decide,
}
use etnpilot.Inbox.Calls.{
  Call, create_call, get_call, list_call, decide_call, expire_call, perform, perform_all,
}

pub decision_status-decided :
    (d : String) (s : Status) → decision_status d ≡ some s → is_human_word s ≡ true
decision_status-decided d pending e = ground arith
decision_status-decided d expired e = ground arith
decision_status-decided d approved e = refl
decision_status-decided d rejected e = refl
decision_status-decided d approved_for_run e = refl

pub settled_by_human : (s : Status) → is_human_word s ≡ true → is_pending s ≡ false
settled_by_human pending e = ground arith
settled_by_human expired e = refl
settled_by_human approved e = refl
settled_by_human rejected e = refl
settled_by_human approved_for_run e = refl

module _ (P : Table → Type 0) (by_expiry : (now : ℕ) (t : Table) → P t → P (expire now t))
    (by_decision : (id : String) (v : Verdict) (now : ℕ) (t : Table)
      → is_human_word v.status ≡ true
      → P t
      → P (update (is_open id) (decided_row v now) t))
    (by_question : (id : String) (now timeout : ℕ) (q : Question) (t : Table)
      → any (has_id id) t ≡ false
      → P t
      → P (t ++ new_row id now timeout q ∷ [])) where
  insert-keeps :
      (id : String) (now timeout : ℕ) (q : Question) (t : Table)
      → P t
      → P (insert (new_row id now timeout q) t).1
  insert-keeps id now timeout q t h = elim (Bool-cases (any (has_id id) t)) [
    | inl used ↦ rw used h
    | inr free ↦ rw free (by_question id now timeout q t free h)
  ]

  create-keeps :
      (id : String) (now : ℕ) (timeout : JsNumber) (q : Question) (t : Table)
      → P t
      → P (create id now timeout q t).1
  unfolding create
  create-keeps id now other q t h = h
  create-keeps id now (whole n) q t h = elim (Bool-cases (leb 1 n)) [
    | inl long ↦ rw long (insert-keeps id now n q t h)
    | inr short ↦ rw short h
  ]

  get-keeps : (id : String) (now : ℕ) (t : Table) → P t → P (get id now t).1
  unfolding get
  get-keeps id now t h = by_expiry now t h

  list_approvals-keeps :
      (name : String) (limit : JsNumber) (now : ℕ) (t : Table)
      → P t
      → P (list_approvals name limit now t).1
  unfolding list_approvals
  list_approvals-keeps name other now t h = elim (Bool-cases (is_known name)) [
    | inl known ↦ rw known h
    | inr unknown ↦ rw unknown h
  ]
  list_approvals-keeps name (whole n) now t h = elim (Bool-cases (is_known name)) [
    | inr unknown ↦ rw unknown h
    | inl known ↦ rw known (elim (Bool-cases (leb 1 n)) [
      | inr short ↦ rw short h
      | inl long ↦ rw long (elim (Bool-cases (leb n 1000)) [
        | inl fits ↦ rw fits (by_expiry now t h)
        | inr big ↦ rw big h
      ])
    ])
  ]

  record_decision-keeps :
      (id : String) (v : Verdict) (now seen : ℕ) (t : Table)
      → is_human_word v.status ≡ true
      → P t
      → P (record_decision id v now seen t).1
  record_decision-keeps id v now seen t d h = elim (Bool-cases (count (is_open id) t == 1)) [
    | inl one ↦ rw one (get-keeps id seen _ (by_decision id v now t d h))
    | inr two ↦ rw two (by_decision id v now t d h)
  ]

  decide_found-keeps :
      (id : String) (v : Verdict) (now seen : ℕ) (o : Option Row) (t : Table)
      → is_human_word v.status ≡ true
      → P t
      → P (decide_found id v now seen o t).1
  decide_found-keeps id v now seen none t d h = h
  decide_found-keeps id v now seen (some r) t d h = elim (Bool-cases (is_pending r.status)) [
    | inl waits ↦ rw waits (record_decision-keeps id v now seen t d h)
    | inr settled ↦ rw settled h
  ]

  decide-keeps :
      (id d : String) (s : Said) (now expiry seen : ℕ) (t : Table)
      → P t
      → P (decide id d s now expiry seen t).1
  unfolding decide decide_known
  decide-keeps id d s now expiry seen t h = elim (Option-cases (decision_status d)) [
    | inl none_such ↦ rw none_such h
    | inr (status, e) ↦ rw e (
        decide_found-keeps id (said s status) now seen (get_row id (expire expiry t)) _
          (decision_status-decided d status e) (by_expiry expiry t h))
  ]

  pub perform-keeps : (c : Call) (t : Table) → P t → P (perform c t)
  unfolding perform
  perform-keeps (create_call id now timeout q) t h = create-keeps id now timeout q t h
  perform-keeps (get_call id now) t h = get-keeps id now t h
  perform-keeps (list_call name limit now) t h = list_approvals-keeps name limit now t h
  perform-keeps (decide_call id d s now expiry seen) t h = decide-keeps id d s now expiry seen t h
  perform-keeps (expire_call now) t h = by_expiry now t h

  pub perform_all-keeps : (cs : List Call) (t : Table) → P t → P (perform_all cs t)
  unfolding perform_all
  perform_all-keeps [] t h = h
  perform_all-keeps (c ∷ cs) t h = perform_all-keeps cs (perform c t) (perform-keeps c t h)

-- ===== src/Inbox/Approving.antt =====
-- src/core/approval-inbox.js: the handler approves only what is stored as approved.
use etnpilot.Common.{
  ℕ, ◌≡◌, refl, sym, ap, ◌∙◌, Bool, true, false, Option, none, some, List, [], ◌∷◌, String,
  Bool-cases, inl, inr, Result, ok, err, whole, some-injective,
}
use etnpilot.Inbox.Types.{
  Status, pending, expired, approved, rejected, approved_for_run, is_pending, Row, Table,
  InboxError, type_error, not_found, already_decided, key_in_use, Approval, from_row,
}
use etnpilot.Inbox.Ops.{get_row, Question, create, expire, get, view, decide}
use etnpilot.Inbox.Calls.{Call, perform_all}
use etnpilot.Inbox.Handler.{
  Event, polled, aborted, Ending, waiting, crashed, answered, stopped, withdrawal, stopped_with,
  after_withdrawal, after_poll, wait_for, Kind, approve_once, approve_for_run, reject, Answer,
  kind_of, answer_of, after_create, handle,
}

-- A record that ends the wait by its status is the stored one, and settled.
abbrev IsStored : String → Ending → Table → Type 0
IsStored id waiting u = Unit
IsStored id crashed u = Unit
IsStored id (answered a) u =
    (r : Row) × (get_row id u ≡ some r) × (from_row r ≡ a) × (is_pending r.status ≡ false)
IsStored id (stopped stopped_by a) u = Unit

stopped_with-IsStored :
    (id : String) (stopped_by : Option String) (a : Option Approval) (u : Table)
    → IsStored id (stopped_with stopped_by a) u
stopped_with-IsStored id stopped_by none u = tt
stopped_with-IsStored id stopped_by (some a) u = tt

after_withdrawal-IsStored :
    (id : String) (stopped_by : Option String) (again : ℕ) (r : Result InboxError (Option Approval))
    (t : Table)
    → let (e, u) = after_withdrawal id stopped_by again r t in IsStored id e u
unfolding get
after_withdrawal-IsStored id stopped_by again (ok a) t = stopped_with-IsStored id stopped_by a t
after_withdrawal-IsStored id stopped_by again (err type_error) t = tt
after_withdrawal-IsStored id stopped_by again (err key_in_use) t = tt
after_withdrawal-IsStored id stopped_by again (err not_found) t =
    stopped_with-IsStored id stopped_by (view (get_row id (expire again t))) (expire again t)
after_withdrawal-IsStored id stopped_by again (err already_decided) t =
    stopped_with-IsStored id stopped_by (view (get_row id (expire again t))) (expire again t)

after_poll-IsStored :
    (id : String) (t : Table) (o : Option Row) (rest : Ending × Table)
    → get_row id t ≡ o
    → IsStored id rest.0 rest.1
    → let (e, u) = after_poll (ok (view o)) t rest in IsStored id e u
after_poll-IsStored id t none rest g h = tt
after_poll-IsStored id t (some r) rest g h = elim (Bool-cases (is_pending r.status)) [
  | inl waits ↦ rw waits h
  | inr settled ↦ rw settled (r, g, refl, settled)
]

wait_for-IsStored :
    (id : String) (es : List Event) (t : Table)
    → IsStored id (wait_for id es t).0 (wait_for id es t).1
unfolding wait_for get
wait_for-IsStored id [] t = tt
wait_for-IsStored id (polled others now ∷ es) t =
    let t' = expire now (perform_all others t) in
    after_poll-IsStored id t' (get_row id t') (wait_for id es t') refl (wait_for-IsStored id es t')
wait_for-IsStored id (aborted others stopped_by now expiry seen again ∷ es) t =
    let (r, t') =
      decide id "rejected" (withdrawal stopped_by) now expiry seen (perform_all others t) in
    after_withdrawal-IsStored id stopped_by again r t'

abbrev pub is_approval : Kind → Bool
is_approval (approve_once scope answer) = true
is_approval (approve_for_run scope answer) = true
is_approval (reject refusal) = false

-- Whether the stored status of a question is the yes that the kind of an answer says.
abbrev pub is_yes_to : Kind → Status → Bool
is_yes_to (approve_once scope answer) approved = true
is_yes_to (approve_for_run scope answer) approved_for_run = true
is_yes_to _ _ = false

kind_of-is_yes :
    (a : Approval) → is_approval (kind_of a) ≡ true → is_yes_to (kind_of a) a.status ≡ true
kind_of-is_yes a h = go a.status a refl h
  where
    go :
        (s : Status) (a : Approval)
        → a.status ≡ s
        → is_approval (kind_of a) ≡ true
        → is_yes_to (kind_of a) a.status ≡ true
    go approved a e h = rw e refl
    go approved_for_run a e h = rw e refl
    go pending a e h = absurd (cc (rw e at h))
    go rejected a e h = absurd (cc (rw e at h))
    go expired a e h = absurd (cc (rw e at h))

answer_of-yes :
    (id : String) (e : Ending) (u : Table) (a : Answer)
    → IsStored id e u
    → answer_of e ≡ some a
    → is_approval a.kind ≡ true
    → (r : Row) × (get_row id u ≡ some r) × (is_yes_to a.kind r.status ≡ true)
answer_of-yes id waiting u a s e h = absurd (cc)
answer_of-yes id crashed u a s e h = absurd (cc)
answer_of-yes id (answered x) u a (r, g, same, p) e h =
    let k : a.kind ≡ kind_of x = ap (λ y. y.kind) (sym (some-injective e)) in
    (r, g, rw (k, ap (λ z. z.status) same) (kind_of-is_yes x (ap is_approval (sym k) ∙ h)))
answer_of-yes id (stopped stopped_by x) u a s e h =
    absurd (cc (ap (λ y. is_approval y.kind) (some-injective e) ∙ h))

-- The handler approves an operation only if the inbox holds its question as approved with the same
-- reach, whatever other callers did while it waited.
pub handle-approved :
    (id : String) (now timeout : ℕ) (q : Question) (others : List Call) (first : ℕ)
    (es : List Event) (t : Table) (a : Answer)
    → (handle id now (whole timeout) q others first es t).0 ≡ some a
    → is_approval a.kind ≡ true
    → (r : Row) × (get_row id (handle id now (whole timeout) q others first es t).1 ≡ some r)
      × (is_yes_to a.kind r.status ≡ true)
unfolding handle
handle-approved id now timeout q others first es t a e h =
    go (create id now (whole timeout) q t).0 (create id now (whole timeout) q t).1 e
  where
    go :
        (c : Result InboxError Approval) (u : Table)
        → (after_create c u (wait_for id (polled others first ∷ es) u)).0 ≡ some a
        → (r : Row) × (get_row id (after_create c u (wait_for id (polled others first ∷ es) u)).1
            ≡ some r)
          × (is_yes_to a.kind r.status ≡ true)
    go (ok x) u f = answer_of-yes id _ _ a (wait_for-IsStored id (polled others first ∷ es) u) f h
    go (err y) u f = absurd (cc)

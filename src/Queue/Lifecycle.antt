-- ===== src/Queue/Lifecycle.antt =====
-- src/workflow/queue.js: the life of one job through any calls.
use etnpilot.Common.{
  ◌≡◌, refl, sym, ◌∙◌, Bool, true, false, List, [], ◌∷◌, ◌++◌, String, some, subst, arith,
  Bool-cases, any, ◌⊎◌, inl, inr, str_eq,
}
use etnpilot.Queue.Types.{
  Status, queued, retry_scheduled, running, cancel_requested, succeeded, failed, canceled, orphaned,
  is_waiting, is_leased, is_running, is_cancel_requested, is_terminal, is_resumable, Row, Table,
}
use etnpilot.Queue.Ops.{has_id, get_row}
use etnpilot.Queue.Steps.{
  Change, kept, claimed, extended, saved, finished, retried, given_up, cancel_wanted, withdrawn,
  stopped, lost, resumed, Changes, nil, cons, Step, change, insert, Steps, here, next,
}
use etnpilot.Queue.Invariant.{Change-keys, IsKeyed, IsSound, Steps-IsKeyed}
use etnpilot.Queue.Calls.{Call, perform, perform_all}
use etnpilot.Queue.Refinement.{is_resume, perform-Steps, perform_all-IsSound}

-- Every table that calls can lead to, from the empty one, in any order and with any arguments: the
-- keys are distinct; a lease is held exactly while its job is running or being canceled, an end is
-- recorded exactly when the job has ended, a leased job has a start, and there are never more
-- attempts than the job allows, with one left while it waits.
pub reachable-IsSound : (cs : List Call) → IsSound (perform_all cs [])
reachable-IsSound cs = perform_all-IsSound cs [] (record { rows = tt; keyed = tt })

-- The diagram of the statuses. `re` tells whether an operator may put an ended job back.
pub data Edge (re : Bool) : Status → Status → Type 0 where
  claim : {s : Status} → is_waiting s ≡ true → Edge re s running
  keep : {s : Status} → Edge re s s
  succeed : Edge re running succeeded
  retry : Edge re running retry_scheduled
  give_up : Edge re running failed
  want : {s : Status} → is_leased s ≡ true → Edge re s cancel_requested
  withdraw : {s : Status} → is_waiting s ≡ true → Edge re s canceled
  stop : Edge re cancel_requested canceled
  lose : {s : Status} → is_leased s ≡ true → Edge re s orphaned
  put_back : {s : Status} → re ≡ true → is_resumable s ≡ true → Edge re s queued

pub data Way (re : Bool) (s : Status) : Status → Type 0 where
  start : Way re s s
  along : {t u : Status} → Way re s t → Edge re t u → Way re s u

status_running : (r : Row) → is_running r.status ≡ true → r.status ≡ running
status_running r h = ground arith

status_stopping : (r : Row) → is_cancel_requested r.status ≡ true → r.status ≡ cancel_requested
status_stopping r h = ground arith

module _ {re : Bool} where
  Change-Edge : {r s : Row} → Change re r s → Edge re r.status s.status
  Change-Edge kept = keep
  Change-Edge (claimed worker lease now h) = claim h
  Change-Edge (extended lease now h) = keep
  Change-Edge (saved value now h) = keep
  Change-Edge {r} (finished result now h) =
      subst (λ s. Edge re s succeeded) (sym (status_running r h)) succeed
  Change-Edge {r} (retried error available now h m) =
      subst (λ s. Edge re s retry_scheduled) (sym (status_running r h)) retry
  Change-Edge {r} (given_up error available now h) =
      subst (λ s. Edge re s failed) (sym (status_running r h)) give_up
  Change-Edge (cancel_wanted error now h) = want h
  Change-Edge (withdrawn error now h) = withdraw h
  Change-Edge {r} (stopped now h) = subst (λ s. Edge re s canceled) (sym (status_stopping r h)) stop
  Change-Edge (lost error now h) = lose h
  Change-Edge (resumed now b h) = put_back b h

-- The row of a job before and after, and the way of its status through the diagram. An ended job
-- that nobody may put back is as it was.
pub record Follows (re : Bool) (id : String) (r : Row) (u : Table) : Type 0 where
  pub row : Row
  pub found : get_row id u ≡ some row
  pub way : Way re r.status row.status
  pub final : (re ≡ true) ⊎ (is_terminal r.status ≡ false) ⊎ (row ≡ r)

get_row-append :
    (id : String) (t : Table) (r new : Row)
    → get_row id t ≡ some r
    → get_row id (t ++ new ∷ []) ≡ some r
get_row-append id [] r new e = cc
get_row-append id (s ∷ t) r new e = elim (Bool-cases (has_id id s)) [
  | inl h ↦ rw h (ground arith)
  | inr h ↦ rw h (get_row-append id t r new (ground arith))
]

module _ {re : Bool} where
  Change-final :
      {r s : Row} → Change re r s → (re ≡ true) ⊎ (is_terminal r.status ≡ false) ⊎ (s ≡ r)
  Change-final kept = inr (inr refl)
  Change-final (claimed worker lease now w) = inr (inl (ground arith))
  Change-final (extended lease now w) = inr (inl (ground arith))
  Change-final (saved value now w) = inr (inl (ground arith))
  Change-final (finished result now w) = inr (inl (ground arith))
  Change-final (retried error available now w m) = inr (inl (ground arith))
  Change-final (given_up error available now w) = inr (inl (ground arith))
  Change-final (cancel_wanted error now w) = inr (inl (ground arith))
  Change-final (withdrawn error now w) = inr (inl (ground arith))
  Change-final (stopped now w) = inr (inl (ground arith))
  Change-final (lost error now w) = inr (inl (ground arith))
  Change-final (resumed now b w) = inl b

  Changes-Follows :
      {t u : Table} (id : String) (r : Row)
      → Changes re t u
      → get_row id t ≡ some r
      → Follows re id r u
  Changes-Follows id r nil e = absurd (cc)
  Changes-Follows id r (cons {r = q} {s} c cs) e = elim (Bool-cases (has_id id q)) [
    | inr h ↦
        let back : has_id id s ≡ false =
          subst (λ i. str_eq i id ≡ false) (sym (Change-keys c).0) h in
        let rest = Changes-Follows id r cs (ground arith) in
        record { row = rest.row; found = rw back rest.found; way = rest.way; final = rest.final }
    | inl h ↦
        let same : q ≡ r = ground arith in
        let there : has_id id s ≡ true =
          subst (λ i. str_eq i id ≡ true) (sym (Change-keys c).0) h in
        let c' : Change re r s = subst (λ x. Change re x s) same c in
        record {
          row = s;
          found = rw there;
          way = along start (Change-Edge c');
          final = Change-final c';
        }
  ]

  Step-Follows :
      {t u : Table} (id : String) (r : Row)
      → Step re t u
      → get_row id t ≡ some r
      → Follows re id r u
  Step-Follows id r (change cs) e = Changes-Follows id r cs e
  Step-Follows {t} id r (insert new job n now h a) e = record {
    row = r;
    found = get_row-append id t r _ e;
    way = start;
    final = inr (inr refl);
  }

  Way-then : {a b c : Status} → Way re a b → Way re b c → Way re a c
  Way-then x start = x
  Way-then x (along y e) = along (Way-then x y) e

  final-then :
      {r t : Row} (s : Row)
      → (re ≡ true) ⊎ (is_terminal r.status ≡ false) ⊎ (s ≡ r)
      → (re ≡ true) ⊎ (is_terminal s.status ≡ false) ⊎ (t ≡ s)
      → (re ≡ true) ⊎ (is_terminal r.status ≡ false) ⊎ (t ≡ r)
  final-then s (inl a) g = inl a
  final-then s (inr (inl a)) g = inr (inl a)
  final-then s (inr (inr e)) (inl a) = inl a
  final-then s (inr (inr e)) (inr (inl a)) =
      inr (inl (subst (λ x. is_terminal x.status ≡ false) e a))
  final-then s (inr (inr e)) (inr (inr e')) = inr (inr (e' ∙ e))

  Follows-then :
      {u v : Table} {id : String} {r : Row}
      → Follows re id r u
      → ((s : Row) → get_row id u ≡ some s → Follows re id s v)
      → Follows re id r v
  Follows-then {r} f g =
      let after = g f.row f.found in
      record {
        row = after.row;
        found = after.found;
        way = Way-then f.way after.way;
        final = final-then f.row f.final after.final;
      }

  Steps-Follows :
      {t u : Table} (id : String) (r : Row)
      → Steps re t u
      → get_row id t ≡ some r
      → Follows re id r u
  Steps-Follows id r here e = record { row = r; found = e; way = start; final = inr (inr refl) }
  Steps-Follows id r (next ss st) e =
      Follows-then (Steps-Follows id r ss e) (λ s found. Step-Follows id s st found)

-- Whether a list of calls may put an ended job back.
abbrev pub any_resume : List Call → Bool
any_resume cs = any is_resume cs

module _ {a b : Bool} (weaker : a ≡ true → b ≡ true) where
  Edge-weaken : {s t : Status} → Edge a s t → Edge b s t
  Edge-weaken (claim w) = claim w
  Edge-weaken keep = keep
  Edge-weaken succeed = succeed
  Edge-weaken retry = retry
  Edge-weaken give_up = give_up
  Edge-weaken (want w) = want w
  Edge-weaken (withdraw w) = withdraw w
  Edge-weaken stop = stop
  Edge-weaken (lose w) = lose w
  Edge-weaken (put_back h w) = put_back (weaker h) w

  Way-weaken : {s t : Status} → Way a s t → Way b s t
  Way-weaken start = start
  Way-weaken (along w e) = along (Way-weaken w) (Edge-weaken e)

  Follows-weaken : {id : String} {r : Row} {u : Table} → Follows a id r u → Follows b id r u
  Follows-weaken f = record {
    row = f.row;
    found = f.found;
    way = Way-weaken f.way;
    final = elim f.final [ inl h ↦ inl (weaker h) | inr h ↦ inr h ];
  }

-- On a table with distinct keys, whatever the calls, a job of the table is never lost from it, and
-- its status has gone along the edges of the diagram; an edge out of an ended status is possible
-- only if `resume` is among the calls, and without it the row of an ended job stays as it was.
pub perform_all-Follows :
    (cs : List Call) (t : Table) (id : String) (r : Row)
    → IsKeyed t
    → get_row id t ≡ some r
    → Follows (any_resume cs) id r (perform_all cs t)
unfolding perform_all
perform_all-Follows [] t id r k e = record {
  row = r;
  found = e;
  way = start;
  final = inr (inr refl);
}
perform_all-Follows (c ∷ cs) t id r k e =
    let steps = perform-Steps c t k in
    let first = Steps-Follows id r steps e in
    Follows-then (Follows-weaken {b = any_resume (c ∷ cs)} (λ h. ground arith) first) λ s found.
      Follows-weaken {a = any_resume cs} (λ h. ground arith)
        (perform_all-Follows cs (perform c t) id s (Steps-IsKeyed steps k) found)

-- ===== src/Queue/Invariant.antt =====
-- src/workflow/queue.js: what holds of every row and of the table between two calls.
use etnpilot.Common.{
  not, ◌||◌, ltb, ℕ, ◌≤◌, ◌≡◌, refl, ◌∙◌, Bool, true, false, [], ◌∷◌, ◌++◌, String, str_eq, eq_iff,
  Option, none, some, is_some, any, All, All-append, arith,
}
use etnpilot.Queue.Types.{is_waiting, is_leased, is_terminal, Row, Table}
use etnpilot.Queue.Ops.{conflicts, keys_conflict, NewJob, new_row}
use etnpilot.Queue.Steps.{
  Change, kept, claimed, extended, saved, finished, retried, given_up, cancel_wanted, withdrawn,
  stopped, lost, resumed, Changes, nil, cons, Step, change, insert, Steps, here, next,
}

-- A lease is held exactly while the job is running or being canceled, an end is recorded exactly
-- when the job has ended, and no more attempts are made than the job allows.
pub record RowIsSound (r : Row) : Type 0 where
  pub owner_iff_leased : is_some r.lease_owner ≡ is_leased r.status
  pub expiry_iff_leased : is_some r.lease_expires_at ≡ is_leased r.status
  pub ended_iff_terminal : is_some r.finished_at ≡ is_terminal r.status
  pub leased_started : (not (is_leased r.status) || is_some r.started_at) ≡ true
  pub attempts_bounded : r.attempts ≤ r.max_attempts
  pub waiting_has_attempt : (not (is_waiting r.status) || ltb r.attempts r.max_attempts) ≡ true
  pub some_attempt : 1 ≤ r.max_attempts

module _ {re : Bool} where
  pub Change-RowIsSound : {r s : Row} → Change re r s → RowIsSound r → RowIsSound s
  Change-RowIsSound kept v = v
  Change-RowIsSound (claimed worker lease now h) v = ground arith
  Change-RowIsSound (extended lease now h) v = ground arith
  Change-RowIsSound (saved value now h) v = ground arith
  Change-RowIsSound (finished result now h) v = ground arith
  Change-RowIsSound (retried error available now h m) v = ground arith
  Change-RowIsSound (given_up error available now h) v = ground arith
  Change-RowIsSound (cancel_wanted error now h) v = ground arith
  Change-RowIsSound (withdrawn error now h) v = ground arith
  Change-RowIsSound (stopped now h) v = ground arith
  Change-RowIsSound (lost error now h) v = ground arith
  Change-RowIsSound (resumed now b h) v = ground arith

  pub Changes-All : {t u : Table} → Changes re t u → All RowIsSound t → All RowIsSound u
  Changes-All nil v = v
  Changes-All (cons c cs) v = (Change-RowIsSound c v.0, Changes-All cs v.1)

-- The PRIMARY KEY and the UNIQUE column: no row conflicts with a later one.
abbrev pub IsKeyed : Table → Type 0
IsKeyed [] = Unit
IsKeyed (r ∷ t) = (any (conflicts r) t ≡ false) × IsKeyed t

module _ {re : Bool} where
  pub Change-keys : {r s : Row} → Change re r s → (s.id ≡ r.id) × (s.delivery_id ≡ r.delivery_id)
  Change-keys kept = (refl, refl)
  Change-keys (claimed worker lease now h) = (refl, refl)
  Change-keys (extended lease now h) = (refl, refl)
  Change-keys (saved value now h) = (refl, refl)
  Change-keys (finished result now h) = (refl, refl)
  Change-keys (retried error available now h m) = (refl, refl)
  Change-keys (given_up error available now h) = (refl, refl)
  Change-keys (cancel_wanted error now h) = (refl, refl)
  Change-keys (withdrawn error now h) = (refl, refl)
  Change-keys (stopped now h) = (refl, refl)
  Change-keys (lost error now h) = (refl, refl)
  Change-keys (resumed now b h) = (refl, refl)

  conflicts-Change : {q p r s : Row} → Change re q p → Change re r s → conflicts p s ≡ conflicts q r
  conflicts-Change c d =
      cc ((Change-keys c).0, (Change-keys c).1, (Change-keys d).0, (Change-keys d).1)

  any-Changes :
      {q p : Row} {t u : Table}
      → Change re q p
      → Changes re t u
      → any (conflicts p) u ≡ any (conflicts q) t
  any-Changes c nil = refl
  any-Changes c (cons d ds) = cc (conflicts-Change c d, any-Changes c ds)

  pub Changes-IsKeyed : {t u : Table} → Changes re t u → IsKeyed t → IsKeyed u
  Changes-IsKeyed nil k = k
  Changes-IsKeyed (cons c cs) k = (any-Changes c cs ∙ k.0, Changes-IsKeyed cs k.1)

-- A conflict is one both ways.
str_eq_comm : (a b : String) → str_eq a b ≡ str_eq b a
str_eq_comm a b = ground (arith, eq_iff a b, eq_iff b a)

keys_conflict_comm :
    (i j : String) (c d : Option String) → keys_conflict i c j d ≡ keys_conflict j d i c
unfolding keys_conflict
keys_conflict_comm i j none none = ground (arith, str_eq_comm i j)
keys_conflict_comm i j none (some d) = ground (arith, str_eq_comm i j)
keys_conflict_comm i j (some c) none = ground (arith, str_eq_comm i j)
keys_conflict_comm i j (some c) (some d) = cc (str_eq_comm i j, str_eq_comm c d)

any_last :
    (r : Row) (t : Table) (new : Row)
    → any (conflicts r) t ≡ false
    → conflicts r new ≡ false
    → any (conflicts r) (t ++ new ∷ []) ≡ false
any_last r [] new a c = rw c
any_last r (s ∷ t) new a c = ground (arith, any_last r t new)

IsKeyed-insert :
    (t : Table) (new : Row) → any (conflicts new) t ≡ false → IsKeyed t → IsKeyed (t ++ new ∷ [])
IsKeyed-insert [] new a k = (refl, tt)
IsKeyed-insert (r ∷ t) new a k =
    let sym_key = keys_conflict_comm r.id new.id r.delivery_id new.delivery_id in
    (any_last r t new k.0 (ground (arith, sym_key)), IsKeyed-insert t new (ground arith) k.1)

new_row-RowIsSound :
    (id : String) (job : NewJob) (max_attempts now : ℕ)
    → 1 ≤ max_attempts
    → RowIsSound (new_row id job max_attempts now)
new_row-RowIsSound id job max_attempts now h = ground arith

pub record IsSound (t : Table) : Type 0 where
  pub rows : All RowIsSound t
  pub keyed : IsKeyed t

module _ {re : Bool} where
  pub Step-IsKeyed : {t u : Table} → Step re t u → IsKeyed t → IsKeyed u
  Step-IsKeyed (change cs) k = Changes-IsKeyed cs k
  Step-IsKeyed {t} (insert id job max_attempts now h a) k =
      IsKeyed-insert t (new_row id job max_attempts now) a k

  pub Steps-IsKeyed : {t u : Table} → Steps re t u → IsKeyed t → IsKeyed u
  Steps-IsKeyed here k = k
  Steps-IsKeyed (next ss st) k = Step-IsKeyed st (Steps-IsKeyed ss k)

  pub Step-IsSound : {t u : Table} → Step re t u → IsSound t → IsSound u
  Step-IsSound (change cs) v = record {
    rows = Changes-All cs v.rows;
    keyed = Changes-IsKeyed cs v.keyed;
  }
  Step-IsSound {t} (insert id job max_attempts now h a) v = record {
    rows = All-append RowIsSound t _ v.rows (new_row-RowIsSound id job max_attempts now h, tt);
    keyed = IsKeyed-insert t (new_row id job max_attempts now) a v.keyed;
  }

  pub Steps-IsSound : {t u : Table} → Steps re t u → IsSound t → IsSound u
  Steps-IsSound here v = v
  Steps-IsSound (next ss st) v = Step-IsSound st (Steps-IsSound ss v)

-- ===== src/Queue/Guards.antt =====
-- src/workflow/queue.js: rules for the guards of a method, and what a SELECT by the key says of the
-- UPDATE by it.
use etnpilot.Common.{
  ℕ, ◌≤◌, ◌≡◌, refl, Bool, true, false, ◌&&◌, [], ◌∷◌, String, Option, none, some, leb, any, All,
  arith, Bool-cases, inl, inr, JsNumber, whole, other, ◌>>=◌, require, str_eq→eq,
}
use etnpilot.Queue.Types.{is_running, Row, Table, QueueAction, QueueError, owned_by}
use etnpilot.Queue.Ops.{
  conflicts, keys_conflict, positive_integer, non_negative_integer, has_id, get_row,
}
use etnpilot.Queue.Owner.{owned, existing}
use etnpilot.Queue.Invariant.{IsKeyed}

-- The rules for the guards of a method: the table that it leaves satisfies `P` if that holds when
-- the guard throws, and of what follows when it passes.
module _ (P : Table → Type 0) (t : Table) (unchanged : P t) {A : Type 0} where
  pub require_rule :
      (b : Bool) (e : QueueError) (k : Unit {0} → QueueAction A)
      → (b ≡ true → P (k tt t).1)
      → P ((require b e >>= k) t).1
  require_rule true e k h = h refl
  require_rule false e k h = unchanged

  pub positive_rule :
      (x : JsNumber) (k : ℕ → QueueAction A)
      → ((n : ℕ) → 1 ≤ n → P (k n t).1)
      → P ((positive_integer x >>= k) t).1
  positive_rule other k h = unchanged
  positive_rule (whole n) k h = elim (Bool-cases (leb 1 n)) [
    | inl e ↦ rw e (h n (ground arith))
    | inr e ↦ rw e unchanged
  ]

  pub non_negative_rule :
      (x : JsNumber) (k : ℕ → QueueAction A)
      → ((n : ℕ) → P (k n t).1)
      → P ((non_negative_integer x >>= k) t).1
  non_negative_rule other k h = unchanged
  non_negative_rule (whole n) k h = h n

  pub owned_rule :
      (worker : String) (o : Option Row) (k : Row → QueueAction A)
      → ((job : Row) → o ≡ some job → is_running job.status ≡ true → P (k job t).1)
      → P ((owned worker o >>= k) t).1
  owned_rule worker none k h = unchanged
  owned_rule worker (some job) k h =
      elim (Bool-cases (is_running job.status && owned_by worker job.lease_owner)) [
        | inl e ↦ rw e (h job refl (ground arith))
        | inr e ↦ rw e unchanged
      ]

  pub existing_rule :
      (o : Option Row) (k : Row → QueueAction A)
      → ((job : Row) → o ≡ some job → P (k job t).1)
      → P ((existing o >>= k) t).1
  existing_rule none k h = unchanged
  existing_rule (some job) k h = h job refl

pub All-intro : (P : Row → Type 0) (t : Table) → ((r : Row) → P r) → All P t
All-intro P [] h = tt
All-intro P (r ∷ t) h = (h r, All-intro P t h)

pub All-map : {P Q : Row → Type 0} (t : Table) → ((r : Row) → P r → Q r) → All P t → All Q t
All-map [] h a = tt
All-map (r ∷ t) h a = (h r a.0, All-map t h a.1)

-- A key stands for one row: what the SELECT found is what the UPDATE changes.
abbrev pub OnlyRow : String → Row → Table → Type 0
OnlyRow id job t = All (λ r. has_id id r ≡ true → r ≡ job) t

pub has_id→eq : (id : String) (r : Row) → has_id id r ≡ true → r.id ≡ id
has_id→eq id r h = str_eq→eq r.id id h

-- A row with the key of an earlier one is no row of the table.
no_other :
    (id : String) (q job : Row) (t : Table)
    → q.id ≡ id
    → any (conflicts q) t ≡ false
    → OnlyRow id job t
unfolding keys_conflict
no_other id q job [] e a = tt
no_other id q job (r ∷ t) e a = (λ h. absurd (ground arith), no_other id q job t e (ground arith))

pub OnlyRow-select :
    (id : String) (t : Table) (job : Row) → IsKeyed t → get_row id t ≡ some job → OnlyRow id job t
OnlyRow-select id [] job k e = tt
OnlyRow-select id (r ∷ t) job k e = elim (Bool-cases (has_id id r)) [
  | inl h ↦ (λ _. ground arith, no_other id r job t (has_id→eq id r h) k.0)
  | inr h ↦ (λ h'. cc, OnlyRow-select id t job k.1 (ground arith))
]

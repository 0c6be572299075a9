-- ===== src/Queue/Selecting.antt =====
-- src/workflow/queue.js: the SELECT of `claim` finds the first job that is ready.
use etnpilot.Common.{
  ℕ, ◌≡◌, refl, inl, inr, true, false, ◌&&◌, [], ◌∷◌, Option, none, some, arith, Bool, not, ◌||◌,
  ltb, leb, ◌==◌, Bool-cases, All,
}
use etnpilot.Queue.Types.{Row, Table, is_waiting}
use etnpilot.Queue.Ops.{ready, earlier, first_of_two, next_ready}
use etnpilot.Queue.Lookup.{In}

-- A job that waits, and whose time has come.
abbrev pub is_due : ℕ → Row → Bool
is_due now r = is_waiting r.status && leb r.available_at now

-- `r` became available before `s`, or at the same time and was created no later.
abbrev pub leads : Row → Row → Bool
leads r s =
    ltb r.available_at s.available_at
    || r.available_at == s.available_at && leb r.created_at s.created_at

-- Every row that is due is led by `r`.
abbrev pub IsFirst : ℕ → Row → Table → Type 0
IsFirst now r t = All (λ s. (not (is_due now s) || leads r s) ≡ true) t

abbrev pub NoneReady : ℕ → Table → Type 0
NoneReady now t = All (λ s. is_due now s ≡ false) t

IsFirst-trans :
    (now : ℕ) (q r : Row) (t : Table) → earlier r q ≡ false → IsFirst now r t → IsFirst now q t
IsFirst-trans now q r [] h f = tt
IsFirst-trans now q r (s ∷ t) h f = (ground arith, IsFirst-trans now q r t h f.1)

IsFirst-none : (now : ℕ) (q : Row) (t : Table) → NoneReady now t → IsFirst now q t
IsFirst-none now q [] h = tt
IsFirst-none now q (s ∷ t) h = (ground arith, IsFirst-none now q t h.1)

-- The SELECT of `claim`, against its clauses WHERE and ORDER BY.
abbrev pub Selected : ℕ → Table → Option Row → Type 0
Selected now t none = NoneReady now t
Selected now t (some r) = (is_due now r ≡ true) × In r t × IsFirst now r t

choose :
    (now : ℕ) (r : Row) (t : Table) (o : Option Row)
    → ready now r ≡ true
    → Selected now t o
    → Selected now (r ∷ t) (first_of_two r o)
choose now r t none h s = (h, inl refl, (ground arith, IsFirst-none now r t s))
choose now r t (some q) h s = elim (Bool-cases (earlier q r)) [
  | inl e ↦ rw e (s.0, inr s.1, (ground arith, s.2))
  | inr e ↦ rw e (h, inl refl, (ground arith, IsFirst-trans now r q t e s.2))
]

skip :
    (now : ℕ) (r : Row) (t : Table) (o : Option Row)
    → ready now r ≡ false
    → Selected now t o
    → Selected now (r ∷ t) o
skip now r t none h s = (h, s)
skip now r t (some q) h s = (s.0, inr s.1, (ground arith, s.2))

pub next_ready-Selected : (now : ℕ) (t : Table) → Selected now t (next_ready now t)
unfolding next_ready
next_ready-Selected now [] = tt
next_ready-Selected now (r ∷ t) = elim (Bool-cases (ready now r)) [
  | inl h ↦ rw h (choose now r t (next_ready now t) h (next_ready-Selected now t))
  | inr h ↦ rw h (skip now r t (next_ready now t) h (next_ready-Selected now t))
]

-- ===== src/Common/Actions.antt =====
-- Methods that read and write a store and may throw: the store outlives an exception.
use mathlib.Core.Path.{◌≡◌}
use native.Mathlib.Omega.{arith}
use mathlib.Core.Bool.{Bool, true, false}

pub data Result (E A : Type 0) : Type 0 where
  ok : A → Result E A
  err : E → Result E A

abbrev pub Action : Type 0 → Type 0 → Type 0 → Type 0
Action S E A = S → Result E A × S

module _ {S E : Type 0} where
  abbrev pub read : Action S E S
  read s = (ok s, s)

  abbrev pub write : S → Action S E (Unit {0})
  write s' s = (ok tt, s')

pub ok-injective : {E A : Type 0} {a b : A} → ◌≡◌ {A = Result E A} (ok a) (ok b) → a ≡ b
ok-injective h = cc

module _ {S E A : Type 0} where
  abbrev pub pure : A → Action S E A
  pure a s = (ok a, s)

  abbrev pub throw : E → Action S E A
  throw e s = (err e, s)

  -- BEGIN IMMEDIATE, then COMMIT, or ROLLBACK when the operation throws.
  abbrev pub transaction : Action S E A → Action S E A
  transaction m s = let (r, s') = m s in elim r [ ok a ↦ (ok a, s') | err e ↦ (err e, s) ]

  pub transaction_commits :
      (m : Action S E A) (s : S) {a : A} → (m s).0 ≡ ok a → transaction m s ≡ m s
  transaction_commits m s h = ground arith

module _ {S E A B : Type 0} where
  abbrev pub and_then : Result E A → (A → Action S E B) → Action S E B
  and_then (ok a) f = f a
  and_then (err e) f = throw e

  infixl 5 ◌>>=◌ ◌>>◌
  abbrev pub ◌>>=◌ : Action S E A → (A → Action S E B) → Action S E B
  m >>= f = λ s. let (r, s') = m s in and_then r f s'

  abbrev pub ◌>>◌ : Action S E A → Action S E B → Action S E B
  m >> n = m >>= λ _. n

module _ {S E : Type 0} where
  abbrev pub require : Bool → E → Action S E (Unit {0})
  require true e = pure tt
  require false e = throw e

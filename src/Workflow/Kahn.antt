-- ===== src/Workflow/Kahn.antt =====
-- src/workflow/engine.js: what `assertAcyclic` knows at each turn of its loop.
use mathlib.Core.List.{Memᴰ}
use mathlib.Core.List.Memᴰ.{head, tail}
use etnpilot.Common.{
  ◌+◌, ◌-◌, ◌≡◌, refl, sym, ap, ◌∙◌, subst, Bool, true, false, ◌||◌, List, [], ◌∷◌, String, str_eq,
  if◌then◌else◌, any, includes, count, length, ◌==◌, All, Keyed, by_key, arith, Bool-cases, inl,
  inr, eq_iff, eq_refl,
}
use etnpilot.Workflow.Steps.{Step}
use etnpilot.Workflow.Graph.{Degree, awaits, lower_one, lower, picked}
use etnpilot.Workflow.Counting.{Distinct}

abbrev pub steps_of : List Degree → List Step
steps_of [] = []
steps_of (d ∷ ds) = d.step ∷ steps_of ds

-- The entry of a step, when `past` are the steps visited and `queue` those to visit: it counts the needs
-- that are not visited, and is 0 when the step was put into the queue.
pub record IsCount (past queue : List String) (d : Degree) : Type 0 where
  pub counts : d.left + count (includes d.step.needs) past ≡ length d.step.needs
  pub seen : (includes past d.step.id || includes queue d.step.id) ≡ (d.left == 0)

-- Each step that is visited comes after all it needs.
abbrev pub Topological : List Step → List String → Type 0
Topological steps [] = Unit
Topological steps (x ∷ xs) =
    ((s : Step) → Memᴰ s steps → s.id ≡ x → All (λ n. includes xs n ≡ true) s.needs)
    × Topological steps xs

abbrev pub KeyedDegrees : List Degree → Type 0
KeyedDegrees ds = Keyed (λ d. d.step.id) ds

pub lower_one-step : (id : String) (d : Degree) → (lower_one id d).step ≡ d.step
lower_one-step id d = go (awaits id d)
  where
    go :
        (b : Bool) → (if◌then◌else◌ {A = Degree} b (record d { left = d.left - 1 }) d).step ≡ d.step
    go true = refl
    go false = refl

pub lower-steps : (id : String) (ds : List Degree) → steps_of (lower id ds) ≡ steps_of ds
lower-steps id [] = refl
lower-steps id (d ∷ ds) =
    ap (λ s. s ∷ steps_of (lower id ds)) (lower_one-step id d)
    ∙ ap (λ t. d.step ∷ t) (lower-steps id ds)

any-lower :
    (id k : String) (ds : List Degree)
    → any (by_key (λ d. d.step.id) k) (lower id ds) ≡ any (by_key (λ d. d.step.id) k) ds
any-lower id k [] = refl
any-lower id k (d ∷ ds) =
    ap (λ s. str_eq s.id k || any (by_key (λ d. d.step.id) k) (lower id ds)) (lower_one-step id d)
    ∙ ap (λ b. str_eq d.step.id k || b) (any-lower id k ds)

pub lower-Keyed : (id : String) (ds : List Degree) → KeyedDegrees ds → KeyedDegrees (lower id ds)
lower-Keyed id [] h = tt
lower-Keyed id (d ∷ ds) h = (
  ap (λ s. any (by_key (λ d. d.step.id) s.id) (lower id ds)) (lower_one-step id d)
      ∙ any-lower id d.step.id ds
      ∙ h.0,
  lower-Keyed id ds h.1,
)

pub member-lower :
    (id : String) (ds : List Degree) (e : Degree)
    → Memᴰ e (lower id ds)
    → (d : Degree) × Memᴰ d ds × (e ≡ lower_one id d)
member-lower id [] e m = elim m [ ]
member-lower id (d ∷ ds) e (head h) = (d, head refl, h)
member-lower id (d ∷ ds) e (tail m) = let (c, n, h) = member-lower id ds e m in (c, tail n, h)

pub lower-member :
    (id : String) (ds : List Degree) (d : Degree) → Memᴰ d ds → Memᴰ (lower_one id d) (lower id ds)
lower-member id [] d m = elim m [ ]
lower-member id (c ∷ ds) d (head h) = head (ap (lower_one id) h)
lower-member id (c ∷ ds) d (tail m) = tail (lower-member id ds d m)

module _ (test : Degree → Bool) where
  pub picked-absent :
      (k : String) (ds : List Degree)
      → any (by_key (λ d. d.step.id) k) ds ≡ false
      → includes (picked test ds) k ≡ false
  picked-absent k [] h = refl
  picked-absent k (d ∷ ds) h = ground (arith, picked-absent k ds)

  member-absent :
      (c d : Degree) (ds : List Degree)
      → any (by_key (λ d. d.step.id) c.step.id) ds ≡ false
      → Memᴰ d ds
      → str_eq c.step.id d.step.id ≡ false
  member-absent c d [] h m = elim m [ ]
  member-absent c d (x ∷ ds) h (head e) =
      ap (λ y. str_eq c.step.id y.step.id) e
      ∙ ground (arith, eq_iff c.step.id x.step.id, eq_iff x.step.id c.step.id)
  member-absent c d (x ∷ ds) h (tail m) = member-absent c d ds (ground arith) m

  pub includes-picked :
      (ds : List Degree) (d : Degree)
      → KeyedDegrees ds
      → Memᴰ d ds
      → includes (picked test ds) d.step.id ≡ test d
  includes-picked [] d keyed m = elim m [ ]
  includes-picked (c ∷ ds) d keyed (head e) =
      subst (λ x. includes (picked test (c ∷ ds)) x.step.id ≡ test x) (sym e)
        (ground (arith, picked-absent c.step.id ds, eq_refl c.step.id, keyed.0))
  includes-picked (c ∷ ds) d keyed (tail m) =
      ground (arith, includes-picked ds d keyed.1 m, member-absent c d ds keyed.0 m)

  pub picked-Distinct : (ds : List Degree) → KeyedDegrees ds → Distinct (picked test ds)
  picked-Distinct [] h = tt
  picked-Distinct (d ∷ ds) h = elim (Bool-cases (test d)) [
    | inl e ↦ rw e (picked-absent d.step.id ds h.0, picked-Distinct ds h.1)
    | inr e ↦ rw e (picked-Distinct ds h.1)
  ]

  -- Where an id that is picked comes from.
  abbrev pub From : List Degree → String → Type 0
  From ds x = (d : Degree) × Memᴰ d ds × (d.step.id ≡ x) × (test d ≡ true)

  pub picked-From :
      (ds xs : List Degree)
      → ((d : Degree) → Memᴰ d xs → Memᴰ d ds)
      → All (From ds) (picked test xs)
  picked-From ds [] sub = tt
  picked-From ds (x ∷ xs) sub = go (test x) refl (picked-From ds xs (λ d m. sub d (tail m)))
    where
      go :
          (b : Bool)
          → test x ≡ b
          → All (From ds) (picked test xs)
          → All (From ds) (if b then x.step.id ∷ picked test xs else picked test xs)
      go true e rest = ((x, sub x (head refl), refl, e), rest)
      go false e rest = rest

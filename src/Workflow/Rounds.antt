-- ===== src/Workflow/Rounds.antt =====
-- src/workflow/engine.js: the parts of `run` between two awaits keep what holds of it.
use mathlib.Core.List.{Memᴰ}
use mathlib.Core.List.Memᴰ.{head, tail}
use etnpilot.Common.{
  ◌≡◌, refl, Bool, true, false, not, Option, none, List, [], ◌∷◌, String, if◌then◌else◌, any, all,
  keep, All, Keyed, by_key, arith, Bool-cases, inl, inr, eq_iff, some, map, Json, ap,
}
use etnpilot.Workflow.Steps.{
  Step, Status, pending, running, succeeded, failed, blocked, States, set, is_pending, is_succeeded,
  needs_met, is_ready, ready_steps, result_of, dependency_results,
}
use etnpilot.Workflow.Engine.{
  looping, waiting, stalled, Engine, Config, is_given, is_empty, end_round,
}
use etnpilot.Workflow.Changes.{succeeded_with, Startable, Startable-set, Keyed-alone}
use etnpilot.Workflow.Invariant.{Fed, Core, Tracked, Sound}

pub pending_not-succeeded : (v : Status) → is_pending v ≡ true → is_succeeded v ≡ false
pending_not-succeeded pending h = refl
pending_not-succeeded running h = refl
pending_not-succeeded (succeeded r) h = absurd (cc)
pending_not-succeeded (failed e) h = refl
pending_not-succeeded (blocked r) h = refl

dependency_results-names :
    (f : States) (ns : List String) → map (λ i. i.0) (dependency_results f ns) ≡ ns
dependency_results-names f [] = refl
dependency_results-names f (n ∷ ns) = ap (λ xs. n ∷ xs) (dependency_results-names f ns)

dependency_results-values :
    (f : States) (ns : List String)
    → all (λ n. is_succeeded (f n)) ns ≡ true
    → All (λ i. (r : Json) × (i.1 ≡ some r) × (f i.0 ≡ succeeded r)) (dependency_results f ns)
dependency_results-values f [] h = tt
dependency_results-values f (n ∷ ns) h =
    let (r, e) = succeeded_with (f n) (ground arith) in
    ((r, ap result_of e, e), dependency_results-values f ns (ground arith))

-- What a step is called with when its needs are met.
pub dependency_results-Fed :
    (steps : List Step) (f : States) (s : Step)
    → Memᴰ s steps
    → needs_met f s ≡ true
    → Fed steps f (record { step = s.id; inputs = dependency_results f s.needs })
dependency_results-Fed steps f s m met =
    (s, m, refl, dependency_results-names f s.needs, dependency_results-values f s.needs met)

pub given_not-none : (o : Option String) → is_given o ≡ true → o ≡ none → ⊥
given_not-none o h e = cc

pub keep-Startable :
    (steps : List Step) (f : States) (xs : List Step)
    → ((s : Step) → Memᴰ s xs → Memᴰ s steps)
    → Keyed (λ s. s.id) steps
    → All (Startable steps f) (ready_steps f xs)
keep-Startable steps f [] sub keyed = tt
keep-Startable steps f (x ∷ xs) sub keyed =
    by_test (is_ready f x) refl (keep-Startable steps f xs (λ s m. sub s (tail m)) keyed)
  where
    by_test :
        (b : Bool)
        → is_ready f x ≡ b
        → All (Startable steps f) (ready_steps f xs)
        → All (Startable steps f) (if b then x ∷ ready_steps f xs else ready_steps f xs)
    by_test true e rest = (
      record {
        waits = ground arith;
        met = ground arith;
        member = sub x (head refl);
        alone = λ t m same. Keyed-alone steps x t keyed (sub x (head refl)) m same;
      },
      rest,
    )
    by_test false e rest = rest

any-keep-false : (p q : Step → Bool) (xs : List Step) → any p xs ≡ false → any p (keep q xs) ≡ false
any-keep-false p q [] h = h
any-keep-false p q (x ∷ xs) h = ground (arith, any-keep-false p q xs)

pub keep-Keyed :
    (q : Step → Bool) (xs : List Step) → Keyed (λ s. s.id) xs → Keyed (λ s. s.id) (keep q xs)
keep-Keyed q [] keyed = tt
keep-Keyed q (x ∷ xs) keyed = elim (Bool-cases (q x)) [
  | inl e ↦ rw e (any-keep-false (by_key (λ s. s.id) x.id) q xs keyed.0, keep-Keyed q xs keyed.1)
  | inr e ↦ rw e (keep-Keyed q xs keyed.1)
]

module _ (config : Config) (steps : List Step) where
  -- The facts of an engine, whatever its phase.
  abbrev pub Base : Engine → Type 0
  Base e =
      Core config steps e.states e.active e.fatal e.calls
      × Tracked config steps looping e.states e.active

  pub Queued-set :
      (k : String) (v : Status) (f : States) (rest : List Step)
      → is_succeeded (f k) ≡ false
      → is_pending v ≡ false
      → any (by_key (λ s. s.id) k) rest ≡ false
      → All (Startable steps f) rest
      → All (Startable steps (set k v f)) rest
  Queued-set k v f [] u m n q = tt
  Queued-set k v f (s ∷ rest) u m n q = (
    Startable-set steps k v f s u m (ground (arith, eq_iff s.id k, eq_iff k s.id)) q.0,
    Queued-set k v f rest u m (ground arith) q.1,
  )

  pub end_round-Sound : (e : Engine) → Base e → Sound config steps (end_round config steps e)
  end_round-Sound e (core, tracked) =
      go (is_empty e.active) refl (any (λ s. is_pending (e.states s.id)) steps)
    where
      go :
          (b : Bool)
          → is_empty e.active ≡ b
          → (c : Bool)
          → Sound config steps (
              if not b
              then record e { phase = waiting }
              else if c
              then record e { phase = stalled }
              else record e { phase = looping })
      go false q c = record { core = core; tracked = tracked; in_phase = q }
      go true q true = record { core = core; tracked = tracked; in_phase = tt }
      go true q false = record { core = core; tracked = tracked; in_phase = tt }

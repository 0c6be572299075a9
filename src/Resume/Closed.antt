-- ===== src/Resume/Closed.antt =====
-- src/runtime/resume-plan.js: a step is carried over only with all it needs.
use mathlib.Core.List.{Memᴰ}
use mathlib.Core.List.Memᴰ.{head, tail}
use etnpilot.Common.{
  ◌≡◌, refl, sym, ap, ◌∙◌, subst, Bool, true, false, ◌&&◌, ◌||◌, Option, none, some, List, [], ◌∷◌,
  String, str_eq, any, all, includes, All, All-map, is_some, arith, Fields,
}
use etnpilot.Resume.Steps.{
  PlanStep, StepAction, reuse, rerun, Planned, find_last, keep_later, is_evidence, is_agent_entry,
  is_agent_step, action_of, is_reuse, carried_with, plan_one, plan_from, plan_steps,
}

-- A test that some entry passes.
abbrev pub Has : List Fields → (Fields → Bool) → Type 0
Has entries test = any test entries ≡ true

find_last-Has :
    (test : Fields → Bool) (entries : List Fields)
    → is_some (find_last test entries) ≡ true
    → Has entries test
find_last-Has test [] h = absurd (cc)
find_last-Has test (e ∷ es) h = go (find_last test es) refl (test e) refl h (find_last-Has test es)
  where
    go :
        (o : Option Fields)
        → find_last test es ≡ o
        → (b : Bool) → test e ≡ b
        → is_some (keep_later o b e) ≡ true
        → (is_some (find_last test es) ≡ true → Has es test)
        → Has (e ∷ es) test
    go (some x) f b t s ih = ground (arith, ih (ap is_some f))
    go none f true t s ih = ground (arith, t)
    go none f false t s ih = absurd (cc)

-- The step stands in the list as one that is reused.
abbrev pub is_reused : String → Planned → Bool
is_reused id p = str_eq p.step.id id && is_reuse p.action

-- What a step that is reused rests on, with the steps of `planned` and the ids in `carried`.
pub record IsBacked (entries : List Fields) (carried : List String) (planned : List Planned)
    (s : PlanStep) : Type 0 where
  pub agent : is_agent_step s ≡ true
  pub evidence : Has entries (is_evidence s.id)
  pub result : Has entries (is_agent_entry s.id)
  pub needs : All (λ n. (includes carried n || any (is_reused n) planned) ≡ true) s.needs

all-All : (p : String → Bool) (ns : List String) → all p ns ≡ true → All (λ n. p n ≡ true) ns
all-All p [] h = tt
all-All p (n ∷ ns) h = (ground arith, all-All p ns (ground arith))

module _ (entries : List Fields) where
  action_of-reuse :
      (s : PlanStep) (met : Bool) (e a : Option Fields)
      → is_reuse (action_of s met e a) ≡ true
      → (is_some e ≡ true) × (is_some a ≡ true) × (met ≡ true) × (is_agent_step s ≡ true)
  action_of-reuse s met none a h = absurd (cc)
  action_of-reuse s met (some x) none h = absurd (ground arith)
  action_of-reuse s met (some x) (some y) h = (refl, refl, ground arith, ground arith)

  first-IsBacked :
      (carried : List String) (planned : List Planned) (s : PlanStep)
      → is_reuse (plan_one entries carried s) ≡ true
      → IsBacked entries carried planned s
  first-IsBacked carried planned s h =
      let (e, a, met, agent) =
        action_of-reuse s (all (includes carried) s.needs) (find_last (is_evidence s.id) entries)
          (find_last (is_agent_entry s.id) entries) h in
      record {
        agent = agent;
        evidence = find_last-Has (is_evidence s.id) entries e;
        result = find_last-Has (is_agent_entry s.id) entries a;
        needs =
            All-map (λ n. includes carried n ≡ true)
              (λ n. (includes carried n || any (is_reused n) planned) ≡ true) s.needs
              (λ n m. ground (arith, m)) (all-All (includes carried) s.needs met);
      }

  -- What is carried after a step was carried before it, or is the step.
  carried_with-member :
      (a : StepAction) (s : PlanStep) (carried : List String) (n : String)
      → includes (carried_with a s.id carried) n
        ≡ (includes carried n || is_reused n (record { step = s; action = a }))
  carried_with-member (reuse c) s carried n = ground arith
  carried_with-member (rerun r) s carried n = ground arith

  plan_from-IsBacked :
      (carried : List String) (plan : List PlanStep) (p : Planned)
      → Memᴰ p (plan_from entries carried plan)
      → is_reuse p.action ≡ true
      → IsBacked entries carried (plan_from entries carried plan) p.step
  unfolding plan_from
  plan_from-IsBacked carried [] p m h = elim m [ ]
  plan_from-IsBacked carried (s ∷ ss) p (head e) h =
      subst (λ x. IsBacked entries carried (plan_from entries carried (s ∷ ss)) x)
        (ap (λ q. q.step) (sym e))
        (first-IsBacked carried (plan_from entries carried (s ∷ ss)) s
          (ap (λ q. is_reuse q.action) (sym e) ∙ h))
  plan_from-IsBacked carried (s ∷ ss) p (tail m) h =
      let a = plan_one entries carried s in
      let later = plan_from-IsBacked (carried_with a s.id carried) ss p m h in
      let rest = plan_from entries (carried_with a s.id carried) ss in
      record {
        agent = later.agent;
        evidence = later.evidence;
        result = later.result;
        needs =
            All-map
              (λ n. (includes (carried_with a s.id carried) n || any (is_reused n) rest) ≡ true)
              (λ n.
                (includes carried n || any (is_reused n) (record { step = s; action = a } ∷ rest))
                ≡ true)
              p.step.needs (λ n k. ground (arith, k, carried_with-member a s carried n))
              later.needs;
      }

  -- A step is carried over only if it is an agent step, an entry says that it finished, another has its
  -- result, and every step it needs is carried over too.
  pub plan_steps-IsBacked :
      (plan : List PlanStep) (p : Planned)
      → Memᴰ p (plan_steps entries plan)
      → is_reuse p.action ≡ true
      → IsBacked entries [] (plan_steps entries plan) p.step
  unfolding plan_steps
  plan_steps-IsBacked plan p m h = plan_from-IsBacked [] plan p m h

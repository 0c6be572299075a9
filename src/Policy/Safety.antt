-- ===== src/Policy/Safety.antt =====
-- src/core/approval-policy.js: when a request is approved without asking anybody, and what never is.
use etnpilot.Common.{
  ◌≡◌, refl, ap, ◌∙◌, Bool, true, false, not, ◌&&◌, ◌||◌, Option, none, some, List, [], ◌∷◌, any,
  arith,
}
use etnpilot.Policy.Rules.{Effect, deny, is_deny, Rule, Section, Platform, rule_matches}
use etnpilot.Policy.Engine.{
  Request, Context, Engine, Verdict, approve_once, human_required, reject, PolicyAnswer,
  evaluate_operation, verdict_of, request_path, first_given, operation_facts,
}
use etnpilot.Policy.Approval.{ApprovalPolicy, has_kind, answer, evaluate, policy_answer}
use etnpilot.Policy.Choice.{chosen_effect, select_decision-effect}

abbrev pub is_approved : Verdict → Bool
is_approved approve_once = true
is_approved _ = false

abbrev pub is_rejected : Verdict → Bool
is_rejected reject = true
is_rejected _ = false

-- The section on operations, if the project has a policy with one.
abbrev pub operations_of : Option Engine → Option Section
operations_of none = none
operations_of (some engine) = engine.operations

abbrev pub folds_case : Option Engine → Bool
folds_case none = false
folds_case (some engine) = engine.case_insensitive_paths

-- Which rules of the section match a request.
abbrev pub matching : Platform → Option Engine → Section → Request → Context → Rule → Bool
matching platform engine section r context =
    let (path, outside) =
      request_path platform (first_given r.file_name r.path) context.workspace in
    rule_matches platform outside (folds_case engine) section.matchers
      (operation_facts platform r context path)

-- What the section wants for a request.
abbrev pub wanted : Platform → Option Engine → Section → Request → Context → Effect
wanted platform engine section r context =
    chosen_effect section.default (matching platform engine section r context) section.rules

-- The verdict of the policy, if it has one.
abbrev pub policy_verdict :
    Platform → Option Engine → Option Section → Request → Context → Option Verdict
policy_verdict platform engine none r context = none
policy_verdict platform engine (some section) r context =
    some (verdict_of (wanted platform engine section r context))

abbrev pub verdict_in : Option PolicyAnswer → Option Verdict
verdict_in none = none
verdict_in (some a) = some a.verdict

policy_answer-verdict :
    (platform : Platform) (engine : Option Engine) (r : Request) (context : Context)
    → verdict_in (policy_answer platform engine r context)
      ≡ policy_verdict platform engine (operations_of engine) r context
unfolding policy_answer evaluate_operation
policy_answer-verdict platform none r context = refl
policy_answer-verdict platform (some engine) r context = go engine.operations refl
  where
    go :
        (s : Option Section)
        → engine.operations ≡ s
        → verdict_in (evaluate_operation platform engine r context)
          ≡ policy_verdict platform (some engine) engine.operations r context
    go none e = rw e refl
    go (some section) e = rw e (
        ap (λ x. some (verdict_of x))
          (select_decision-effect platform _ engine.case_insensitive_paths section _))

-- Who approves, short of a human: the policy, or the list of kinds if there is no policy.
abbrev pub approved_by : ApprovalPolicy → Request → Option Verdict → Bool
approved_by p r none = has_kind p.allow r.kind
approved_by p r (some v) = is_approved v

-- Who rejects: the policy, or the lists of kinds if there is no policy.
abbrev pub rejected_by : ApprovalPolicy → Request → Option Verdict → Bool
rejected_by p r none =
    not
      (r.managed_approval_required || (has_kind p.allow r.kind || has_kind p.require_human r.kind))
rejected_by p r (some v) = is_rejected v

-- A dry run that does not carry out the kind of the request.
abbrev pub is_held_back : ApprovalPolicy → Request → Bool
is_held_back p r = p.dry_run && not (has_kind p.allow r.kind)

answer-approved :
    (p : ApprovalPolicy) (r : Request) (d : Option PolicyAnswer)
    → is_approved (answer p r d).verdict ≡ (
        not (is_held_back p r)
        && (not r.managed_approval_required && approved_by p r (verdict_in d)))
answer-approved p r none = ground arith
answer-approved p r (some a) = go a.verdict a refl
  where
    go :
        (v : Verdict) (a : PolicyAnswer)
        → a.verdict ≡ v
        → is_approved (answer p r (some a)).verdict
          ≡ (not (is_held_back p r) && (not r.managed_approval_required && is_approved a.verdict))
    go approve_once a e = rw e ground arith
    go human_required a e = rw e ground arith
    go reject a e = rw e ground arith

answer-rejected :
    (p : ApprovalPolicy) (r : Request) (d : Option PolicyAnswer)
    → is_rejected (answer p r d).verdict ≡ (is_held_back p r || rejected_by p r (verdict_in d))
answer-rejected p r none = ground arith
answer-rejected p r (some a) = go a.verdict a refl
  where
    go :
        (v : Verdict) (a : PolicyAnswer)
        → a.verdict ≡ v
        → is_rejected (answer p r (some a)).verdict ≡ (is_held_back p r || is_rejected a.verdict)
    go approve_once a e = rw e ground arith
    go human_required a e = rw e ground arith
    go reject a e = rw e ground arith

module _ (platform : Platform) (p : ApprovalPolicy) (r : Request) (context : Context) where
  abbrev pub verdict_wanted : Option Verdict
  verdict_wanted = policy_verdict platform p.policy (operations_of p.policy) r context

  -- A request is approved without a human exactly if no dry run holds its kind back, its caller does
  -- not require a managed approval, and the effect that the policy specifies for it is allowance, or,
  -- with no policy on operations, its kind is in the list of allowed kinds.
  pub evaluate-approved : is_approved (evaluate platform p r context).verdict ≡ (
      not (is_held_back p r) && (not r.managed_approval_required && approved_by p r verdict_wanted))
  unfolding evaluate
  evaluate-approved =
      answer-approved p r (policy_answer platform p.policy r context)
      ∙ rw (policy_answer-verdict platform p.policy r context) refl

  -- A request is rejected exactly if a dry run holds its kind back, or the effect that the policy
  -- specifies for it is denial, or, with no policy on operations, its caller does not require a
  -- managed approval and its kind is in neither list.
  pub evaluate-rejected :
      is_rejected (evaluate platform p r context).verdict
      ≡ (is_held_back p r || rejected_by p r verdict_wanted)
  unfolding evaluate
  evaluate-rejected =
      answer-rejected p r (policy_answer platform p.policy r context)
      ∙ rw (policy_answer-verdict platform p.policy r context) refl

any_and_left :
    (p q : Rule → Bool) (rules : List Rule)
    → any (λ r. p r && q r) rules ≡ true
    → any p rules ≡ true
any_and_left p q [] h = h
any_and_left p q (r ∷ rs) h = ground (arith, any_and_left p q rs)

chosen_effect-deny :
    (default : Effect) (matches : Rule → Bool) (rules : List Rule)
    → any (λ x. matches x && is_deny x.effect) rules ≡ true
    → chosen_effect default matches rules ≡ deny
chosen_effect-deny default matches rules h =
    rw (any_and_left matches (λ x. is_deny x.effect) rules h, h) refl

is_rejected-reject : (v : Verdict) → is_rejected v ≡ true → v ≡ reject
is_rejected-reject approve_once h = absurd (cc)
is_rejected-reject human_required h = absurd (cc)
is_rejected-reject reject h = refl

-- A rule that matches and denies is final: whatever else the policy, the lists of kinds, a managed
-- approval or a dry run say, the request is rejected.
pub deny_stands :
    (platform : Platform) (p : ApprovalPolicy) (engine : Engine) (section : Section) (r : Request)
    (context : Context)
    → p.policy ≡ some engine
    → engine.operations ≡ some section
    → any (λ x. matching platform p.policy section r context x && is_deny x.effect) section.rules
      ≡ true
    → (evaluate platform p r context).verdict ≡ reject
deny_stands platform p engine section r context e f h =
    is_rejected-reject _ (evaluate-rejected platform p r context ∙ rejected)
  where
    denied : policy_verdict platform p.policy (operations_of p.policy) r context ≡ some reject
    denied =
        ap (λ o. policy_verdict platform p.policy o r context) (ap operations_of e ∙ f)
        ∙ ap (λ x. some (verdict_of x))
            (chosen_effect-deny section.default (matching platform p.policy section r context)
              section.rules h)

    rejected :
        (is_held_back p r
          || rejected_by p r (policy_verdict platform p.policy (operations_of p.policy) r context))
        ≡ true
    rejected = rw denied ground arith

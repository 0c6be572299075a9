-- ===== src/Policy/Approval.antt =====
-- src/core/approval-policy.js: the answer to a request, from the policy and the lists of kinds.
use etnpilot.Common.{
  Bool, true, false, not, ◌&&◌, Option, none, some, List, String, if◌then◌else◌, includes,
}
use etnpilot.Policy.Rules.{Platform}
use etnpilot.Policy.Engine.{
  Request, Context, Engine, Verdict, approve_once, human_required, reject, PolicyAnswer,
  evaluate_operation,
}

pub record ApprovalPolicy : Type 0 where
  pub allow : List String
  pub require_human : List String
  pub policy : Option Engine
  pub dry_run : Bool

-- The answer: its kind, whether a dry run is the reason, and what would have been decided then.
pub record Answer : Type 0 where
  pub verdict : Verdict
  pub dry_run : Bool
  pub would_be : Option Verdict

abbrev pub plain : Verdict → Answer
plain v = record { verdict = v; dry_run = false; would_be = none }

-- `set.has(request?.kind)`: no kind is in no list.
abbrev pub has_kind : List String → Option String → Bool
has_kind kinds none = false
has_kind kinds (some k) = includes kinds k

-- `this.policy?.evaluateOperation(request, context)`.
unfoldable pub policy_answer : Platform → Option Engine → Request → Context → Option PolicyAnswer
policy_answer platform none r context = none
policy_answer platform (some engine) r context = evaluate_operation platform engine r context

-- The answer when no policy has one.
abbrev pub listed : ApprovalPolicy → Request → Verdict
listed p r =
    if has_kind p.allow r.kind
    then approve_once
    else if has_kind p.require_human r.kind
    then human_required
    else reject

-- `policyDecision?.kind ?? (requireHuman.has(kind) ? "human-required" : "reject")`.
abbrev pub would_be_of : ApprovalPolicy → Request → Option PolicyAnswer → Verdict
would_be_of p r none = if has_kind p.require_human r.kind then human_required else reject
would_be_of p r (some a) = a.verdict

-- The chain of tests behind that of a dry run.
abbrev pub wet_answer : ApprovalPolicy → Request → Option PolicyAnswer → Verdict
wet_answer p r none = if r.managed_approval_required then human_required else listed p r
wet_answer p r (some a) = elim a.verdict [
  | reject ↦ reject
  | v ↦ if r.managed_approval_required then human_required else v
]

abbrev pub answer : ApprovalPolicy → Request → Option PolicyAnswer → Answer
answer p r decision =
    if p.dry_run && not (has_kind p.allow r.kind)
    then record { verdict = reject; dry_run = true; would_be = some (would_be_of p r decision) }
    else plain (wet_answer p r decision)

unfoldable pub evaluate : Platform → ApprovalPolicy → Request → Context → Answer
evaluate platform p r context = answer p r (policy_answer platform p.policy r context)

-- ===== src/Policy/Examples.antt =====
-- A policy with three rules, requests under it, and the theorems at them.
use mathlib.Core.List.{Permᴰ}
use etnpilot.Common.{
  ℕ, ◌≡◌, refl, Bool, true, false, ◌&&◌, ◌||◌, none, some, List, [], ◌∷◌, if◌then◌else◌, ◌==◌,
  str_eq,
}
use etnpilot.Policy.Rules.{
  allow, human, deny, Matcher, kinds, agents, paths, hosts, commands, Rule, Section, Platform,
  select_decision, decide, strictest, prefer_named, patterns_pass, glob_match, command_match,
  glob_source, command_source, codes, anchored, is_special,
}
use etnpilot.Policy.Engine.{
  Request, Context, Engine, approve_once, reject, operation_facts, evaluate_operation,
}
use etnpilot.Policy.Approval.{ApprovalPolicy, evaluate, policy_answer}
use etnpilot.Policy.Choice.{select_decision-effect}
use etnpilot.Policy.Order.{select_decision_order, select_decision_outside}
use etnpilot.Policy.Safety.{
  is_approved, is_rejected, evaluate-approved, evaluate-rejected, deny_stands,
}

abbrev same_codes : List ℕ → List ℕ → Bool
same_codes [] [] = true
same_codes (x ∷ xs) [] = false
same_codes [] (y ∷ ys) = false
same_codes (x ∷ xs) (y ∷ ys) = x == y && same_codes xs ys

-- A platform that knows the expressions without a wildcard, and that of anything.
abbrev platform : Platform
platform = record {
  test = λ source ignore_case text.
      same_codes source (codes "^.*$") || same_codes source (anchored (codes text));
  lower_case = λ s. s;
  host_of = λ s. some s;
  locate = λ path workspace. if str_eq path "/etc/passwd" then (none, true) else (some path, false);
}

abbrev shell_rule : Rule
shell_rule = record {
  id = "shell";
  effect = human;
  patterns = λ m. elim m [ kinds ↦ some ("shell" ∷ []) | _ ↦ none ];
}

abbrev test_rule : Rule
test_rule = record {
  id = "tests";
  effect = allow;
  patterns =
      λ m. elim m [ kinds ↦ some ("shell" ∷ []) | commands ↦ some ("npm test" ∷ []) | _ ↦ none ];
}

abbrev secret_rule : Rule
secret_rule = record {
  id = "secrets";
  effect = deny;
  patterns = λ m. elim m [ paths ↦ some ("secret" ∷ []) | _ ↦ none ];
}

abbrev all_matchers : List Matcher
all_matchers = kinds ∷ agents ∷ paths ∷ hosts ∷ commands ∷ []

abbrev section : Section
section = record {
  default = deny;
  rules = shell_rule ∷ test_rule ∷ secret_rule ∷ [];
  matchers = all_matchers;
}

abbrev engine : Engine
engine = record {
  operations = some section;
  providers_section = none;
  case_insensitive_paths = false;
}

abbrev approvals : ApprovalPolicy
approvals = record {
  allow = "read" ∷ [];
  require_human = "write" ∷ [];
  policy = some engine;
  dry_run = false;
}

abbrev run_tests : Request
run_tests = record {
  kind = some "shell";
  file_name = none;
  path = none;
  url = none;
  host = none;
  tool_arguments = some ("npm" ∷ "test" ∷ []);
  full_command_text = none;
  managed_approval_required = false;
}

abbrev read_secret : Request
read_secret = record run_tests { kind = some "read"; path = some "secret"; tool_arguments = none }

abbrev context : Context
context = record { workspace = some "/work"; agent = some "coder" }

tests_run : (evaluate platform approvals run_tests context).verdict ≡ approve_once
unfolding evaluate policy_answer evaluate_operation select_decision decide strictest prefer_named
    patterns_pass glob_match command_match glob_source command_source is_special
tests_run = refl

secret_kept : (evaluate platform approvals read_secret context).verdict ≡ reject
unfolding evaluate policy_answer evaluate_operation select_decision decide strictest prefer_named
    patterns_pass glob_match command_match glob_source command_source is_special
secret_kept = refl

select_decision-effect_example :
    (select_decision platform false false section
      (operation_facts platform run_tests context none)).effect
    ≡ allow
unfolding patterns_pass glob_match command_match glob_source command_source is_special
select_decision-effect_example =
    select_decision-effect platform false false section
      (operation_facts platform run_tests context none)

select_decision_order_example :
    (select_decision platform false false section
      (operation_facts platform run_tests context none)).effect
    ≡ (select_decision platform false false
        (record section { rules = test_rule ∷ shell_rule ∷ secret_rule ∷ [] })
        (operation_facts platform run_tests context none)).effect
select_decision_order_example =
    select_decision_order platform false false deny all_matchers section.rules
      (test_rule ∷ shell_rule ∷ secret_rule ∷ []) (operation_facts platform run_tests context none)
      ∣ Permᴰ.swap refl refl ∣₁

select_decision_outside_example :
    select_decision platform true false section (operation_facts platform run_tests context none)
    ≡ select_decision platform true false
        (record section { rules = shell_rule ∷ test_rule ∷ [] })
        (operation_facts platform run_tests context none)
select_decision_outside_example =
    select_decision_outside platform false section (operation_facts platform run_tests context none)
      refl

evaluate-approved_example :
    is_approved (evaluate platform approvals run_tests context).verdict ≡ true
unfolding patterns_pass glob_match command_match glob_source command_source is_special
evaluate-approved_example = evaluate-approved platform approvals run_tests context

evaluate-rejected_example :
    is_rejected (evaluate platform approvals read_secret context).verdict ≡ true
unfolding patterns_pass glob_match command_match glob_source command_source is_special
evaluate-rejected_example = evaluate-rejected platform approvals read_secret context

deny_stands_example : (evaluate platform approvals read_secret context).verdict ≡ reject
unfolding patterns_pass glob_match command_match glob_source command_source is_special
deny_stands_example =
    deny_stands platform approvals engine section read_secret context refl refl refl

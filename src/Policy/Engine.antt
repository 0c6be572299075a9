-- ===== src/Policy/Engine.antt =====
-- src/policy/engine.js: `evaluateOperation` and `evaluateProvider`. The paths and hosts of a request
-- are placed by the platform (Policy/Rules.antt).
use Prim.Native.String.{◌++◌ as str_append}
use etnpilot.Common.{
  Bool, true, false, Option, none, some, List, [], ◌∷◌, String, str_eq, if◌then◌else◌,
}
use etnpilot.Policy.Rules.{
  Effect, allow, human, deny, kinds, agents, paths, hosts, commands, providers, Section, Facts,
  Decision, Platform, select_decision,
}

pub record Request : Type 0 where
  pub kind : Option String
  pub file_name : Option String
  pub path : Option String
  pub url : Option String
  pub host : Option String
  pub tool_arguments : Option (List String)
  pub full_command_text : Option String
  pub managed_approval_required : Bool

pub record Context : Type 0 where
  pub workspace : Option String
  pub agent : Option String

pub record Engine : Type 0 where
  pub operations : Option Section
  pub providers_section : Option Section
  pub case_insensitive_paths : Bool

-- `stringValue`: a text that is not empty.
abbrev pub string_value : Option String → Option String
string_value none = none
string_value (some s) = if str_eq s "" then none else some s

-- `value.join(" ")`.
abbrev pub join_words : List String → String
join_words [] = ""
join_words (w ∷ []) = w
join_words (w ∷ v ∷ ws) = str_append w (str_append " " (join_words (v ∷ ws)))

-- `commandText`: the arguments as one line, or the text of the command.
abbrev pub command_text : Request → Option String
command_text r = text_of r.tool_arguments
  where
    text_of : Option (List String) → Option String
    text_of none = string_value r.full_command_text
    text_of (some words) = some (join_words words)

abbrev pub is_shell : Option String → Bool
is_shell none = false
is_shell (some k) = str_eq k "shell"

-- `a ?? b` on values that may be missing.
abbrev pub first_given : Option String → Option String → Option String
first_given none b = b
first_given (some a) b = some a

-- `normalizeRequestPath`.
abbrev pub request_path : Platform → Option String → Option String → Option String × Bool
request_path platform none workspace = (none, false)
request_path platform (some path) workspace =
    if str_eq path "" then (none, false) else platform.locate path workspace

-- The host that the rules see: of the URL, if there is one, and else the request's own.
abbrev pub request_host : Platform → Request → Option String
request_host platform r = host_of_url r.url
  where
    host_of_url : Option String → Option String
    host_of_url none = r.host
    host_of_url (some url) = if str_eq url "" then none else platform.host_of url

abbrev pub lowered : Platform → Option String → Option String
lowered platform none = none
lowered platform (some s) = some (platform.lower_case s)

abbrev pub operation_facts : Platform → Request → Context → Option String → Facts
operation_facts platform r context path kinds = string_value r.kind
operation_facts platform r context path agents = string_value context.agent
operation_facts platform r context path paths = path
operation_facts platform r context path hosts =
    lowered platform (string_value (request_host platform r))
operation_facts platform r context path commands = if is_shell r.kind then command_text r else none
operation_facts platform r context path providers = none

-- The kind of an answer to a request.
pub data Verdict : Type 0 where
  approve_once human_required reject : Verdict

-- `operationDecision`, with the decision as its evidence.
abbrev pub verdict_of : Effect → Verdict
verdict_of allow = approve_once
verdict_of human = human_required
verdict_of deny = reject

pub record PolicyAnswer : Type 0 where
  pub verdict : Verdict
  pub evidence : Decision

abbrev pub answer_of : Decision → PolicyAnswer
answer_of d = record { verdict = verdict_of d.effect; evidence = d }

unfoldable pub evaluate_operation : Platform → Engine → Request → Context → Option PolicyAnswer
evaluate_operation platform engine r context = by_section engine.operations
  where
    by_section : Option Section → Option PolicyAnswer
    by_section none = none
    by_section (some section) =
        let (path, outside) =
          request_path platform (first_given r.file_name r.path) context.workspace in
        some (
          answer_of (
            select_decision platform outside engine.case_insensitive_paths section
              (operation_facts platform r context path)))

abbrev pub provider_facts : Option String → Context → Facts
provider_facts provider context providers = string_value provider
provider_facts provider context agents = string_value context.agent
provider_facts provider context _ = none

abbrev pub is_allow : Effect → Bool
is_allow allow = true
is_allow _ = false

-- `evaluateProvider`: whether it is allowed, and the evidence if there is a policy.
unfoldable pub evaluate_provider :
    Platform → Engine → Option String → Context → Bool × Option Decision
evaluate_provider platform engine provider context = by_section engine.providers_section
  where
    by_section : Option Section → Bool × Option Decision
    by_section none = (true, none)
    by_section (some section) =
        let d = select_decision platform false false section (provider_facts provider context) in
        (is_allow d.effect, some d)

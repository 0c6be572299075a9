-- ===== src/Policy/Configured.antt =====
-- src/policy/engine.js: a section of two rules, normalized.
use etnpilot.Common.{
  ◌≡◌, refl, Bool, [], String, str_eq, not, length, Json, str, arr, obj, nil, cons, end, field,
  Result, ok, err,
}
use etnpilot.Policy.Rules.{Section, deny}
use etnpilot.Policy.Normalize.{
  SectionError, duplicate_rule, operation_shape, normalize_rules, normalize_section,
}
use etnpilot.Policy.Rulesets.{IsRuleset, normalize_section-IsRuleset}

abbrev is_id : String → Bool
is_id s = not (str_eq s "")

abbrev rule_json : String → Json
rule_json id =
    obj (field "id" (str id) (field "effect" (str "allow") (field "agents" (str "ann") end)))

abbrev config : Json
config = obj (field "rules" (arr (cons (rule_json "a") (cons (rule_json "b") nil))) end)

abbrev section_of : Result SectionError Section → Section
section_of (ok s) = s
section_of (err e) = record { default = deny; rules = []; matchers = [] }

abbrev configured : Section
configured = section_of (normalize_section is_id operation_shape config)

configured_here : normalize_section is_id operation_shape config ≡ ok configured
unfolding normalize_section normalize_rules
configured_here = refl

two_rules : length configured.rules ≡ 2
unfolding normalize_section normalize_rules
two_rules = refl

repeated_id :
    normalize_section is_id operation_shape
      (obj (field "rules" (arr (cons (rule_json "a") (cons (rule_json "a") nil))) end))
    ≡ err duplicate_rule
unfolding normalize_section normalize_rules
repeated_id = refl

normalize_section-IsRuleset_example : IsRuleset is_id operation_shape [] configured.rules
normalize_section-IsRuleset_example =
    normalize_section-IsRuleset is_id operation_shape config configured configured_here

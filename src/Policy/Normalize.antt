-- ===== src/Policy/Normalize.antt =====
-- src/policy/engine.js: `normalizeSection` and `stringList`, which make the rules from the configuration.
-- The test of `RULE_ID` is a regular expression, and a parameter.
use etnpilot.Common.{
  Bool, false, not, ◌&&◌, ◌||◌, Option, none, some, List, [], ◌∷◌, String, str_eq, if◌then◌else◌,
  any, is_some, includes, unique, Json, null, str, arr, obj, Items, nil, cons, Fields, end, field,
  field_at, has_field, Result, ok, err,
}
use etnpilot.Policy.Rules.{
  Effect, allow, human, deny, Matcher, kinds, agents, paths, hosts, commands, providers, Rule,
  Section,
}

pub data SectionError : Type 0 where
  no_object unknown_field bad_default rules_no_array : SectionError
  rule_no_object rule_id duplicate_rule rule_effect rule_field rule_list no_matcher : SectionError

-- What an argument of normalizeSection fixes: the effects and the matchers of a section.
pub record Shape : Type 0 where
  pub effects : List String
  pub matchers : List Matcher

abbrev pub operation_shape : Shape
operation_shape = record {
  effects = "allow" ∷ "human" ∷ "deny" ∷ [];
  matchers = kinds ∷ agents ∷ paths ∷ hosts ∷ commands ∷ [];
}

abbrev pub provider_shape : Shape
provider_shape = record { effects = "allow" ∷ "deny" ∷ []; matchers = providers ∷ agents ∷ [] }

abbrev pub matcher_key : Matcher → String
matcher_key kinds = "kinds"
matcher_key agents = "agents"
matcher_key paths = "paths"
matcher_key hosts = "hosts"
matcher_key commands = "commands"
matcher_key providers = "providers"

abbrev pub effect_named : String → Effect
effect_named s = if str_eq s "allow" then allow else if str_eq s "human" then human else deny

abbrev pub effect_of : List String → Option Json → Option Effect
effect_of effects (some (str s)) = if includes effects s then some (effect_named s) else none
effect_of effects _ = none

-- `section.default ?? "deny"`.
abbrev pub default_of : List String → Option Json → Option Effect
default_of effects none = some deny
default_of effects (some null) = some deny
default_of effects (some v) = effect_of effects (some v)

-- The texts of a list, if all are texts that are not empty.
abbrev pub add_text : String → Option (List String) → Option (List String)
add_text s none = none
add_text s (some ts) = if str_eq s "" then none else some (s ∷ ts)

abbrev pub item_list : Items → Option (List String)
item_list nil = some []
item_list (cons (str s) xs) = add_text s (item_list xs)
item_list (cons _ xs) = none

abbrev pub non_empty : Option (List String) → Option (List String)
non_empty none = none
non_empty (some []) = none
non_empty (some (t ∷ ts)) = some (unique (t ∷ ts))

-- `stringList`.
abbrev pub string_list : Json → Option (List String)
string_list (str s) = if str_eq s "" then none else some (s ∷ [])
string_list (arr xs) = non_empty (item_list xs)
string_list _ = none

-- `normalized[matcher]`, for the matchers of the section.
abbrev pub list_at : Option Json → Option (List String)
list_at none = none
list_at (some v) = string_list v

abbrev pub same_key : Matcher → Matcher → Bool
same_key m k = str_eq (matcher_key m) (matcher_key k)

abbrev pub patterns_of : List Matcher → Fields → Matcher → Option (List String)
patterns_of matchers fs m =
    if any (same_key m) matchers then list_at (field_at (matcher_key m) fs) else none

abbrev pub is_bad_list : Fields → Matcher → Bool
is_bad_list fs m =
    has_field (matcher_key m) fs && not (is_some (list_at (field_at (matcher_key m) fs)))

abbrev pub is_matcher_key : List Matcher → String → Bool
is_matcher_key matchers k = any (λ m. str_eq (matcher_key m) k) matchers

abbrev pub has_other : (String → Bool) → Fields → Bool
has_other known end = false
has_other known (field k v fs) = not (known k) || has_other known fs

abbrev pub is_rule_key : List Matcher → String → Bool
is_rule_key matchers k = str_eq k "id" || (str_eq k "effect" || is_matcher_key matchers k)

abbrev pub is_section_key : String → Bool
is_section_key k = str_eq k "default" || str_eq k "rules"

module _ (is_rule_id : String → Bool) (shape : Shape) where
  -- A rule whose id and effect are read, by its fields.
  abbrev pub rule_of : String → Effect → Fields → Result SectionError Rule
  rule_of id effect fs =
      if has_other (is_rule_key shape.matchers) fs
      then err rule_field
      else if any (is_bad_list fs) shape.matchers
      then err rule_list
      else if any (λ m. has_field (matcher_key m) fs) shape.matchers
      then ok (record { id = id; effect = effect; patterns = patterns_of shape.matchers fs })
      else err no_matcher

  abbrev pub with_effect : String → Option Effect → Fields → Result SectionError Rule
  with_effect id none fs = err rule_effect
  with_effect id (some effect) fs = rule_of id effect fs

  abbrev pub with_id : List String → Option Json → Fields → Result SectionError Rule
  with_id ids (some (str id)) fs =
      if not (is_rule_id id)
      then err rule_id
      else if includes ids id
      then err duplicate_rule
      else with_effect id (effect_of shape.effects (field_at "effect" fs)) fs
  with_id ids _ fs = err rule_id

  abbrev pub normalize_rule : List String → Json → Result SectionError Rule
  normalize_rule ids (obj fs) = with_id ids (field_at "id" fs) fs
  normalize_rule ids _ = err rule_no_object

  abbrev pub with_rule : Rule → Result SectionError (List Rule) → Result SectionError (List Rule)
  with_rule r (ok rs) = ok (r ∷ rs)
  with_rule r (err e) = err e

  abbrev pub after_rule :
      Result SectionError Rule
      → (String → Result SectionError (List Rule))
      → Result SectionError (List Rule)
  after_rule (ok r) rest = with_rule r (rest r.id)
  after_rule (err e) rest = err e

  -- The rules, with the ids seen so far.
  unfoldable pub normalize_rules : List String → Items → Result SectionError (List Rule)
  normalize_rules ids nil = ok []
  normalize_rules ids (cons x xs) =
      after_rule (normalize_rule ids x) (λ id. normalize_rules (id ∷ ids) xs)

  abbrev pub rules_of : Option Json → Result SectionError (List Rule)
  rules_of none = ok []
  rules_of (some (arr xs)) = normalize_rules [] xs
  rules_of (some _) = err rules_no_array

  abbrev pub section_with : Effect → Result SectionError (List Rule) → Result SectionError Section
  section_with effect (ok rs) =
      ok (record { default = effect; rules = rs; matchers = shape.matchers })
  section_with effect (err e) = err e

  abbrev pub with_default : Option Effect → Fields → Result SectionError Section
  with_default none fs = err bad_default
  with_default (some effect) fs = section_with effect (rules_of (field_at "rules" fs))

  -- `normalizeSection`.
  unfoldable pub normalize_section : Json → Result SectionError Section
  normalize_section (obj fs) =
      if has_other is_section_key fs
      then err unknown_field
      else with_default (default_of shape.effects (field_at "default" fs)) fs
  normalize_section _ = err no_object

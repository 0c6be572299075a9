-- ===== src/Policy/Choice.antt =====
-- src/policy/engine.js: what `selectDecision` decides, told without the order of the rules.
use etnpilot.Common.{
  ◌≡◌, refl, ◌∙◌, Bool, true, false, ◌&&◌, List, [], ◌∷◌, if◌then◌else◌, any, keep, arith,
  Bool-cases, inl, inr,
}
use etnpilot.Policy.Rules.{
  Effect, allow, human, deny, is_deny, is_human, Rule, strictest, stricter, has_commands,
  prefer_named, decide, Section, Facts, Platform, select_decision, rule_matches,
}

-- The strictest effect of some rules: denial, a human's decision, or allowance.
abbrev pub strictest_effect : (denies asks : Bool) → Effect
strictest_effect denies asks = if denies then deny else if asks then human else allow

strictest-effect :
    (r : Rule) (rs : List Rule)
    → (strictest r rs).effect
      ≡ strictest_effect
          (any (λ x. is_deny x.effect) (r ∷ rs))
          (any (λ x. is_human x.effect) (r ∷ rs))
unfolding strictest
strictest-effect r [] = ground arith
strictest-effect r (c ∷ cs) = strictest-effect (stricter r c) cs ∙ ground arith

-- The specification. Among the rules that match, a denial stands. Otherwise, if a rule that names a
-- command matches, those rules alone decide; a human is asked if one of the deciding rules wants
-- that, and else the operation is allowed. With no rule that matches the default decides.
abbrev pub chosen_effect : Effect → (Rule → Bool) → List Rule → Effect
chosen_effect default matches rules =
    if any matches rules
    then strictest_effect (any (λ r. matches r && is_deny r.effect) rules) (
        if any (λ r. matches r && has_commands r) rules
        then any (λ r. matches r && (has_commands r && is_human r.effect)) rules
        else any (λ r. matches r && is_human r.effect) rules)
    else default

any-keep :
    (p q : Rule → Bool) (rules : List Rule) → any q (keep p rules) ≡ any (λ r. p r && q r) rules
any-keep p q [] = refl
any-keep p q (r ∷ rs) = ground (arith, any-keep p q rs)

any-keep_self : (p : Rule → Bool) (rules : List Rule) → any (λ _. true) (keep p rules) ≡ any p rules
any-keep_self p [] = refl
any-keep_self p (r ∷ rs) = ground (arith, any-keep_self p rs)

any_and_le :
    (p q : Rule → Bool) (rules : List Rule)
    → any q rules ≡ false
    → any (λ r. p r && q r) rules ≡ false
any_and_le p q [] h = refl
any_and_le p q (r ∷ rs) h = ground (arith, any_and_le p q rs)

prefer_named-effect :
    (c : Rule) (named : List Rule)
    → (prefer_named c named).effect ≡ (
        if any (λ _. true) named
        then strictest_effect
            (any (λ x. is_deny x.effect) named)
            (any (λ x. is_human x.effect) named)
        else c.effect)
unfolding prefer_named
prefer_named-effect c [] = refl
prefer_named-effect c (r ∷ rs) = strictest-effect r rs

choose_named :
    (c : Rule) (rules : List Rule)
    → any (λ x. is_deny x.effect) rules ≡ false
    → c.effect ≡ strictest_effect false (any (λ x. is_human x.effect) rules)
    → (prefer_named c (keep has_commands rules)).effect
      ≡ strictest_effect false (
          if any has_commands rules
          then any (λ r. has_commands r && is_human r.effect) rules
          else any (λ r. is_human r.effect) rules)
choose_named c rules d h =
    prefer_named-effect c (keep has_commands rules)
    ∙ ground (
      arith,
      any-keep_self has_commands rules,
      any-keep has_commands (λ x. is_deny x.effect) rules,
      any-keep has_commands (λ x. is_human x.effect) rules,
      any_and_le has_commands (λ x. is_deny x.effect) rules d,
    )

decide-effect :
    (default : Effect) (rules : List Rule)
    → (decide default rules).effect ≡ chosen_effect default (λ _. true) rules
unfolding decide
decide-effect default [] = refl
decide-effect default (r ∷ rs) = elim (Bool-cases (any (λ x. is_deny x.effect) (r ∷ rs))) [
  | inl d ↦ ground (arith, strictest-effect r rs)
  | inr d ↦ ground (
    arith,
    strictest-effect r rs,
    choose_named (strictest r rs) (r ∷ rs) d (strictest-effect r rs ∙ rw d),
  )
]

chosen_effect-keep :
    (default : Effect) (matches : Rule → Bool) (rules : List Rule)
    → chosen_effect default (λ _. true) (keep matches rules) ≡ chosen_effect default matches rules
chosen_effect-keep default matches rules = ground (
  arith,
  any-keep_self matches rules,
  any-keep matches (λ x. is_deny x.effect) rules,
  any-keep matches has_commands rules,
  any-keep matches (λ x. has_commands x && is_human x.effect) rules,
  any-keep matches (λ x. is_human x.effect) rules,
)

-- The effect of a decision is the specified one: a denial among the rules that match stands; a rule
-- that names a command outranks those that do not, short of a denial; of the deciding rules the
-- strictest effect holds; and with no rule that matches, the default of the section.
pub select_decision-effect :
    (platform : Platform) (outside case_insensitive : Bool) (section : Section) (facts : Facts)
    → (select_decision platform outside case_insensitive section facts).effect
      ≡ chosen_effect section.default
          (rule_matches platform outside case_insensitive section.matchers facts)
          section.rules
unfolding select_decision
select_decision-effect platform outside case_insensitive section facts =
    let matches = rule_matches platform outside case_insensitive section.matchers facts in
    decide-effect section.default (keep matches section.rules)
    ∙ chosen_effect-keep section.default matches section.rules

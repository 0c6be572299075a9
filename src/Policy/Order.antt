-- ===== src/Policy/Order.antt =====
-- src/policy/engine.js: the order of the rules, and paths outside the workspace.
use mathlib.Core.List.{Perm, Permᴰ}
use mathlib.Core.Logic.{∥∥₁_elim}
use etnpilot.Common.{
  ◌≡◌, refl, sym, ap, ◌∙◌, Bool, true, false, not, ◌&&◌, Option, none, some, List, [], ◌∷◌, String,
  any, keep, is_some, arith, Bool-cases, inl, inr,
}
use etnpilot.Policy.Rules.{
  Effect, is_deny, is_human, Matcher, kinds, agents, paths, hosts, commands, providers, is_paths,
  Rule, has_commands, decide, Section, Facts, Platform, select_decision, rule_matches,
  patterns_pass,
}
use etnpilot.Policy.Choice.{chosen_effect, select_decision-effect}

any-Permᴰ : (p : Rule → Bool) {xs ys : List Rule} → Permᴰ xs ys → any p xs ≡ any p ys
any-Permᴰ p Permᴰ.nil = refl
any-Permᴰ p (Permᴰ.cons e d) = rw (e, any-Permᴰ p d)
any-Permᴰ p (Permᴰ.swap {a} {b} {l = l} e f) = rw (← e, ← f) ground arith
any-Permᴰ p (Permᴰ.trans d e) = any-Permᴰ p d ∙ any-Permᴰ p e

chosen_effect-Permᴰ :
    (default : Effect) (matches : Rule → Bool) {xs ys : List Rule}
    → Permᴰ xs ys
    → chosen_effect default matches xs ≡ chosen_effect default matches ys
chosen_effect-Permᴰ default matches d = rw (
  any-Permᴰ matches d,
  any-Permᴰ (λ r. matches r && is_deny r.effect) d,
  any-Permᴰ (λ r. matches r && has_commands r) d,
  any-Permᴰ (λ r. matches r && (has_commands r && is_human r.effect)) d,
  any-Permᴰ (λ r. matches r && is_human r.effect) d,
)

-- The effect of a decision does not depend on the order of the rules: a section whose rules are
-- those of another in any other order decides every operation with the same effect.
pub select_decision_order :
    (platform : Platform) (outside case_insensitive : Bool) (default : Effect)
    (matchers : List Matcher) (xs ys : List Rule) (facts : Facts)
    → Perm xs ys
    → (select_decision platform outside case_insensitive
        (record { default = default; rules = xs; matchers = matchers })
        facts).effect
      ≡ (select_decision platform outside case_insensitive
          (record { default = default; rules = ys; matchers = matchers })
          facts).effect
select_decision_order platform outside case_insensitive default matchers xs ys facts perm =
    ∥∥₁_elim perm (hlevel) (λ d.
      select_decision-effect platform outside case_insensitive _ facts
      ∙ chosen_effect-Permᴰ default (rule_matches platform outside case_insensitive matchers facts)
          d
      ∙ sym (select_decision-effect platform outside case_insensitive _ facts))

-- A rule says nothing about paths.
abbrev pub no_paths : Rule → Bool
no_paths r = not (is_some (r.patterns paths))

keep_all :
    (p q : Rule → Bool) (rules : List Rule)
    → ((r : Rule) → p r ≡ true → q r ≡ true)
    → keep p (keep q rules) ≡ keep p rules
keep_all p q [] h = refl
keep_all p q (r ∷ rs) h = elim (Bool-cases (q r)) [
  | inl on ↦ rw (on, keep_all p q rs h)
  | inr off ↦ rw off (elim (Bool-cases (p r)) [
    | inl pass ↦ absurd (cc (h r pass))
    | inr stop ↦ rw (stop, keep_all p q rs h)
  ])
]

paths_pass :
    (platform : Platform) (case_insensitive : Bool) (ps : Option (List String))
    (fact : Option String)
    → patterns_pass platform true case_insensitive paths ps fact ≡ true
    → is_some ps ≡ false
unfolding patterns_pass
paths_pass platform case_insensitive none fact h = refl
paths_pass platform case_insensitive (some ps) none h = absurd (cc)
paths_pass platform case_insensitive (some ps) (some fact) h = absurd (cc)

matches-no_paths :
    (platform : Platform) (case_insensitive : Bool) (matchers : List Matcher) (facts : Facts)
    (r : Rule)
    → any is_paths matchers ≡ true
    → rule_matches platform true case_insensitive matchers facts r ≡ true
    → no_paths r ≡ true
matches-no_paths platform case_insensitive [] facts r m h = absurd (cc)
matches-no_paths platform case_insensitive (paths ∷ ms) facts r m h =
    ground (arith, paths_pass platform case_insensitive (r.patterns paths) (facts paths))
matches-no_paths platform case_insensitive (kinds ∷ ms) facts r m h =
    matches-no_paths platform case_insensitive ms facts r m (ground arith)
matches-no_paths platform case_insensitive (agents ∷ ms) facts r m h =
    matches-no_paths platform case_insensitive ms facts r m (ground arith)
matches-no_paths platform case_insensitive (hosts ∷ ms) facts r m h =
    matches-no_paths platform case_insensitive ms facts r m (ground arith)
matches-no_paths platform case_insensitive (commands ∷ ms) facts r m h =
    matches-no_paths platform case_insensitive ms facts r m (ground arith)
matches-no_paths platform case_insensitive (providers ∷ ms) facts r m h =
    matches-no_paths platform case_insensitive ms facts r m (ground arith)

-- For a path outside the workspace the rules with path patterns have no say, where the section
-- knows the paths of a rule: the decision is the one of the other rules alone.
pub select_decision_outside :
    (platform : Platform) (case_insensitive : Bool) (section : Section) (facts : Facts)
    → any is_paths section.matchers ≡ true
    → select_decision platform true case_insensitive section facts
      ≡ select_decision platform true case_insensitive
          (record section { rules = keep no_paths section.rules })
          facts
unfolding select_decision
select_decision_outside platform case_insensitive section facts m = ap (decide section.default) (
    sym (
      keep_all (rule_matches platform true case_insensitive section.matchers facts) no_paths
        section.rules (λ r. matches-no_paths platform case_insensitive section.matchers facts r m)))

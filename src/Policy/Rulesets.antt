-- ===== src/Policy/Rulesets.antt =====
-- src/policy/engine.js: what the rules of a section are like once normalizeSection has let them through.
use mathlib.Core.List.{Memᴰ}
use mathlib.Core.List.Memᴰ.{head, tail}
use etnpilot.Common.{
  Bool, true, false, ◌≡◌, refl, Option, none, some, List, [], ◌∷◌, String, str_eq, any, is_some,
  includes, Json, null, bool, num, time, str, arr, obj, Items, nil, cons, Fields, field_at,
  has_field, Result, ok, err, Keyed, by_key, All, ok-injective, arith, Bool-cases, inl, inr, subst,
  ap, ◌∙◌, eq_refl, str_eq→eq,
}
use etnpilot.Policy.Rules.{Effect, Matcher, Rule, Section}
use etnpilot.Policy.Normalize.{
  SectionError, Shape, matcher_key, effect_of, same_key, patterns_of, is_bad_list, has_other,
  is_rule_key, rule_of, with_effect, with_id, normalize_rule, with_rule, after_rule,
  normalize_rules, rules_of, section_with, with_default, default_of, is_section_key,
  normalize_section,
}

restricted :
    (matchers ms : List Matcher) (fs : Fields)
    → ((m : Matcher) → Memᴰ m ms → any (same_key m) matchers ≡ true)
    → any (is_bad_list fs) ms ≡ false
    → any (λ m. has_field (matcher_key m) fs) ms ≡ true
    → any (λ m. is_some (patterns_of matchers fs m)) ms ≡ true
restricted matchers [] fs sub good given = absurd (cc)
restricted matchers (m ∷ ms) fs sub good given =
    ground
      (arith, sub m (head refl), restricted matchers ms fs (λ k n. sub k (tail n)), good, given)

own_key : (ms : List Matcher) (m : Matcher) → Memᴰ m ms → any (same_key m) ms ≡ true
own_key [] m n = elim n [ ]
own_key (k ∷ ms) m (head e) =
    ground (arith, subst (λ x. same_key m x ≡ true) e (eq_refl (matcher_key m)))
own_key (k ∷ ms) m (tail n) = ground (arith, own_key ms m n)

module _ (is_rule_id : String → Bool) (shape : Shape) where
  -- A rule has at least one of the matchers of its section.
  abbrev pub Restricts : Rule → Type 0
  Restricts r = any (λ m. is_some (r.patterns m)) shape.matchers ≡ true

  rule_of-Restricts :
      (id : String) (effect : Effect) (fs : Fields) (r : Rule)
      → rule_of is_rule_id shape id effect fs ≡ ok r
      → (r.id ≡ id) × Restricts r
  rule_of-Restricts id effect fs r h =
      elim (Bool-cases (has_other (is_rule_key shape.matchers) fs)) [
        | inl unknown ↦ absurd (cc (rw unknown at h))
        | inr known ↦ elim (Bool-cases (any (is_bad_list fs) shape.matchers)) [
          | inl bad ↦ absurd (cc (rw (known, bad) at h))
          | inr good ↦ elim (Bool-cases (any (λ m. has_field (matcher_key m) fs) shape.matchers)) [
            | inr bare ↦ absurd (cc (rw (known, good, bare) at h))
            | inl given ↦
                subst (λ x. (x.id ≡ id) × Restricts x) (ok-injective (rw (known, good, given) at h))
                  (
                    refl,
                    restricted shape.matchers shape.matchers fs (own_key shape.matchers) good given,
                  )
          ]
        ]
      ]

  with_id-Restricts :
      (ids : List String) (id : String) (fs : Fields) (r : Rule)
      → with_id is_rule_id shape ids (some (str id)) fs ≡ ok r
      → (includes ids r.id ≡ false) × Restricts r
  with_id-Restricts ids id fs r h = elim (Bool-cases (is_rule_id id)) [
    | inr invalid ↦ absurd (cc (rw invalid at h))
    | inl valid ↦ elim (Bool-cases (includes ids id)) [
      | inl again ↦ absurd (cc (rw (valid, again) at h))
      | inr new ↦
          by_effect (effect_of shape.effects (field_at "effect" fs)) (rw (valid, new) at h) new
    ]
  ]
    where
      by_effect :
          (o : Option Effect)
          → with_effect is_rule_id shape id o fs ≡ ok r
          → includes ids id ≡ false
          → (includes ids r.id ≡ false) × Restricts r
      by_effect none e new = absurd (cc)
      by_effect (some effect) e new =
          let (same, restricts) = rule_of-Restricts id effect fs r e in
          (ap (includes ids) same ∙ new, restricts)

  normalize_rule-Restricts :
      (ids : List String) (x : Json) (r : Rule)
      → normalize_rule is_rule_id shape ids x ≡ ok r
      → (includes ids r.id ≡ false) × Restricts r
  normalize_rule-Restricts ids (obj fs) r h = by_id (field_at "id" fs) h
    where
      by_id :
          (o : Option Json)
          → with_id is_rule_id shape ids o fs ≡ ok r
          → (includes ids r.id ≡ false) × Restricts r
      by_id none e = absurd (cc)
      by_id (some (str id)) e = with_id-Restricts ids id fs r e
      by_id (some null) e = absurd (cc)
      by_id (some (bool b)) e = absurd (cc)
      by_id (some (num n)) e = absurd (cc)
      by_id (some (time n)) e = absurd (cc)
      by_id (some (arr xs)) e = absurd (cc)
      by_id (some (obj gs)) e = absurd (cc)
  normalize_rule-Restricts ids null r h = absurd (cc)
  normalize_rule-Restricts ids (bool b) r h = absurd (cc)
  normalize_rule-Restricts ids (num n) r h = absurd (cc)
  normalize_rule-Restricts ids (time n) r h = absurd (cc)
  normalize_rule-Restricts ids (str s) r h = absurd (cc)
  normalize_rule-Restricts ids (arr xs) r h = absurd (cc)

  -- The rules have distinct ids, none of those seen before, and each has a matcher.
  pub record IsRuleset (ids : List String) (rs : List Rule) : Type 0 where
    pub keyed : Keyed (λ (r : Rule). r.id) rs
    pub unseen :
        (x : String) → includes ids x ≡ true → any (by_key (λ (r : Rule). r.id) x) rs ≡ false
    pub restricts : All Restricts rs

  pub normalize_rules-IsRuleset :
      (ids : List String) (xs : Items) (rs : List Rule)
      → normalize_rules is_rule_id shape ids xs ≡ ok rs
      → IsRuleset ids rs
  unfolding normalize_rules
  normalize_rules-IsRuleset ids nil rs h =
      subst (IsRuleset ids) (ok-injective h)
        (record { keyed = tt; unseen = λ x m. refl; restricts = tt })
  normalize_rules-IsRuleset ids (cons x xs) rs h =
      by_rule (normalize_rule is_rule_id shape ids x) refl h
        (λ id ss. normalize_rules-IsRuleset (id ∷ ids) xs ss)
    where
      by_rest :
          (r : Rule) (rest : Result SectionError (List Rule))
          → with_rule is_rule_id shape r rest ≡ ok rs
          → (includes ids r.id ≡ false) × Restricts r
          → ((ss : List Rule) → rest ≡ ok ss → IsRuleset (r.id ∷ ids) ss)
          → IsRuleset ids rs
      by_rest r (err e) g one ih = absurd (cc)
      by_rest r (ok ss) g one ih =
          let below = ih ss refl in
          subst (IsRuleset ids) (ok-injective g) (record {
            keyed = (below.unseen r.id (ground (arith, eq_refl r.id)), below.keyed);
            unseen = λ y m. ground (arith, below.unseen y, m, other y m);
            restricts = (one.1, below.restricts);
          })
        where
          other : (y : String) → includes ids y ≡ true → str_eq r.id y ≡ false
          other y m = elim (Bool-cases (str_eq r.id y)) [
            | inl same ↦ absurd (cc (ap (includes ids) (str_eq→eq r.id y same), m, one.0))
            | inr differs ↦ differs
          ]

      by_rule :
          (o : Result SectionError Rule)
          → normalize_rule is_rule_id shape ids x ≡ o
          → after_rule is_rule_id shape o (λ id. normalize_rules is_rule_id shape (id ∷ ids) xs)
            ≡ ok rs
          → ((id : String) (ss : List Rule)
              → normalize_rules is_rule_id shape (id ∷ ids) xs ≡ ok ss
              → IsRuleset (id ∷ ids) ss)
          → IsRuleset ids rs
      by_rule (err e) q g ih = absurd (cc)
      by_rule (ok r) q g ih =
          by_rest r (normalize_rules is_rule_id shape (r.id ∷ ids) xs) g
            (normalize_rule-Restricts ids x r q) (ih r.id)

  rules_of-IsRuleset :
      (o : Option Json) (rs : List Rule) → rules_of is_rule_id shape o ≡ ok rs → IsRuleset [] rs
  rules_of-IsRuleset none rs h =
      subst (IsRuleset []) (ok-injective h)
        (record { keyed = tt; unseen = λ x m. refl; restricts = tt })
  rules_of-IsRuleset (some (arr xs)) rs h = normalize_rules-IsRuleset [] xs rs h
  rules_of-IsRuleset (some null) rs h = absurd (cc)
  rules_of-IsRuleset (some (bool b)) rs h = absurd (cc)
  rules_of-IsRuleset (some (num n)) rs h = absurd (cc)
  rules_of-IsRuleset (some (time n)) rs h = absurd (cc)
  rules_of-IsRuleset (some (str s)) rs h = absurd (cc)
  rules_of-IsRuleset (some (obj fs)) rs h = absurd (cc)

  section_with-IsRuleset :
      (effect : Effect) (r : Result SectionError (List Rule)) (s : Section)
      → ((rs : List Rule) → r ≡ ok rs → IsRuleset [] rs)
      → section_with is_rule_id shape effect r ≡ ok s
      → IsRuleset [] s.rules
  section_with-IsRuleset effect (ok rs) s made h =
      subst (λ x. IsRuleset [] x.rules) (ok-injective h) (made rs refl)
  section_with-IsRuleset effect (err e) s made h = absurd (cc)

  with_default-IsRuleset :
      (o : Option Effect) (fs : Fields) (s : Section)
      → with_default is_rule_id shape o fs ≡ ok s
      → IsRuleset [] s.rules
  with_default-IsRuleset none fs s h = absurd (cc)
  with_default-IsRuleset (some effect) fs s h =
      section_with-IsRuleset effect (rules_of is_rule_id shape (field_at "rules" fs)) s
        (rules_of-IsRuleset (field_at "rules" fs)) h

  -- The rules of a section that normalizeSection lets through have distinct ids, and each of them has at
  -- least one matcher of the section.
  pub normalize_section-IsRuleset :
      (config : Json) (s : Section)
      → normalize_section is_rule_id shape config ≡ ok s
      → IsRuleset [] s.rules
  unfolding normalize_section
  normalize_section-IsRuleset (obj fs) s h = elim (Bool-cases (has_other is_section_key fs)) [
    | inl unknown ↦ absurd (cc (rw unknown at h))
    | inr known ↦
        with_default-IsRuleset (default_of shape.effects (field_at "default" fs)) fs s
          (rw known at h)
  ]
  normalize_section-IsRuleset null s h = absurd (cc)
  normalize_section-IsRuleset (bool b) s h = absurd (cc)
  normalize_section-IsRuleset (num n) s h = absurd (cc)
  normalize_section-IsRuleset (time n) s h = absurd (cc)
  normalize_section-IsRuleset (str t) s h = absurd (cc)
  normalize_section-IsRuleset (arr xs) s h = absurd (cc)

-- ===== src/Router/Routes.antt =====
-- src/providers/router.js: which providers a route holds.
use etnpilot.Common.{
  unique, keep_new, ℕ, ◌≡◌, refl, sym, ap, ◌∙◌, Bool, true, ◌&&◌, ◌||◌, Option, none, some, List,
  [], ◌∷◌, ◌++◌, String, str_eq, str_eq→eq, leb, if◌then◌else◌, any, count, includes, arith,
  Bool-cases, inl, inr, some-injective,
}
use mathlib.Core.List.{append_assoc}
use etnpilot.Router.Route.{
  normalize_string_list, one_provider, Rule, Agent, Routing, Route, rules_for, all_providers,
  matching, route_for, make_route, ◌>>=◌,
}

abbrev pub occurrences : String → List String → ℕ
occurrences p xs = count (λ x. str_eq x p) xs

includes_same :
    (x p : String) (seen : List String) → str_eq x p ≡ true → includes seen p ≡ includes seen x
includes_same x p seen h = ap (includes seen) (sym (str_eq→eq x p h))

occurrences-keep_new :
    (p : String) (seen xs : List String)
    → occurrences p (keep_new seen xs)
      ≡ (if includes seen p then 0 else if includes xs p then 1 else 0)
occurrences-keep_new p seen [] = ground arith
occurrences-keep_new p seen (x ∷ xs) = elim (Bool-cases (includes seen x)) [
  | inl old ↦ rw old ground (arith, occurrences-keep_new p seen xs, includes_same x p seen)
  | inr fresh ↦
      rw fresh ground (arith, occurrences-keep_new p (x ∷ seen) xs, includes_same x p seen)
]

-- Each text of the list once, and no other.
occurrences-unique :
    (p : String) (xs : List String) → occurrences p (unique xs) ≡ (if includes xs p then 1 else 0)
unfolding unique
occurrences-unique p xs = occurrences-keep_new p [] xs

includes-append :
    (xs ys : List String) (p : String) → includes (xs ++ ys) p ≡ (includes xs p || includes ys p)
includes-append [] ys p = refl
includes-append (x ∷ xs) ys p = ground (arith, includes-append xs ys p)

includes-occurrences : (p : String) (xs : List String) → includes xs p ≡ leb 1 (occurrences p xs)
includes-occurrences p [] = refl
includes-occurrences p (x ∷ xs) = ground (arith, includes-occurrences p xs)

includes-unique : (p : String) (xs : List String) → includes (unique xs) p ≡ includes xs p
includes-unique p xs = ground (arith, includes-occurrences p (unique xs), occurrences-unique p xs)

includes-normalized :
    (xs : List String) (p : String) {ys : List String}
    → normalize_string_list xs ≡ some ys
    → includes ys p ≡ includes xs p
includes-normalized xs p e = elim (Bool-cases (any (λ x. str_eq x "") xs)) [
  | inl bad ↦ absurd (cc (rw bad at e))
  | inr good ↦
      let same = some-injective (rw good at e) in
      ap (λ l. includes l p) (sym same) ∙ includes-unique p xs
]

-- Where a provider can come from: a rule for the agent or for every agent, the agent's own list or
-- its one provider, or the defaults.
abbrev pub is_mentioned : Agent → Routing → String → Bool
is_mentioned agent routing p =
    any (λ r. (str_eq r.agent agent.name || str_eq r.agent "*") && includes r.providers p)
      routing.rules
    || includes agent.providers p
    || includes (one_provider agent.provider) p
    || includes routing.defaults p

includes-rules_for :
    (name p : String) (rules : List Rule)
    → includes (all_providers (rules_for name rules)) p
      ≡ any (λ r. str_eq r.agent name && includes r.providers p) rules
includes-rules_for name p [] = refl
includes-rules_for name p (r ∷ rs) = elim (Bool-cases (str_eq r.agent name)) [
  | inl h ↦ rw h (includes-append r.providers _ p ∙ rw (includes-rules_for name p rs))
  | inr h ↦ rw h (includes-rules_for name p rs)
]

all_providers-append :
    (xs ys : List Rule) → all_providers (xs ++ ys) ≡ all_providers xs ++ all_providers ys
all_providers-append [] ys = refl
all_providers-append (r ∷ rs) ys =
    rw (all_providers-append rs ys) (sym (append_assoc r.providers (all_providers rs) _))

any_or :
    (f g h : Rule → Bool) (rules : List Rule)
    → (any (λ r. f r && h r) rules || any (λ r. g r && h r) rules)
      ≡ any (λ r. (f r || g r) && h r) rules
any_or f g h [] = refl
any_or f g h (r ∷ rs) = ground (arith, any_or f g h rs)

mentioned :
    (agent : Agent) (routing : Routing) (p : String) (own : List String)
    → normalize_string_list agent.providers ≡ some own
    → includes
        (all_providers (matching agent.name routing.rules)
          ++ (own ++ (one_provider agent.provider ++ routing.defaults)))
        p
      ≡ is_mentioned agent routing p
mentioned agent routing p own n =
    let exact = rules_for agent.name routing.rules in
    let wild = rules_for "*" routing.rules in
    let rest = one_provider agent.provider ++ routing.defaults in
    ground (
      arith,
      includes-append (all_providers (exact ++ wild)) (own ++ rest) p,
      includes-append own rest p,
      includes-append (one_provider agent.provider) routing.defaults p,
      ap (λ l. includes l p) (all_providers-append exact wild),
      includes-append (all_providers exact) (all_providers wild) p,
      includes-rules_for agent.name p routing.rules,
      includes-rules_for "*" p routing.rules,
      includes-normalized agent.providers p n,
      any_or (λ r. str_eq r.agent agent.name) (λ r. str_eq r.agent "*")
          (λ r. includes r.providers p) routing.rules,
    )

-- The route of an agent holds each provider that a matching rule, the agent or the defaults mention
-- exactly once, and no other.
pub route_providers :
    (agent : Agent) (routing : Routing) (p : String) {route : Route}
    → route_for agent routing ≡ some route
    → occurrences p route.providers ≡ (if is_mentioned agent routing p then 1 else 0)
unfolding route_for
route_providers agent routing p {route} e =
    go (normalize_string_list agent.providers) (normalize_string_list agent.requires) refl e
  where
    go :
        (own required : Option (List String))
        → normalize_string_list agent.providers ≡ own
        → (own >>= λ o. required >>= λ q. some (make_route agent routing o q)) ≡ some route
        → occurrences p route.providers ≡ (if is_mentioned agent routing p then 1 else 0)
    go none required n f = absurd (cc)
    go (some o) none n f = absurd (cc)
    go (some o) (some q) n f =
        rw (← some-injective f)
          (occurrences-unique p _ ∙ ap (λ b. if b then 1 else 0) (mentioned agent routing p o n))

-- ===== src/Router/Route.antt =====
-- src/providers/router.js: the route of an agent, from its own lists, the rules and the defaults.
use etnpilot.Common.{
  ℕ, Bool, Option, none, some, List, [], ◌∷◌, ◌++◌, String, str_eq, if◌then◌else◌, leb, any, unique,
  JsNumber, whole, other,
}

-- `normalizeStringList` of an array of texts; `none` is its TypeError.
abbrev pub normalize_string_list : List String → Option (List String)
normalize_string_list xs = if any (λ x. str_eq x "") xs then none else some (unique xs)

-- `[provider]` if the text is given and not empty.
abbrev pub one_provider : Option String → List String
one_provider none = []
one_provider (some p) = if str_eq p "" then [] else p ∷ []

pub record Rule : Type 0 where
  pub agent : String
  pub providers : List String
  pub require : List String

pub record Agent : Type 0 where
  pub name : String
  pub providers : List String
  pub provider : Option String
  pub requires : List String

pub record Routing : Type 0 where
  pub defaults : List String
  pub rules : List Rule
  pub fallback_enabled : Bool
  pub max_attempts : ℕ

pub record Route : Type 0 where
  pub providers : List String
  pub requires : List String

infixl 5 ◌>>=◌
abbrev pub ◌>>=◌ : {A B : Type 0} → Option A → (A → Option B) → Option B
none >>= f = none
some a >>= f = f a

-- `normalizeRules`.
unfoldable pub normalize_rules : List Rule → Option (List Rule)
normalize_rules [] = some []
normalize_rules (r ∷ rs) = do
  providers ← normalize_string_list r.providers
  require ← normalize_string_list r.require
  rest ← normalize_rules rs
  some (record { agent = r.agent; providers = providers; require = require } ∷ rest)

abbrev pub positive_integer : JsNumber → Option ℕ
positive_integer other = none
positive_integer (whole n) = if leb 1 n then some n else none

-- The constructor, over `routing.defaults`, `defaultProvider`, `routing.rules` and
-- `routing.fallback`.
unfoldable pub configure :
    List String → Option String → List Rule → Bool → JsNumber → Option Routing
unfolding normalize_rules
configure defaults default_provider rules enabled max_attempts = do
  listed ← normalize_string_list defaults
  rules' ← normalize_rules rules
  most ← positive_integer max_attempts
  some (record {
    defaults = unique (listed ++ one_provider default_provider);
    rules = rules';
    fallback_enabled = enabled;
    max_attempts = most;
  })

abbrev pub rules_for : String → List Rule → List Rule
rules_for name [] = []
rules_for name (r ∷ rs) = if str_eq r.agent name then r ∷ rules_for name rs else rules_for name rs

abbrev pub all_providers : List Rule → List String
all_providers [] = []
all_providers (r ∷ rs) = r.providers ++ all_providers rs

abbrev pub all_required : List Rule → List String
all_required [] = []
all_required (r ∷ rs) = r.require ++ all_required rs

-- The rules that match an agent: those that name it, then those for every agent.
abbrev pub matching : String → List Rule → List Rule
matching name rules = rules_for name rules ++ rules_for "*" rules

abbrev pub make_route : Agent → Routing → List String → List String → Route
make_route agent routing own required = record {
  providers = unique (
      all_providers (matching agent.name routing.rules)
      ++ (own ++ (one_provider agent.provider ++ routing.defaults)));
  requires = unique (required ++ all_required (matching agent.name routing.rules));
}

unfoldable pub route_for : Agent → Routing → Option Route
route_for agent routing = do
  own ← normalize_string_list agent.providers
  required ← normalize_string_list agent.requires
  some (make_route agent routing own required)

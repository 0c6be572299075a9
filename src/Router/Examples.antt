-- ===== src/Router/Examples.antt =====
-- A project with two providers, the first of which is overloaded, and the theorems at it.
use etnpilot.Common.{
  map, unique, ◌≡◌, ◌≤◌, refl, true, false, some, [], ◌∷◌, str_eq, arith, count, All, if◌then◌else◌,
}
use etnpilot.Router.Route.{Agent, Routing, Route, route_for}
use etnpilot.Router.Invoke.{
  answered, threw, World, skipped, failed, succeeded, policy_denied, routed, no_eligible_provider,
  try_providers, invoke,
}
use etnpilot.Router.Fallback.{
  candidate, Reaches, is_call, IsTrue, IsSafeChain, invoke_eligible, invoke-IsSafeChain,
}

abbrev agent : Agent
agent = record {
  name = "coder";
  providers = "a" ∷ [];
  provider = some "b";
  requires = "tools" ∷ [];
}

abbrev routing : Routing
routing = record {
  defaults = "b" ∷ "c" ∷ [];
  rules =
      record { agent = "*"; providers = "d" ∷ "a" ∷ []; require = [] }
      ∷ record { agent = "coder"; providers = "e" ∷ []; require = "edit" ∷ [] }
      ∷ [];
  fallback_enabled = true;
  max_attempts = 2;
}

abbrev route : Route
route = record { providers = "e" ∷ "d" ∷ "a" ∷ "b" ∷ "c" ∷ []; requires = "tools" ∷ "edit" ∷ [] }

routed_here : route_for agent routing ≡ some route
unfolding route_for unique
routed_here = refl

abbrev world : World
world = record {
  denied = λ p. str_eq p "e";
  registered = λ p. true;
  capabilities = λ p. "edit" ∷ "tools" ∷ [];
  available = λ p. true;
  call = λ n p. if str_eq p "d" then threw true true else answered false;
}

falls_back : invoke world routing route ≡ record {
  answer = routed "a";
  attempts = skipped "e" policy_denied ∷ failed "d" true true ∷ succeeded "a" ∷ [];
}
unfolding invoke try_providers
falls_back = refl

abbrev offline : World
offline = record world { available = λ p. false }

none_left : (invoke offline routing route).answer ≡ no_eligible_provider
unfolding invoke try_providers
none_left = refl

invoke_eligible_example :
    (count is_call (invoke world routing route).attempts ≤ 2)
    × All (IsTrue world route.requires) (invoke world routing route).attempts
    × Reaches route.providers
        (map candidate (invoke world routing route).attempts)
        (invoke world routing route).answer
invoke_eligible_example = invoke_eligible world routing route (omega arith)

invoke-IsSafeChain_example : IsSafeChain true (invoke world routing route).attempts
invoke-IsSafeChain_example = invoke-IsSafeChain world routing route (omega arith)

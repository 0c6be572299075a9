-- ===== src/Router/Invoke.antt =====
-- src/providers/router.js: `invoke`, which tries the providers of a route in turn. The registry, the
-- policy and the providers are a record of functions; the n-th call of a provider has the outcome
-- that the record gives. Spans, durations and the usage meter are left out.
use etnpilot.Common.{
  ℕ, ◌+◌, Bool, not, ◌&&◌, Option, none, some, List, [], ◌∷◌, String, if◌then◌else◌, leb, all,
  includes,
}
use etnpilot.Router.Route.{Routing, Route}

-- What an awaited `provider.invoke` comes to: a result, with whether the usage budget is exceeded,
-- or an error, with what a ProviderError says of itself (any other error says no to both).
pub data Outcome : Type 0 where
  answered : (budget_exceeded : Bool) → Outcome
  threw : (retryable safe_to_retry : Bool) → Outcome

pub record World : Type 0 where
  pub denied : String → Bool
  pub registered : String → Bool
  pub capabilities : String → List String
  pub available : String → Bool
  pub call : ℕ → String → Outcome

pub data Skip : Type 0 where
  policy_denied not_registered capability_mismatch unavailable : Skip

pub data Attempt : Type 0 where
  skipped : String → Skip → Attempt
  failed : String → (retryable safe_to_retry : Bool) → Attempt
  succeeded : String → Attempt

pub data Answer : Type 0 where
  routed : (provider : String) → Answer
  provider_failed : (provider : String) → Answer
  budget_exceeded : (provider : String) → Answer
  no_eligible_provider : Answer

-- The answer, or the error thrown, with the attempts recorded in either.
pub record Invocation : Type 0 where
  pub answer : Answer
  pub attempts : List Attempt

abbrev pub record_attempt : Attempt → Invocation → Invocation
record_attempt a i = record i { attempts = a ∷ i.attempts }

abbrev pub ended : Answer → Attempt → Invocation
ended answer a = record { answer = answer; attempts = a ∷ [] }

-- `hasCapabilities`.
abbrev pub has_capabilities : List String → List String → Bool
has_capabilities capabilities required = all (includes capabilities) required

-- Why a candidate is passed over, in the order of the tests.
abbrev pub skip_reason : World → List String → String → Option Skip
skip_reason w requires p =
    if w.denied p
    then some policy_denied
    else if not (w.registered p)
    then some not_registered
    else if not (has_capabilities (w.capabilities p) requires)
    then some capability_mismatch
    else if not (w.available p)
    then some unavailable
    else none

-- Whether the next candidate is tried after a failure; `calls` counts this one.
abbrev pub may_fall_back : Bool → ℕ → ℕ → Bool → Bool → Bool
may_fall_back enabled most calls retryable safe =
    enabled && (retryable && safe) && not (leb most calls)

-- What follows the call of a candidate, `rest` being the turn of the next ones.
abbrev pub after_call : Bool → ℕ → ℕ → String → Outcome → Invocation → Invocation
after_call enabled most calls p (answered exceeded) rest =
    ended (if exceeded then budget_exceeded p else routed p) (succeeded p)
after_call enabled most calls p (threw retryable safe) rest =
    if may_fall_back enabled most calls retryable safe
    then record_attempt (failed p retryable safe) rest
    else ended (provider_failed p) (failed p retryable safe)

module _ (w : World) (routing : Routing) (requires : List String) where
  -- The turn of a candidate after `calls` calls: passed over for a reason, left because the budget
  -- of calls is spent, or called. What comes then is one of the last two arguments.
  abbrev pub turn : ℕ → String → Option Skip → Invocation → Invocation → Invocation
  turn calls p (some reason) passed called = record_attempt (skipped p reason) passed
  turn calls p none passed called =
      if leb routing.max_attempts calls
      then record { answer = no_eligible_provider; attempts = [] }
      else after_call routing.fallback_enabled routing.max_attempts (calls + 1) p
          (w.call (calls + 1) p) called

  -- The loop.
  unfoldable pub try_providers : ℕ → List String → Invocation
  try_providers calls [] = record { answer = no_eligible_provider; attempts = [] }
  try_providers calls (p ∷ ps) =
      let passed = try_providers calls ps in
      let called = try_providers (calls + 1) ps in
      turn calls p (skip_reason w requires p) passed called

unfoldable pub invoke : World → Routing → Route → Invocation
unfolding try_providers
invoke w routing route = try_providers w routing route.requires 0 route.providers

-- ===== src/Router/Fallback.antt =====
-- src/providers/router.js: what `invoke` calls, how often, and after which failures it goes on.
use etnpilot.Common.{
  ℕ, ◌+◌, ◌≤◌, ◌<◌, ◌≡◌, refl, ap, Bool, true, false, ◌&&◌, Option, none, some, List, [], ◌∷◌, map,
  ◌++◌, String, leb, arith, All, count, ◌⊎◌, inl, inr, Bool-cases,
}
use etnpilot.Router.Route.{Routing, Route}
use etnpilot.Router.Invoke.{
  Outcome, answered, threw, World, Skip, Attempt, skipped, failed, succeeded, Answer, routed,
  provider_failed, budget_exceeded, no_eligible_provider, Invocation, record_attempt, skip_reason,
  may_fall_back, after_call, turn, try_providers, invoke,
}

abbrev pub is_call : Attempt → Bool
is_call (skipped p reason) = false
is_call (failed p retryable safe) = true
is_call (succeeded p) = true

abbrev pub candidate : Attempt → String
candidate (skipped p reason) = p
candidate (failed p retryable safe) = p
candidate (succeeded p) = p

-- An attempt tells the truth: a candidate is called only if no test passes it over, and is passed
-- over for the reason that holds.
abbrev pub IsTrue : World → List String → Attempt → Type 0
IsTrue w requires (skipped p reason) = skip_reason w requires p ≡ some reason
IsTrue w requires (failed p retryable safe) = skip_reason w requires p ≡ none
IsTrue w requires (succeeded p) = skip_reason w requires p ≡ none

-- Nothing follows a success, and only passed-over candidates and safe failures are followed.
abbrev pub IsSafeChain : Bool → List Attempt → Type 0
IsSafeChain enabled [] = Unit
IsSafeChain enabled (skipped p reason ∷ rest) = IsSafeChain enabled rest
IsSafeChain enabled (failed p retryable safe ∷ rest) =
    ((rest ≡ []) ⊎ ((enabled && (retryable && safe)) ≡ true)) × IsSafeChain enabled rest
IsSafeChain enabled (succeeded p ∷ rest) = rest ≡ []

-- What the attempts say of the answer: a success is the answer's provider; the failure that is
-- thrown is that of the last attempt; and no provider was eligible if none answered.
abbrev pub Explains : List Attempt → Answer → Type 0
Explains [] answer = answer ≡ no_eligible_provider
Explains (skipped p reason ∷ rest) answer = Explains rest answer
Explains (failed p retryable safe ∷ rest) answer =
    ((rest ≡ []) × (answer ≡ provider_failed p)) ⊎ Explains rest answer
Explains (succeeded p ∷ rest) answer = (answer ≡ routed p) ⊎ (answer ≡ budget_exceeded p)

-- `qs` is `ps` up to and including a place where `p` stands.
abbrev pub UpTo : String → List String → List String → Type 0
UpTo p ps qs =
    (before : List String) × (rest : List String) × (qs ≡ before ++ p ∷ [])
    × (before ++ p ∷ rest ≡ ps)

-- How far the candidates `qs` reach into the route `ps`: to the provider that the answer is about, or
-- to its end if none was eligible.
abbrev pub Reaches : List String → List String → Answer → Type 0
Reaches ps qs (routed p) = UpTo p ps qs
Reaches ps qs (provider_failed p) = UpTo p ps qs
Reaches ps qs (budget_exceeded p) = UpTo p ps qs
Reaches ps qs no_eligible_provider = qs ≡ ps

UpTo-cons : (q p : String) (ps qs : List String) → UpTo p ps qs → UpTo p (q ∷ ps) (q ∷ qs)
UpTo-cons q p ps qs (before, rest, e, d) = (q ∷ before, rest, ap (λ x. q ∷ x) e, ap (λ x. q ∷ x) d)

Reaches-cons :
    (q : String) (ps qs : List String) (a : Answer) → Reaches ps qs a → Reaches (q ∷ ps) (q ∷ qs) a
Reaches-cons q ps qs (routed p) r = UpTo-cons q p ps qs r
Reaches-cons q ps qs (provider_failed p) r = UpTo-cons q p ps qs r
Reaches-cons q ps qs (budget_exceeded p) r = UpTo-cons q p ps qs r
Reaches-cons q ps qs no_eligible_provider e = ap (λ x. q ∷ x) e

lt→leb_false : (a b : ℕ) → a < b → leb b a ≡ false
lt→leb_false a b h = ground arith

module _ (w : World) (routing : Routing) (requires : List String) where
  -- What is shown of the loop, in one induction: `calls` calls are made already.
  record Sound (calls : ℕ) (ps : List String) (i : Invocation) : Type 0 where
    bounded : count is_call i.attempts + calls ≤ routing.max_attempts
    true_attempts : All (IsTrue w requires) i.attempts
    chain : IsSafeChain routing.fallback_enabled i.attempts
    explained : Explains i.attempts i.answer
    reaches : Reaches ps (map candidate i.attempts) i.answer

  fall_back :
      (calls : ℕ) (p : String) (ps : List String) (retryable safe : Bool) (called : Invocation)
      → skip_reason w requires p ≡ none
      → may_fall_back routing.fallback_enabled routing.max_attempts (calls + 1) retryable safe
        ≡ true
      → Sound (calls + 1) ps called
      → Sound calls (p ∷ ps) (record_attempt (failed p retryable safe) called)
  fall_back calls p ps retryable safe called e on s = record {
    bounded = omega (arith, s.bounded);
    true_attempts = (e, s.true_attempts);
    chain = (inr (ground arith), s.chain);
    explained = inr s.explained;
    reaches = Reaches-cons p ps (map candidate called.attempts) called.answer s.reaches;
  }

  after_call-Sound :
      (calls : ℕ) (p : String) (ps : List String) (o : Outcome) (called : Invocation)
      → skip_reason w requires p ≡ none
      → calls < routing.max_attempts
      → (calls + 1 < routing.max_attempts → Sound (calls + 1) ps called)
      → Sound calls
          (p ∷ ps)
          (after_call routing.fallback_enabled routing.max_attempts (calls + 1) p o called)
  after_call-Sound calls p ps (answered true) called e room t = record {
    bounded = omega arith;
    true_attempts = (e, tt);
    chain = refl;
    explained = inr refl;
    reaches = ([], ps, refl, refl);
  }
  after_call-Sound calls p ps (answered false) called e room t = record {
    bounded = omega arith;
    true_attempts = (e, tt);
    chain = refl;
    explained = inl refl;
    reaches = ([], ps, refl, refl);
  }
  after_call-Sound calls p ps (threw retryable safe) called e room t =
      elim (Bool-cases
        (may_fall_back routing.fallback_enabled routing.max_attempts (calls + 1) retryable safe)) [
          | inl on ↦ rw on (fall_back calls p ps retryable safe called e on (t (ground arith)))
          | inr off ↦ rw off (record {
            bounded = omega arith;
            true_attempts = (e, tt);
            chain = (inl refl, tt);
            explained = inl (refl, refl);
            reaches = ([], ps, refl, refl);
          })
        ]

  turn-Sound :
      (calls : ℕ) (p : String) (ps : List String) (o : Option Skip) (passed called : Invocation)
      → skip_reason w requires p ≡ o
      → calls < routing.max_attempts
      → Sound calls ps passed
      → (calls + 1 < routing.max_attempts → Sound (calls + 1) ps called)
      → Sound calls (p ∷ ps) (turn w routing requires calls p o passed called)
  turn-Sound calls p ps (some reason) passed called e room s t = record {
    bounded = s.bounded;
    true_attempts = (e, s.true_attempts);
    chain = s.chain;
    explained = s.explained;
    reaches = Reaches-cons p ps (map candidate passed.attempts) passed.answer s.reaches;
  }
  turn-Sound calls p ps none passed called e room s t =
      rw (lt→leb_false calls routing.max_attempts room)
        (after_call-Sound calls p ps (w.call (calls + 1) p) called e room t)

  try_providers-Sound :
      (calls : ℕ) (ps : List String)
      → calls < routing.max_attempts
      → Sound calls ps (try_providers w routing requires calls ps)
  unfolding try_providers
  try_providers-Sound calls [] room = record {
    bounded = omega arith;
    true_attempts = tt;
    chain = tt;
    explained = refl;
    reaches = refl;
  }
  try_providers-Sound calls (p ∷ ps) room =
      turn-Sound calls p ps (skip_reason w requires p) _ _ refl room
        (try_providers-Sound calls ps room) (λ more. try_providers-Sound (calls + 1) ps more)

-- The loop starts with no call made, so with a budget of at least one call the test of the budget
-- inside it never ends it.
module _ (w : World) (routing : Routing) (route : Route) (positive : 1 ≤ routing.max_attempts) where
  -- With a budget of at least one call, `invoke` makes at most as many calls as the budget says. Its
  -- attempts are, one for one and in order, the route's providers up to and including the one that the
  -- answer is about (that is returned, failed or exceeds its budget), or all of them if none was
  -- eligible: each candidate it got past is recorded. Those that it called no test passes over, and each
  -- other one is recorded with the reason that holds for it.
  pub invoke_eligible :
      (count is_call (invoke w routing route).attempts ≤ routing.max_attempts)
      × All (IsTrue w route.requires) (invoke w routing route).attempts
      × Reaches route.providers
          (map candidate (invoke w routing route).attempts)
          (invoke w routing route).answer
  unfolding invoke
  invoke_eligible =
      let s = try_providers-Sound w routing route.requires 0 route.providers positive in
      (omega (arith, s.bounded), s.true_attempts, s.reaches)

  -- With a budget of at least one call, a failed call is followed by another attempt only if
  -- fallback is enabled and the error said that it may be retried and is safe to repeat, and nothing
  -- follows a success.
  pub invoke-IsSafeChain : IsSafeChain routing.fallback_enabled (invoke w routing route).attempts
  unfolding invoke
  invoke-IsSafeChain =
      (try_providers-Sound w routing route.requires 0 route.providers positive).chain

  -- With a budget of at least one call, the attempts explain the answer: a success is the provider
  -- that is answered or whose budget is exceeded, a failure that is thrown is that of the last
  -- attempt, and otherwise no provider was eligible.
  pub invoke_explained : Explains (invoke w routing route).attempts (invoke w routing route).answer
  unfolding invoke
  invoke_explained =
      (try_providers-Sound w routing route.requires 0 route.providers positive).explained

-- ===== src/Workflow/Starts.antt =====
-- src/workflow/engine.js: the loops that start and that block steps keep what holds of a run.
use etnpilot.Common.{
  ◌≡◌, ◌⊎◌, refl, ap, ◌∙◌, Bool, true, false, ◌&&◌, Option, none, some, List, [], ◌∷◌, ◌++◌, String,
  str_eq, if◌then◌else◌, any, includes, any-append, Keyed, length, ltb→lt, arith, Bool-cases, inl,
  inr, str_eq→eq, eq→str_eq, eq_refl, some-injective, and_true,
}
use etnpilot.Workflow.Steps.{
  Step, Status, fail_fast, dependency_failed, pending, running, succeeded, failed, blocked, States,
  set, is_pending, is_running, is_lost, needs_met, needs_lost, is_ready, ready_steps,
  dependency_results,
}
use etnpilot.Workflow.Engine.{
  Call, blocking, launching, Engine, Config, block_pending, is_stopping, can_start, end_round,
  start_scan, fail_fast_block, start_ready, block_scan, launch,
}
use etnpilot.Workflow.Changes.{set-Keeps}
use etnpilot.Workflow.Invariant.{
  is_call, Fed-Keeps, Core, Core-set, Core-block_pending, Core-launch, Queued, Launching, Tracked,
  Sound,
}
use etnpilot.Workflow.Rounds.{
  pending_not-succeeded, dependency_results-Fed, given_not-none, keep-Startable, keep-Keyed, Base,
  Queued-set, end_round-Sound,
}

module _ (config : Config) (steps : List Step) where
  start_one :
      (e : Engine) (s : Step) (rest : List Step)
      → Base config steps e
      → Queued config steps e.states (s ∷ rest)
      → can_start config steps e ≡ true
      → Sound config steps (record e {
        states = set s.id running e.states;
        phase =
            launching (record { step = s.id; inputs = dependency_results e.states s.needs }) rest;
      })
  start_one e s rest (core, tracked) queued able =
      let waits = queued.0.0.waits in
      let unsettled = pending_not-succeeded (e.states s.id) waits in
      record {
        core =
            Core-set config steps e.states e.active e.fatal e.calls core s.id running e.fatal
              unsettled refl
              (λ t m same started.
                ap (needs_met e.states) (queued.0.0.alone t m same) ∙ queued.0.0.met)
              (λ n. (n, refl));
        tracked = λ k h. elim (Bool-cases (str_eq s.id k)) [
          | inl same ↦ inr (ap (λ x. some x) (str_eq→eq s.id k same))
          | inr other ↦ before k (tracked k (rw other at h))
        ];
        in_phase = record {
          marked = rw (eq_refl s.id) refl;
          not_active = free (includes e.active s.id) refl waits;
          not_called = uncalled (any (is_call s.id) e.calls) refl waits;
          given =
              Fed-Keeps steps e.states (set s.id running e.states)
                (record { step = s.id; inputs = dependency_results e.states s.needs })
                (set-Keeps s.id running e.states unsettled refl)
                (dependency_results-Fed steps e.states s queued.0.0.member queued.0.0.met);
          room = ltb→lt (length e.active) config.concurrency (ground arith);
          queued = (
            Queued-set config steps s.id running e.states rest unsettled refl queued.1.0 queued.0.1,
            queued.1.1,
          );
        };
      }
    where
      before :
          (k : String)
          → (includes e.active k ≡ true) ⊎ (◌≡◌ {A = Option String} none (some k))
          → (includes e.active k ≡ true) ⊎ (◌≡◌ {A = Option String} (some s.id) (some k))
      before k (inl h) = inl h
      before k (inr h) = absurd (cc)

      free :
          (b : Bool)
          → includes e.active s.id ≡ b
          → is_pending (e.states s.id) ≡ true
          → includes e.active s.id ≡ false
      free false h w = h
      free true h w = absurd (cc (core.held s.id h, w))

      uncalled :
          (b : Bool)
          → any (is_call s.id) e.calls ≡ b
          → is_pending (e.states s.id) ≡ true
          → any (is_call s.id) e.calls ≡ false
      uncalled false h w = h
      uncalled true h w = absurd (cc (core.called s.id h, w))

  pub start_scan-Sound :
      (rest : List Step) (e : Engine)
      → Base config steps e
      → Queued config steps e.states rest
      → Sound config steps (start_scan config steps rest e)
  start_scan-Sound [] e base queued = end_round-Sound config steps e base
  start_scan-Sound (s ∷ rest) e base queued = go (can_start config steps e) refl
    where
      go :
          (b : Bool)
          → can_start config steps e ≡ b
          → Sound config steps (
              if b
              then record e {
                states = set s.id running e.states;
                phase =
                    launching
                      (record { step = s.id; inputs = dependency_results e.states s.needs })
                      rest;
              }
              else end_round config steps e)
      go true able = start_one e s rest base queued able
      go false full = end_round-Sound config steps e base

  pub launch-Base :
      (call : Call) (rest : List Step) (e : Engine)
      → Core config steps e.states e.active e.fatal e.calls
      → Tracked config steps (launching call rest) e.states e.active
      → Launching config steps e.states e.active e.calls call rest
      → Base config steps (launch config steps call e)
  launch-Base call rest e core tracked l = (
    Core-launch config steps e.states e.active e.fatal e.calls core call rest l,
    λ k h. inl (joined k (tracked k h)),
  )
    where
      joined :
          (k : String)
          → (includes e.active k ≡ true) ⊎ (some call.step ≡ some k)
          → includes (e.active ++ call.step ∷ []) k ≡ true
      joined k (inl h) = any-append (λ x. str_eq x k) e.active (call.step ∷ []) ∙ ground arith
      joined k (inr h) =
          any-append (λ x. str_eq x k) e.active (call.step ∷ [])
          ∙ ground (arith, eq→str_eq call.step k (some-injective h))

  needs_lost-fatal :
      (f : States) (ns : List String)
      → ((k : String) → is_lost (f k) ≡ false)
      → any (λ n. is_lost (f n)) ns ≡ false
  needs_lost-fatal f [] h = refl
  needs_lost-fatal f (n ∷ ns) h = ground (arith, h n, needs_lost-fatal f ns h)

  start_ready-Sound :
      (e : Engine)
      → Keyed (λ s. s.id) steps
      → Base config steps e
      → Sound config steps (start_ready config steps e)
  start_ready-Sound e keyed base = start_scan-Sound (ready_steps e.states steps) e base (
    keep-Startable steps e.states steps (λ s m. m) keyed,
    keep-Keyed (is_ready e.states) steps keyed,
  )

  pub fail_fast_block-Base :
      (e : Engine) → Base config steps e → Base config steps (fail_fast_block config steps e)
  fail_fast_block-Base e (core, tracked) = go (is_stopping config steps e) refl
    where
      still :
          (v : Status)
          → is_running (elim v [ pending ↦ blocked fail_fast | w ↦ w ]) ≡ true
          → is_running v ≡ true
      still pending h = h
      still running h = h
      still (succeeded r) h = h
      still (failed x) h = h
      still (blocked r) h = h

      go :
          (b : Bool)
          → is_stopping config steps e ≡ b
          → Base config steps (if b then record e { states = block_pending e.states } else e)
      go true s = (
        Core-block_pending config steps e.states e.active e.fatal e.calls core
            (given_not-none e.fatal (ground arith)),
        λ k h. tracked k (still (e.states k) h),
      )
      go false s = (core, tracked)

  pub block_scan-Sound :
      (rest : List Step) (e : Engine)
      → Keyed (λ s. s.id) steps
      → Base config steps e
      → Sound config steps (block_scan config steps rest e)
  block_scan-Sound [] e keyed base =
      start_ready-Sound (fail_fast_block config steps e) keyed (fail_fast_block-Base e base)
  block_scan-Sound (s ∷ rest) e keyed base =
      go (is_pending (e.states s.id) && needs_lost e.states s) refl base
        (block_scan-Sound rest e keyed base)
    where
      go :
          (b : Bool)
          → (is_pending (e.states s.id) && needs_lost e.states s) ≡ b
          → Base config steps e
          → Sound config steps (block_scan config steps rest e)
          → Sound config steps (
              if b
              then record e {
                states = set s.id (blocked dependency_failed) e.states;
                phase = blocking rest;
              }
              else block_scan config steps rest e)
      go false h base next = next
      go true h (core, tracked) next = record {
        core =
            Core-set config steps e.states e.active e.fatal e.calls core s.id
              (blocked dependency_failed) e.fatal
              (pending_not-succeeded (e.states s.id) (ground arith)) refl
              (λ t m same started. absurd (cc))
              (λ n. absurd (
                cc (
                  needs_lost-fatal e.states s.needs (core.clean n),
                  (and_true (is_pending (e.states s.id)) (needs_lost e.states s) h).1,
                )));
        tracked = λ k r. elim (Bool-cases (str_eq s.id k)) [
          | inl same ↦ absurd (cc (rw same at r))
          | inr other ↦ tracked k (rw other at r)
        ];
        in_phase = tt;
      }

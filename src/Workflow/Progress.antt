-- ===== src/Workflow/Progress.antt =====
-- src/workflow/engine.js: a run that fails fast is never stalled.
use mathlib.Core.List.{Memᴰ}
use mathlib.Core.List.Memᴰ.{head, tail}
use etnpilot.Common.{
  ◌≤◌, ◌≡◌, ◌⊎◌, refl, sym, ap, ◌∙◌, subst, Bool, true, false, not, Option, none, some, List, [],
  ◌∷◌, ◌++◌, String, str_eq, any, all, includes, length, All, arith, Bool-cases, if_cases, inl, inr,
  lt→ltb, eq_iff,
}
use etnpilot.Workflow.Steps.{
  Step, Status, fail_fast, pending, running, succeeded, failed, blocked, States, is_pending,
  is_running, is_succeeded, is_lost, is_ready, ready_steps,
}
use etnpilot.Workflow.Engine.{
  Phase, stalled, Engine, Config, is_given, is_empty, block_pending, is_stopping, can_start,
  end_round, start_scan, start_ready,
}
use etnpilot.Workflow.Graph.{ids_of}
use etnpilot.Workflow.Rounds.{Base}
use etnpilot.Workflow.Orders.{Order, first_of}

abbrev pub is_stalled : Phase → Bool
is_stalled stalled = true
is_stalled _ = false

pub is_empty-append : (xs : List String) (x : String) → is_empty (xs ++ x ∷ []) ≡ false
is_empty-append [] x = refl
is_empty-append (y ∷ ys) x = refl

is_empty-includes : (xs : List String) (k : String) → is_empty xs ≡ true → includes xs k ≡ false
is_empty-includes [] k h = refl
is_empty-includes (x ∷ xs) k h = absurd (cc)

is_empty-length : (xs : List String) → is_empty xs ≡ true → length xs ≡ 0
is_empty-length [] h = refl
is_empty-length (x ∷ xs) h = absurd (cc)

-- A status that is not pending, not running and not lost.
rest-succeeded :
    (v : Status)
    → is_pending v ≡ false
    → is_running v ≡ false
    → is_lost v ≡ false
    → is_succeeded v ≡ true
rest-succeeded pending a b c = absurd (cc)
rest-succeeded running a b c = absurd (cc)
rest-succeeded (succeeded r) a b c = refl
rest-succeeded (failed e) a b c = absurd (cc)
rest-succeeded (blocked r) a b c = absurd (cc)

pub block_pending_none :
    (f : States) (ss : List Step) → any (λ s. is_pending (block_pending f s.id)) ss ≡ false
block_pending_none f [] = refl
block_pending_none f (s ∷ ss) = ground (arith, gone (f s.id), block_pending_none f ss)
  where
    gone : (v : Status) → is_pending (elim v [ pending ↦ blocked fail_fast | w ↦ w ]) ≡ false
    gone pending = refl
    gone running = refl
    gone (succeeded r) = refl
    gone (failed e) = refl
    gone (blocked r) = refl

any-ids :
    (p : String → Bool) (ss : List Step) (ids : List String)
    → All (λ x. includes ids x ≡ true) (ids_of ss)
    → any (λ s. p s.id) ss ≡ true
    → any p ids ≡ true
any-ids p [] ids w h = absurd (cc)
any-ids p (s ∷ ss) ids w h = elim (Bool-cases (p s.id)) [
  | inl here ↦ found ids w.0 here
  | inr other ↦ any-ids p ss ids w.1 (ground arith)
]
  where
    found : (xs : List String) → includes xs s.id ≡ true → p s.id ≡ true → any p xs ≡ true
    found [] m e = absurd (cc)
    found (x ∷ xs) m e = elim (Bool-cases (str_eq x s.id)) [
      | inl same ↦ ground (arith, ap p ((eq_iff x s.id).0 same))
      | inr different ↦ ground (arith, found xs (ground arith) e)
    ]

ready-some :
    (f : States) (ss : List Step) (s : Step)
    → Memᴰ s ss
    → is_ready f s ≡ true
    → (r : Step) × (rest : List Step) × (ready_steps f ss ≡ r ∷ rest)
ready-some f [] s m h = elim m [ ]
ready-some f (x ∷ xs) s (head e) h = (x, ready_steps f xs, rw (ap (is_ready f) (sym e) ∙ h) refl)
ready-some f (x ∷ xs) s (tail m) h = elim (Bool-cases (is_ready f x)) [
  | inl now ↦ (x, ready_steps f xs, rw now refl)
  | inr later ↦ let (r, rest, e) = ready-some f xs s m h in (r, rest, rw later e)
]

abbrev pub IsMoving : Engine → Type 0
IsMoving e = is_stalled e.phase ≡ false

module _ (config : Config) (steps : List Step) where
  -- What the loop that starts steps leads to.
  pub end_round-active :
      (e : Engine) → is_empty e.active ≡ false → IsMoving (end_round config steps e)
  end_round-active e h =
      if_cases IsMoving (not (is_empty e.active)) (λ t. refl) (λ n. absurd (ground arith))

  pub end_round-quiet :
      (e : Engine)
      → any (λ s. is_pending (e.states s.id)) steps ≡ false
      → IsMoving (end_round config steps e)
  end_round-quiet e h =
      if_cases IsMoving (not (is_empty e.active)) (λ t. refl)
        (λ n.
          if_cases IsMoving (any (λ s. is_pending (e.states s.id)) steps) (λ t. absurd (cc))
            (λ f. refl))

  pub start_scan-end :
      (rest : List Step) (e : Engine)
      → IsMoving (end_round config steps e)
      → IsMoving (start_scan config steps rest e)
  start_scan-end [] e h = h
  start_scan-end (s ∷ rest) e h = if_cases IsMoving (can_start config steps e) (λ t. refl) (λ f. h)

  pub start_scan-able :
      (s : Step) (rest : List Step) (e : Engine)
      → can_start config steps e ≡ true
      → IsMoving (start_scan config steps (s ∷ rest) e)
  start_scan-able s rest e h =
      if_cases IsMoving (can_start config steps e) (λ t. refl) (λ f. absurd (cc))

  module _ (order : Order steps) (early : config.stops_early ≡ true)
      (some_slot : 1 ≤ config.concurrency) where
    -- A step that can be started, when nothing runs and nothing is lost.
    idle-ready :
        (e : Engine)
        → Base config steps e
        → is_empty e.active ≡ true
        → ((k : String) → is_lost (e.states k) ≡ false)
        → any (λ s. is_pending (e.states s.id)) steps ≡ true
        → (s : Step) × Memᴰ s steps × (is_ready e.states s ≡ true)
    idle-ready e (core, tracked) idle unlost some_pending =
        let (s, m, waits, settled_needs) =
          first_of steps (λ k. is_pending (e.states k)) order.ids order.later order.known
            (any-ids (λ k. is_pending (e.states k)) steps order.ids order.whole some_pending) in
        (s, m, ground (arith, waits, met s.needs settled_needs))
      where
        unrun :
            (k : String) (b : Bool) → is_running (e.states k) ≡ b → is_running (e.states k) ≡ false
        unrun k false h = h
        unrun k true h = none_active (tracked k h)
          where
            none_active :
                (includes e.active k ≡ true) ⊎ (◌≡◌ {A = Option String} none (some k))
                → is_running (e.states k) ≡ false
            none_active (inl a) = absurd (cc (is_empty-includes e.active k idle, a))
            none_active (inr a) = absurd (cc)

        met :
            (ns : List String)
            → All (λ n. is_pending (e.states n) ≡ false) ns
            → all (λ n. is_succeeded (e.states n)) ns ≡ true
        met [] h = refl
        met (n ∷ ns) h = ground (
          arith,
          rest-succeeded (e.states n) h.0 (unrun n (is_running (e.states n)) refl) (unlost n),
          met ns h.1,
        )

    pub start_ready-IsMoving :
        (e : Engine)
        → Base config steps e
        → is_stopping config steps e ≡ false
        → IsMoving (start_ready config steps e)
    start_ready-IsMoving e base going = elim (Bool-cases (is_empty e.active)) [
      | inr busy ↦ start_scan-end (ready_steps e.states steps) e (end_round-active e busy)
      | inl idle ↦ elim (Bool-cases (any (λ s. is_pending (e.states s.id)) steps)) [
        | inr quiet ↦ start_scan-end (ready_steps e.states steps) e (end_round-quiet e quiet)
        | inl waiting_steps ↦
            let unlost = base.0.clean (no_error e.fatal (ground (arith, going, early))) in
            let (s, m, r) = idle-ready e base idle unlost waiting_steps in
            let (x, rest, q) = ready-some e.states steps s m r in
            subst (λ xs. IsMoving (start_scan config steps xs e)) (sym q)
              (start_scan-able x rest e (
                ground (
                  arith,
                  going,
                  lt→ltb (length e.active) config.concurrency
                      (omega (arith, some_slot, is_empty-length e.active idle)),
                )))
      ]
    ]
      where
        no_error : (o : Option String) → is_given o ≡ false → o ≡ none
        no_error none h = refl
        no_error (some x) h = absurd (cc)

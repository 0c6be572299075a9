-- ===== src/Workflow/Settling.antt =====
-- src/workflow/engine.js: what the promises of the steps do keeps what holds of a run.
use etnpilot.Common.{
  ◌≡◌, ◌⊎◌, refl, sym, ap, ◌∙◌, Bool, true, false, ◌&&◌, not, Option, none, some, List, [], ◌∷◌,
  String, str_eq, if◌then◌else◌, includes, All, any-keep, length-keep, arith, Bool-cases, inl, inr,
  str_eq→eq, and_true,
}
use etnpilot.Workflow.Steps.{
  Step, Status, pending, running, succeeded, failed, blocked, States, set, is_pending, is_running,
  is_succeeded, is_lost,
}
use etnpilot.Workflow.Engine.{
  Phase, looping, waiting, finished, stalled, stopped, blocking, launching, Engine, Config,
  Settlement, resolved, rejected, settled_status, fatal_after, delete, settle, leave, awakened,
}
use etnpilot.Workflow.Changes.{is_started, set-Keeps, Startable, Startable-set}
use etnpilot.Workflow.Invariant.{
  Fed-Keeps, Core-set, Core-delete, InPhase, Sound, launched_id, includes-delete,
}

running_not-succeeded : (v : Status) → is_running v ≡ true → is_succeeded v ≡ false
running_not-succeeded pending h = refl
running_not-succeeded running h = refl
running_not-succeeded (succeeded r) h = absurd (cc)
running_not-succeeded (failed e) h = refl
running_not-succeeded (blocked r) h = refl

running-started : (v : Status) → is_running v ≡ true → is_started v ≡ true
running-started pending h = absurd (cc)
running-started running h = refl
running-started (succeeded r) h = absurd (cc)
running-started (failed e) h = absurd (cc)
running-started (blocked r) h = absurd (cc)

settled_not-pending : (o : Settlement) → is_pending (settled_status o) ≡ false
settled_not-pending (resolved r) = refl
settled_not-pending (rejected e) = refl

settled_not-running : (o : Settlement) → is_running (settled_status o) ≡ false
settled_not-running (resolved r) = refl
settled_not-running (rejected e) = refl

fatal_after-none :
    (o : Settlement) (fatal : Option String)
    → fatal_after o fatal ≡ none
    → (fatal ≡ none) × (is_lost (settled_status o) ≡ false)
fatal_after-none (resolved r) fatal h = (h, refl)
fatal_after-none (rejected e) none h = absurd (cc)
fatal_after-none (rejected e) (some x) h = absurd (cc)

module _ (config : Config) (steps : List Step) where
  Startable-settled :
      (id : String) (v : Status) (f : States) (rest : List Step)
      → is_running (f id) ≡ true
      → is_pending v ≡ false
      → All (Startable steps f) rest
      → All (Startable steps (set id v f)) rest
  Startable-settled id v f [] r m q = tt
  Startable-settled id v f (s ∷ rest) r m q = (
    Startable-set steps id v f s (running_not-succeeded (f id) r) m (apart (str_eq id s.id) refl)
        q.0,
    Startable-settled id v f rest r m q.1,
  )
    where
      apart : (b : Bool) → str_eq id s.id ≡ b → str_eq id s.id ≡ false
      apart false h = h
      apart true h =
          absurd
            (clash (f s.id) q.0.waits (ap (λ k. is_running (f k)) (sym (str_eq→eq id s.id h)) ∙ r))
        where
          clash : (w : Status) → is_pending w ≡ true → is_running w ≡ true → ⊥
          clash pending a b = cc
          clash running a b = cc
          clash (succeeded x) a b = cc
          clash (failed x) a b = cc
          clash (blocked x) a b = cc

  settle_running :
      (id : String) (o : Settlement) (e : Engine)
      → Sound config steps e
      → includes e.active id ≡ true
      → is_running (e.states id) ≡ true
      → Sound config steps
          (record e { states = set id (settled_status o) e.states; fatal = fatal_after o e.fatal })
  settle_running id o e sound here runs = record {
    core =
        Core-set config steps e.states e.active e.fatal e.calls sound.core id (settled_status o)
          (fatal_after o e.fatal) (running_not-succeeded (e.states id) runs) (settled_not-pending o)
          (λ t m same started.
            sound.core.ordered t m
              (ap (λ k. is_started (e.states k)) same ∙ running-started (e.states id) runs))
          (fatal_after-none o e.fatal);
    tracked = λ k h. elim (Bool-cases (str_eq id k)) [
      | inl same ↦ absurd (cc (rw same at h, settled_not-running o))
      | inr other ↦ sound.tracked k (rw other at h)
    ];
    in_phase = by_phase e.phase sound.in_phase;
  }
    where
      by_phase :
          (p : Phase)
          → InPhase config steps p e.states e.active e.calls
          → InPhase config steps p (set id (settled_status o) e.states) e.active e.calls
      by_phase looping h = h
      by_phase waiting h = h
      by_phase finished h = h
      by_phase stalled h = h
      by_phase stopped h = h
      by_phase (blocking rest) h = h
      by_phase (launching call rest) h = record {
        marked = elim (Bool-cases (str_eq id call.step)) [
          | inl same ↦
              absurd (cc (ap (includes e.active) (str_eq→eq id call.step same), here, h.not_active))
          | inr other ↦ rw other h.marked
        ];
        not_active = h.not_active;
        not_called = h.not_called;
        given =
            Fed-Keeps steps e.states (set id (settled_status o) e.states) call
              (set-Keeps id (settled_status o) e.states (running_not-succeeded (e.states id) runs)
                (settled_not-pending o))
              h.given;
        room = h.room;
        queued = (
          Startable-settled id (settled_status o) e.states rest runs (settled_not-pending o)
              h.queued.0,
          h.queued.1,
        );
      }

  pub settle-Sound :
      (id : String) (o : Settlement) (e : Engine)
      → Sound config steps e
      → Sound config steps (settle config steps id o e)
  settle-Sound id o e sound = go (includes e.active id && is_running (e.states id)) refl
    where
      go :
          (b : Bool)
          → (includes e.active id && is_running (e.states id)) ≡ b
          → Sound config steps (
              if b
              then record e {
                states = set id (settled_status o) e.states;
                fatal = fatal_after o e.fatal;
              }
              else e)
      go true h =
          let (here, runs) = and_true (includes e.active id) (is_running (e.states id)) h in
          settle_running id o e sound here runs
      go false h = sound

  leave_settled :
      (id : String) (e : Engine)
      → Sound config steps e
      → is_running (e.states id) ≡ false
      → Sound config steps
          (record e { active = delete id e.active; phase = awakened config steps e.phase })
  leave_settled id e sound done = record {
    core = Core-delete config steps e.states e.active e.fatal e.calls sound.core id;
    tracked = λ k h. still e.phase k h (sound.tracked k h);
    in_phase = by_phase e.phase sound.in_phase;
  }
    where
      kept :
          (k : String)
          → is_running (e.states k) ≡ true
          → includes e.active k ≡ true
          → includes (delete id e.active) k ≡ true
      kept k h a = elim (Bool-cases (str_eq id k)) [
        | inl same ↦ absurd (cc (ap (λ j. is_running (e.states j)) (str_eq→eq id k same), done, h))
        | inr other ↦ includes-delete id k e.active other a
      ]

      still :
          (p : Phase) (k : String)
          → is_running (e.states k) ≡ true
          → (includes e.active k ≡ true) ⊎ (launched_id p ≡ some k)
          → (includes (delete id e.active) k ≡ true)
            ⊎ (launched_id (awakened config steps p) ≡ some k)
      still p k h (inl a) = inl (kept k h a)
      still looping k h (inr b) = inr b
      still waiting k h (inr b) = absurd (cc)
      still finished k h (inr b) = inr b
      still stalled k h (inr b) = inr b
      still stopped k h (inr b) = inr b
      still (blocking rest) k h (inr b) = inr b
      still (launching call rest) k h (inr b) = inr b

      gone :
          (k : String) (b : Bool)
          → includes (delete id e.active) k ≡ b
          → includes e.active k ≡ false
          → includes (delete id e.active) k ≡ false
      gone k false e1 h = e1
      gone k true e1 h =
          absurd (cc (any-keep (λ x. str_eq x k) (λ x. not (str_eq x id)) e.active e1, h))

      by_phase :
          (p : Phase)
          → InPhase config steps p e.states e.active e.calls
          → InPhase config steps (awakened config steps p) e.states (delete id e.active) e.calls
      by_phase looping h = h
      by_phase waiting h = tt
      by_phase finished h = h
      by_phase stalled h = h
      by_phase stopped h = h
      by_phase (blocking rest) h = h
      by_phase (launching call rest) h = record {
        marked = h.marked;
        not_active = gone call.step (includes (delete id e.active) call.step) refl h.not_active;
        not_called = h.not_called;
        given = h.given;
        room = omega (arith, length-keep (λ x. not (str_eq x id)) e.active, h.room);
        queued = h.queued;
      }

  pub leave-Sound :
      (id : String) (e : Engine)
      → Sound config steps e
      → Sound config steps (leave config steps id e)
  leave-Sound id e sound = go (is_running (e.states id)) refl (includes e.active id)
    where
      go :
          (b : Bool)
          → is_running (e.states id) ≡ b
          → (c : Bool)
          → Sound config steps (
              if c && not b
              then record e { active = delete id e.active; phase = awakened config steps e.phase }
              else e)
      go false h true = leave_settled id e sound h
      go false h false = sound
      go true h true = sound
      go true h false = sound

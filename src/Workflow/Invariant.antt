-- ===== src/Workflow/Invariant.antt =====
-- src/workflow/engine.js: what holds of a run whenever it awaits.
use mathlib.Core.List.{Memᴰ}
use etnpilot.Common.{
  ◌≤◌, ◌<◌, ◌≡◌, ◌⊎◌, refl, sym, ap, ◌∙◌, Bool, true, false, not, Option, none, some, List, [], ◌∷◌,
  ◌++◌, String, str_eq, any, includes, All, All-append, All-map, map, Json, Keyed, Keyed-insert,
  length, length-append, length-keep, any-keep, any-append, arith, Bool-cases, inl, inr, str_eq→eq,
  eq_iff,
}
use etnpilot.Workflow.Steps.{
  Step, Status, pending, running, succeeded, failed, blocked, States, set, is_pending, is_running,
  is_succeeded, is_lost, needs_met,
}
use etnpilot.Workflow.Engine.{
  Call, Phase, waiting, launching, Engine, Config, is_empty, block_pending, delete,
}
use etnpilot.Workflow.Changes.{
  is_started, Keeps, Ordered, Startable, set-Keeps, set-Ordered, block_pending-Keeps,
  block_pending-Ordered,
}

abbrev pub is_call : String → Call → Bool
is_call k c = str_eq c.step k

-- The call has the result of each need of its step: the names are the needs, in their order, and the value
-- under each is the one that this step has succeeded with.
abbrev pub Fed : List Step → States → Call → Type 0
Fed steps f c =
    (s : Step) × Memᴰ s steps
    × (s.id ≡ c.step)
    × (map (λ i. i.0) c.inputs ≡ s.needs)
    × All (λ i. (r : Json) × (i.1 ≡ some r) × (f i.0 ≡ succeeded r)) c.inputs

pub Fed-Keeps :
    (steps : List Step) (f g : States) (c : Call) → Keeps f g → Fed steps f c → Fed steps g c
Fed-Keeps steps f g c keeps (s, m, named, needs, values) = (
  s,
  m,
  named,
  needs,
  All-map (λ i. (r : Json) × (i.1 ≡ some r) × (f i.0 ≡ succeeded r))
      (λ i. (r : Json) × (i.1 ≡ some r) × (g i.0 ≡ succeeded r)) c.inputs
      (λ i (r, e, h). (r, e, keeps.success i.0 r h)) values,
)

pub running_not-pending : (v : Status) → is_running v ≡ true → is_pending v ≡ false
running_not-pending pending h = absurd (cc)
running_not-pending running h = refl
running_not-pending (succeeded r) h = absurd (cc)
running_not-pending (failed e) h = absurd (cc)
running_not-pending (blocked r) h = absurd (cc)

-- What deleting one name leaves.
pub includes-delete :
    (id k : String) (xs : List String)
    → str_eq id k ≡ false
    → includes xs k ≡ true
    → includes (delete id xs) k ≡ true
includes-delete id k [] ne h = h
includes-delete id k (x ∷ xs) ne h =
    ground (arith, includes-delete id k xs, eq_iff x id, eq_iff x k, eq_iff id k)

abbrev pub launched_id : Phase → Option String
launched_id (launching call rest) = some call.step
launched_id _ = none

module _ (config : Config) (steps : List Step) where
  -- The facts that hold in every phase: of the states, the map `running`, the error and the calls.
  pub record Core (f : States) (active : List String) (fatal : Option String) (calls : List Call)
      : Type 0 where
    pub slots : length active ≤ config.concurrency
    pub ordered : Ordered steps f
    pub clean : fatal ≡ none → (k : String) → is_lost (f k) ≡ false
    pub held : (k : String) → includes active k ≡ true → is_pending (f k) ≡ false
    pub called : (k : String) → any (is_call k) calls ≡ true → is_pending (f k) ≡ false
    pub once : Keyed (λ c. c.step) calls
    pub fed : All (Fed steps f) calls

  -- The steps that are still to be started.
  abbrev pub Queued : States → List Step → Type 0
  Queued f rest = All (Startable steps f) rest × Keyed (λ s. s.id) rest

  -- A step that is marked as running, and not called yet.
  pub record Launching (f : States) (active : List String) (calls : List Call) (call : Call)
      (rest : List Step) : Type 0 where
    pub marked : is_running (f call.step) ≡ true
    pub not_active : includes active call.step ≡ false
    pub not_called : any (is_call call.step) calls ≡ false
    pub given : Fed steps f call
    pub room : length active < config.concurrency
    pub queued : Queued f rest

  abbrev pub InPhase : Phase → States → List String → List Call → Type 0
  InPhase (launching call rest) f active calls = Launching f active calls call rest
  InPhase waiting f active calls = is_empty active ≡ false
  InPhase _ f active calls = Unit

  -- A running step is in the map, or about to be.
  abbrev pub Tracked : Phase → States → List String → Type 0
  Tracked p f active =
      (k : String) → is_running (f k) ≡ true → (includes active k ≡ true) ⊎ (launched_id p ≡ some k)

  pub record Sound (e : Engine) : Type 0 where
    pub core : Core e.states e.active e.fatal e.calls
    pub tracked : Tracked e.phase e.states e.active
    pub in_phase : InPhase e.phase e.states e.active e.calls

  module _ (f : States) (active : List String) (fatal : Option String) (calls : List Call)
      (core : Core f active fatal calls) where
    Core-change :
        (g : States) (fatal' : Option String)
        → Keeps f g
        → Ordered steps g
        → (fatal' ≡ none → (k : String) → is_lost (g k) ≡ false)
        → Core g active fatal' calls
    Core-change g fatal' keeps ordered clean = record {
      slots = core.slots;
      ordered = ordered;
      clean = clean;
      held = λ k h. keeps.done k (core.held k h);
      called = λ k h. keeps.done k (core.called k h);
      once = core.once;
      fed = All-map (Fed steps f) (Fed steps g) calls (λ c. Fed-Keeps steps f g c keeps) core.fed;
    }

    -- One entry changes that is neither pending nor succeeded afterwards or before.
    pub Core-set :
        (k : String) (v : Status) (fatal' : Option String)
        → is_succeeded (f k) ≡ false
        → is_pending v ≡ false
        → ((t : Step) → Memᴰ t steps → t.id ≡ k → is_started v ≡ true → needs_met f t ≡ true)
        → (fatal' ≡ none → (fatal ≡ none) × (is_lost v ≡ false))
        → Core (set k v f) active fatal' calls
    Core-set k v fatal' unsettled moved earned lost =
        Core-change (set k v f) fatal' (set-Keeps k v f unsettled moved)
          (set-Ordered steps k v f unsettled moved earned core.ordered)
          (λ n j. elim (Bool-cases (str_eq k j)) [
            | inl same ↦ rw same (lost n).1
            | inr other ↦ rw other (core.clean (lost n).0 j)
          ])

    pub Core-block_pending : (fatal ≡ none → ⊥) → Core (block_pending f) active fatal calls
    Core-block_pending stops =
        Core-change (block_pending f) fatal (block_pending-Keeps f)
          (block_pending-Ordered steps f core.ordered) (λ n. absurd (stops n))

    pub Core-launch :
        (call : Call) (rest : List Step)
        → Launching f active calls call rest
        → Core f (active ++ call.step ∷ []) fatal (calls ++ call ∷ [])
    Core-launch call rest l = record {
      slots = omega (arith, length-append active (call.step ∷ []), l.room);
      ordered = core.ordered;
      clean = core.clean;
      held = λ k h. elim (Bool-cases (includes active k)) [
        | inl old ↦ core.held k old
        | inr fresh ↦ moved k (ground (arith, any-append (λ x. str_eq x k) active (call.step ∷ [])))
      ];
      called = λ k h. elim (Bool-cases (any (is_call k) calls)) [
        | inl old ↦ core.called k old
        | inr fresh ↦ moved k (ground (arith, any-append (is_call k) calls (call ∷ [])))
      ];
      once = Keyed-insert (λ c. c.step) call calls l.not_called core.once;
      fed = All-append (Fed steps f) calls (call ∷ []) core.fed (l.given, tt);
    }
      where
        moved : (k : String) → str_eq call.step k ≡ true → is_pending (f k) ≡ false
        moved k same =
            running_not-pending (f k)
              (ap (λ j. is_running (f j)) (sym (str_eq→eq call.step k same)) ∙ l.marked)

    pub Core-delete : (id : String) → Core f (delete id active) fatal calls
    Core-delete id = record {
      slots = omega (arith, length-keep (λ x. not (str_eq x id)) active, core.slots);
      ordered = core.ordered;
      clean = core.clean;
      held = λ k h. core.held k (any-keep (λ x. str_eq x k) (λ x. not (str_eq x id)) active h);
      called = core.called;
      once = core.once;
      fed = core.fed;
    }

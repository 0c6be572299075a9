-- ===== src/Workflow/Changes.antt =====
-- src/workflow/engine.js: how a change of one entry of `states` bears on the steps that wait for others.
use mathlib.Core.List.{Memᴰ}
use mathlib.Core.List.Memᴰ.{head, tail}
use etnpilot.Common.{
  ◌≡◌, refl, sym, ap, ◌∙◌, Bool, true, false, List, [], ◌∷◌, String, str_eq, any, all, Keyed,
  by_key, Json, arith, Bool-cases, inl, inr, str_eq→eq, eq→str_eq,
}
use etnpilot.Workflow.Steps.{
  Step, Status, fail_fast, pending, running, succeeded, failed, blocked, States, set, is_pending,
  is_succeeded, needs_met,
}
use etnpilot.Workflow.Engine.{block_pending}

abbrev pub is_started : Status → Bool
is_started running = true
is_started (succeeded r) = true
is_started (failed e) = true
is_started _ = false

-- What an entry may become without harm to what rests on it.
pub record Keeps (f g : States) : Type 0 where
  pub success : (k : String) (r : Json) → f k ≡ succeeded r → g k ≡ succeeded r
  pub done : (k : String) → is_pending (f k) ≡ false → is_pending (g k) ≡ false

pub succeeded_with : (v : Status) → is_succeeded v ≡ true → (r : Json) × (v ≡ succeeded r)
succeeded_with pending h = absurd (cc)
succeeded_with running h = absurd (cc)
succeeded_with (succeeded r) h = (r, refl)
succeeded_with (failed e) h = absurd (cc)
succeeded_with (blocked b) h = absurd (cc)

still_succeeded :
    (f g : States) (k : String) → Keeps f g → is_succeeded (f k) ≡ true → is_succeeded (g k) ≡ true
still_succeeded f g k keeps h =
    let (r, e) = succeeded_with (f k) h in ap is_succeeded (keeps.success k r e)

pub needs_met-Keeps :
    (f g : States) (s : Step) → Keeps f g → needs_met f s ≡ true → needs_met g s ≡ true
needs_met-Keeps f g s keeps = go s.needs
  where
    go :
        (ns : List String)
        → all (λ n. is_succeeded (f n)) ns ≡ true
        → all (λ n. is_succeeded (g n)) ns ≡ true
    go [] h = refl
    go (n ∷ ns) h = ground (arith, still_succeeded f g n keeps, go ns)

pub set-Keeps :
    (k : String) (v : Status) (f : States)
    → is_succeeded (f k) ≡ false
    → is_pending v ≡ false
    → Keeps f (set k v f)
set-Keeps k v f unsettled moved = record {
  success = λ j r h. elim (Bool-cases (str_eq k j)) [
    | inl same ↦
        absurd
          (cc (ap (λ x. is_succeeded (f x)) (str_eq→eq k j same), unsettled, ap is_succeeded h))
    | inr other ↦ rw other h
  ];
  done =
      λ j h. elim (Bool-cases (str_eq k j)) [ inl same ↦ rw same moved | inr other ↦ rw other h ];
}

pub block_pending-Keeps : (f : States) → Keeps f (block_pending f)
block_pending-Keeps f = record { success = λ k r. kept (f k) r; done = λ k. gone (f k) }
  where
    kept :
        (v : Status) (r : Json)
        → v ≡ succeeded r
        → elim v [ pending ↦ blocked fail_fast | w ↦ w ] ≡ succeeded r
    kept pending r h = absurd (cc)
    kept running r h = h
    kept (succeeded q) r h = h
    kept (failed e) r h = h
    kept (blocked q) r h = h

    gone :
        (v : Status)
        → is_pending v ≡ false
        → is_pending (elim v [ pending ↦ blocked fail_fast | w ↦ w ]) ≡ false
    gone pending h = refl
    gone running h = h
    gone (succeeded r) h = h
    gone (failed e) h = h
    gone (blocked r) h = h

module _ (steps : List Step) where
  -- A step that was started had all it needs.
  abbrev pub Ordered : States → Type 0
  Ordered f = (t : Step) → Memᴰ t steps → is_started (f t.id) ≡ true → needs_met f t ≡ true

  -- A step that waits only for its turn.
  pub record Startable (f : States) (s : Step) : Type 0 where
    pub member : Memᴰ s steps
    pub waits : is_pending (f s.id) ≡ true
    pub met : needs_met f s ≡ true
    pub alone : (t : Step) → Memᴰ t steps → t.id ≡ s.id → t ≡ s

  pub set-Ordered :
      (k : String) (v : Status) (f : States)
      → is_succeeded (f k) ≡ false
      → is_pending v ≡ false
      → ((t : Step) → Memᴰ t steps → t.id ≡ k → is_started v ≡ true → needs_met f t ≡ true)
      → Ordered f
      → Ordered (set k v f)
  set-Ordered k v f unsettled moved earned ordered t m started =
      needs_met-Keeps f (set k v f) t (set-Keeps k v f unsettled moved)
        (elim (Bool-cases (str_eq k t.id)) [
          | inl same ↦ earned t m (sym (str_eq→eq k t.id same)) (rw same at started)
          | inr other ↦ ordered t m (rw other at started)
        ])

  pub block_pending-Ordered : (f : States) → Ordered f → Ordered (block_pending f)
  block_pending-Ordered f ordered t m started =
      needs_met-Keeps f (block_pending f) t (block_pending-Keeps f)
        (ordered t m (before (f t.id) started))
    where
      before :
          (v : Status)
          → is_started (elim v [ pending ↦ blocked fail_fast | w ↦ w ]) ≡ true
          → is_started v ≡ true
      before pending h = h
      before running h = h
      before (succeeded r) h = h
      before (failed e) h = h
      before (blocked r) h = h

  pub Startable-set :
      (k : String) (v : Status) (f : States) (s : Step)
      → is_succeeded (f k) ≡ false
      → is_pending v ≡ false
      → str_eq k s.id ≡ false
      → Startable f s
      → Startable (set k v f) s
  Startable-set k v f s unsettled moved other able = record {
    waits = rw other able.waits;
    met = needs_met-Keeps f (set k v f) s (set-Keeps k v f unsettled moved) able.met;
    alone = able.alone;
    member = able.member;
  }

absent :
    (x : Step) (xs : List Step) (s : Step)
    → any (by_key (λ y. y.id) x.id) xs ≡ false
    → Memᴰ s xs
    → str_eq s.id x.id ≡ false
absent x [] s h m = elim m [ ]
absent x (y ∷ ys) s h (head e) = ap (λ z. str_eq z.id x.id) e ∙ ground arith
absent x (y ∷ ys) s h (tail m) = absent x ys s (ground arith) m

pub Keyed-alone :
    (steps : List Step) (s t : Step)
    → Keyed (λ x. x.id) steps
    → Memᴰ s steps
    → Memᴰ t steps
    → t.id ≡ s.id
    → t ≡ s
Keyed-alone [] s t keyed m n same = elim m [ ]
Keyed-alone (x ∷ xs) s t keyed (head e) (head d) same = d ∙ sym e
Keyed-alone (x ∷ xs) s t keyed (head e) (tail n) same =
    absurd (cc (absent x xs t keyed.0 n, eq→str_eq t.id x.id (same ∙ ap (λ y. y.id) e)))
Keyed-alone (x ∷ xs) s t keyed (tail m) (head d) same =
    absurd (cc (absent x xs s keyed.0 m, eq→str_eq s.id x.id (sym same ∙ ap (λ y. y.id) d)))
Keyed-alone (x ∷ xs) s t keyed (tail m) (tail n) same = Keyed-alone xs s t keyed.1 m n same

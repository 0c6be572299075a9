-- ===== src/Workflow/Acyclic.antt =====
-- src/workflow/engine.js: `assertAcyclic` visits each step at most once, after all that it needs, so the
-- graph that it accepts has no cycle.
use mathlib.Core.List.{Memᴰ}
use mathlib.Core.List.Memᴰ.{head, tail}
use etnpilot.Common.{
  ◌-◌, ◌≡◌, refl, sym, ap, ◌∙◌, subst, Bool, true, false, ◌||◌, List, [], ◌∷◌, ◌++◌, String, str_eq,
  if◌then◌else◌, any-append, includes, ◌==◌, All, All-append, All-map, arith, Bool-cases, inl, inr,
  eq→str_eq, str_eq→eq, eq_refl,
}
use etnpilot.Workflow.Steps.{Step}
use etnpilot.Workflow.Graph.{Degree, ids_of, awaits, lower_one, lower, is_freed, freed}
use etnpilot.Workflow.Counting.{Distinct, count-bound, count-All}
use etnpilot.Workflow.Kahn.{
  steps_of, IsCount, Topological, KeyedDegrees, lower_one-step, lower-steps, lower-Keyed,
  member-lower, lower-member, includes-picked, picked-Distinct, From, picked-From,
}

-- The state of the loop, with the steps visited so far.
pub record Turn (steps : List Step) (past queue : List String) (ds : List Degree) : Type 0 where
  pub rows : steps_of ds ≡ steps
  pub keyed : KeyedDegrees ds
  pub counted : (d : Degree) → Memᴰ d ds → IsCount past queue d
  pub past_distinct : Distinct past
  pub queue_distinct : Distinct queue
  pub apart : (x : String) → includes past x ≡ true → includes queue x ≡ false
  pub past_ids : All (λ x. includes (ids_of steps) x ≡ true) past
  pub queue_rows : All (λ x. (d : Degree) × Memᴰ d ds × (d.step.id ≡ x)) queue
  pub order : Topological steps past

pub step-member :
    (ds : List Degree) (s : Step) → Memᴰ s (steps_of ds) → (d : Degree) × Memᴰ d ds × (d.step ≡ s)
step-member [] s m = elim m [ ]
step-member (d ∷ ds) s (head e) = (d, head refl, sym e)
step-member (d ∷ ds) s (tail m) = let (c, n, e) = step-member ds s m in (c, tail n, e)

id-member :
    (ds : List Degree) (d : Degree) → Memᴰ d ds → includes (ids_of (steps_of ds)) d.step.id ≡ true
id-member [] d m = elim m [ ]
id-member (c ∷ ds) d (head e) =
    ground (arith, eq→str_eq c.step.id d.step.id (ap (λ x. x.step.id) (sym e)))
id-member (c ∷ ds) d (tail m) = ground (arith, id-member ds d m)

append-Distinct :
    (xs ys : List String)
    → Distinct xs
    → Distinct ys
    → ((x : String) → includes xs x ≡ true → includes ys x ≡ false)
    → Distinct (xs ++ ys)
append-Distinct [] ys h g n = g
append-Distinct (x ∷ xs) ys h g n = (
  any-append (λ y. str_eq y x) xs ys ∙ ground (arith, h.0, n x, eq_refl x),
  append-Distinct xs ys h.1 g (λ y e. n y (ground arith)),
)

lowered_count :
    (id : String) (past queue : List String) (f : List String) (d : Degree)
    → Distinct (id ∷ past)
    → includes f d.step.id ≡ is_freed id d
    → IsCount past (id ∷ queue) d
    → IsCount (id ∷ past) (queue ++ f) (lower_one id d)
lowered_count id past queue f d distinct picks c = go (awaits id d) refl
  where
    member : (includes (queue ++ f) d.step.id) ≡ (includes queue d.step.id || is_freed id d)
    member =
        any-append (λ x. str_eq x d.step.id) queue f ∙ ap (λ b. includes queue d.step.id || b) picks

    go :
        (b : Bool)
        → awaits id d ≡ b
        → IsCount (id ∷ past) (queue ++ f) (if b then record d { left = d.left - 1 } else d)
    go true e =
        let bound = count-bound d.step.needs (id ∷ past) distinct in
        record {
          counts = ground (arith, c.counts, bound);
          seen = ground (arith, c.counts, c.seen, bound, member);
        }
    go false e = record { counts = ground (arith, c.counts); seen = ground (arith, c.seen, member) }

pub All-includes :
    (P : String → Type 0) (xs : List String) (x : String) → All P xs → includes xs x ≡ true → P x
All-includes P [] x h m = absurd (cc)
All-includes P (y ∷ ys) x h m = elim (Bool-cases (str_eq y x)) [
  | inl same ↦ subst P (str_eq→eq y x same) h.0
  | inr other ↦ All-includes P ys x h.1 (ground arith)
]

excluded : (a b : Bool) → (a ≡ true → b ≡ false) → b ≡ true → a ≡ false
excluded true b f h = absurd (cc (f refl, h))
excluded false b f h = refl

module _ (steps : List Step) (id : String) (past queue : List String) (ds : List Degree)
    (t : Turn steps past (id ∷ queue) ds) where
  fresh : includes past id ≡ false
  fresh =
      excluded (includes past id) (includes (id ∷ queue) id) (t.apart id)
        (ground (arith, eq_refl id))

  freed_fresh :
      (x : String)
      → includes (freed id ds) x ≡ true
      → (includes past x || includes (id ∷ queue) x) ≡ false
  freed_fresh x h =
      let (d, m, same, now) =
        All-includes (From (is_freed id) ds) (freed id ds) x
          (picked-From (is_freed id) ds ds (λ c n. n)) h in
      subst (λ y. (includes past y || includes (id ∷ queue) y) ≡ false) same
        ((t.counted d m).seen ∙ ground (arith, now))

  freed_apart :
      (x : String)
      → (includes past x || includes (id ∷ queue) x) ≡ true
      → includes (freed id ds) x ≡ false
  freed_apart x h =
      excluded (includes (freed id ds) x) (includes past x || includes (id ∷ queue) x)
        (freed_fresh x) h

  next_apart :
      (x : String) → includes (id ∷ past) x ≡ true → includes (queue ++ freed id ds) x ≡ false
  next_apart x h =
      any-append (λ y. str_eq y x) queue (freed id ds) ∙ (elim (Bool-cases (str_eq id x)) [
        | inl same ↦ ground (
          arith,
          freed_apart x,
          ap (includes queue) (sym (str_eq→eq id x same)),
          t.queue_distinct.0,
        )
        | inr other ↦ ground (arith, freed_apart x, t.apart x)
      ])

  needs_past : (s : Step) → Memᴰ s steps → s.id ≡ id → All (λ n. includes past n ≡ true) s.needs
  needs_past s m same =
      let (d, n, q) = step-member ds s (subst (λ ss. Memᴰ s ss) (sym t.rows) m) in
      let c = t.counted d n in
      let at_id : str_eq id d.step.id ≡ true =
        eq→str_eq id d.step.id (sym (ap (λ x. x.id) q ∙ same)) in
      let zero_left : (d.left == 0) ≡ true = ground (arith, c.seen, at_id) in
      subst (λ x. All (λ n. includes past n ≡ true) x.needs) q
        (count-All d.step.needs past t.past_distinct (ground (arith, c.counts, zero_left)))

  next_rows :
      All (λ x. (d : Degree) × Memᴰ d (lower id ds) × (d.step.id ≡ x)) (queue ++ freed id ds)
  next_rows =
      All-append (λ x. (d : Degree) × Memᴰ d (lower id ds) × (d.step.id ≡ x)) queue (freed id ds)
        (All-map (λ x. (d : Degree) × Memᴰ d ds × (d.step.id ≡ x))
          (λ x. (d : Degree) × Memᴰ d (lower id ds) × (d.step.id ≡ x)) queue
          (λ x r. lowered x r.0 r.1 r.2) t.queue_rows.1)
        (All-map (From (is_freed id) ds)
          (λ x. (d : Degree) × Memᴰ d (lower id ds) × (d.step.id ≡ x)) (freed id ds)
          (λ x r. lowered x r.0 r.1 r.2) (picked-From (is_freed id) ds ds (λ c n. n)))
    where
      lowered :
          (x : String) (d : Degree)
          → Memᴰ d ds
          → d.step.id ≡ x
          → (e : Degree) × Memᴰ e (lower id ds) × (e.step.id ≡ x)
      lowered x d m e =
          (lower_one id d, lower-member id ds d m, ap (λ s. s.id) (lower_one-step id d) ∙ e)

  -- One turn of the loop.
  pub next_turn : Turn steps (id ∷ past) (queue ++ freed id ds) (lower id ds)
  next_turn =
      let (here, member, same) = t.queue_rows.0 in
      let distinct : Distinct (id ∷ past) = (fresh, t.past_distinct) in
      record {
        rows = lower-steps id ds ∙ t.rows;
        keyed = lower-Keyed id ds t.keyed;
        counted = λ e m.
            let (d, n, q) = member-lower id ds e m in
            subst (λ x. IsCount (id ∷ past) (queue ++ freed id ds) x) (sym q)
              (lowered_count id past queue (freed id ds) d distinct
                (includes-picked (is_freed id) ds d t.keyed n) (t.counted d n));
        past_distinct = distinct;
        queue_distinct =
            append-Distinct queue (freed id ds) t.queue_distinct.1
              (picked-Distinct (is_freed id) ds t.keyed) (λ x h. freed_apart x (ground (arith, h)));
        apart = next_apart;
        past_ids = (
          subst (λ ss. includes (ids_of ss) id ≡ true) t.rows
              (subst (λ x. includes (ids_of (steps_of ds)) x ≡ true) same
                (id-member ds here member)),
          t.past_ids,
        );
        queue_rows = next_rows;
        order = (needs_past, t.order);
      }

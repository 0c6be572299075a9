-- ===== src/Workflow/Accepts.antt =====
-- src/workflow/engine.js: `assertAcyclic` accepts every graph that has an order, if no step repeats a need.
use mathlib.Core.List.{Memᴰ}
use etnpilot.Common.{
  ◌≡◌, ◌↔◌, refl, sym, ap, ◌∙◌, subst, true, false, ◌||◌, not, List, [], ◌∷◌, String, str_eq, any,
  includes, count, length, All, All-map, Keyed, by_key, arith, Bool-cases, inl, inr,
}
use etnpilot.Workflow.Steps.{Step}
use etnpilot.Workflow.Graph.{Degree, ids_of, degrees_of, free_ids, visited_steps, all_visited}
use etnpilot.Workflow.Counting.{Distinct, count-bound, count-members, count-present-All}
use etnpilot.Workflow.Acyclic.{Turn, step-member}
use etnpilot.Workflow.Orders.{
  length-ids_of, first_turn, visit-ends, Order, all_visited-Order, first_of, none_picked,
}

ids-Distinct : (steps : List Step) → Keyed (λ s. s.id) steps → Distinct (ids_of steps)
ids-Distinct [] h = tt
ids-Distinct (s ∷ ss) h = (same s.id ss ∙ h.0, ids-Distinct ss h.1)
  where
    same :
        (k : String) (ts : List Step)
        → any (by_key (λ x. x) k) (ids_of ts) ≡ any (by_key (λ t. t.id) k) ts
    same k [] = refl
    same k (t ∷ ts) = ap (λ b. str_eq t.id k || b) (same k ts)

module _ (steps : List Step) (keyed : Keyed (λ s. s.id) steps)
    (simple : (s : Step) → Memᴰ s steps → Distinct s.needs) where
  -- At the end of the loop, a step whose needs are all visited has been visited.
  closed :
      (past : List String) (ds : List Degree) (s : Step)
      → Turn steps past [] ds
      → Memᴰ s steps
      → All (λ n. includes past n ≡ true) s.needs
      → includes past s.id ≡ true
  closed past ds s t m needed =
      let (d, n, q) = step-member ds s (subst (λ ss. Memᴰ s ss) (sym t.rows) m) in
      let c = t.counted d n in
      let all_counted : count (includes d.step.needs) past ≡ length d.step.needs =
        count-present-All d.step.needs past (subst (λ x. Distinct x.needs) (sym q) (simple s m))
          t.past_distinct (subst (λ x. All (λ k. includes past k ≡ true) x.needs) (sym q) needed) in
      subst (λ x. includes past x.id ≡ true) q (ground (arith, c.counts, c.seen, all_counted))

  ordered-past :
      (past : List String) (ds : List Degree)
      → Turn steps past [] ds
      → (o : Order steps) → (x : String) → includes o.ids x ≡ true
      → includes past x ≡ true
  ordered-past past ds t o x m = elim (Bool-cases (any (λ y. not (includes past y)) o.ids)) [
    | inr whole ↦ ground (arith, none_picked steps (λ y. not (includes past y)) o.ids x whole m)
    | inl part ↦
        let (s, n, out, needs) =
          first_of steps (λ y. not (includes past y)) o.ids o.later o.known part in
        absurd (
          ground (
            arith,
            out,
            closed past ds s t n (
                All-map (λ k. not (includes past k) ≡ false) (λ k. includes past k ≡ true) s.needs
                  (λ k h. ground arith) needs),
          ))
  ]

  order-all_visited : Order steps → all_visited (visited_steps steps) steps ≡ true
  unfolding visited_steps
  order-all_visited o =
      let (m, e, v) =
        visit-ends steps (length steps) [] (free_ids (degrees_of steps)) (degrees_of steps)
          (first_turn steps keyed) (omega arith) in
      let here : All (λ x. includes v.past x ≡ true) (ids_of steps) =
        All-map (λ x. includes o.ids x ≡ true) (λ x. includes v.past x ≡ true) (ids_of steps)
          (λ x. ordered-past v.past v.degrees v.turn o x) o.whole in
      ap (λ r. all_visited r steps) e
      ∙ ground (
        arith,
        v.number,
        length-ids_of steps,
        count-members v.past (ids_of steps) here,
        count-bound v.past (ids_of steps) (ids-Distinct steps keyed),
        count-members (ids_of steps) v.past v.turn.past_ids,
        count-bound (ids_of steps) v.past v.turn.past_distinct,
      )

  -- If the ids of the steps are distinct and no step repeats a need, assertAcyclic visits all steps exactly
  -- when they can be put in an order in which each comes after all its needs.
  pub all_visited_iff : (all_visited (visited_steps steps) steps ≡ true) ↔ Order steps
  all_visited_iff = (all_visited-Order steps keyed, order-all_visited)

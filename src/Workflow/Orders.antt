-- ===== src/Workflow/Orders.antt =====
-- src/workflow/engine.js: the loop of `assertAcyclic` ends, and what it accepts can be run in an order.
use mathlib.Core.List.{Memᴰ}
use mathlib.Core.List.Memᴰ.{head, tail}
use etnpilot.Common.{
  ℕ, zero, suc, ◌+◌, ◌≤◌, ◌≡◌, refl, sym, ap, ◌∙◌, Bool, true, false, ◌||◌, some, List, [], ◌∷◌,
  ◌++◌, String, str_eq, any, includes, count, length, ◌==◌, All, All-map, Keyed, by_key, arith,
  Bool-cases, inl, inr, str_eq→eq,
}
use etnpilot.Workflow.Steps.{Step}
use etnpilot.Workflow.Graph.{
  Degree, ids_of, degrees_of, free_ids, lower, freed, visit, visited_steps, all_visited,
}
use etnpilot.Workflow.Counting.{count-bound, count-All, count-members}
use etnpilot.Workflow.Kahn.{
  steps_of, Topological, KeyedDegrees, includes-picked, picked-Distinct, From, picked-From,
}
use etnpilot.Workflow.Acyclic.{Turn, next_turn}

pub length-ids_of : (steps : List Step) → length (ids_of steps) ≡ length steps
length-ids_of [] = refl
length-ids_of (s ∷ ss) = ap suc (length-ids_of ss)

degrees_of-steps : (steps : List Step) → steps_of (degrees_of steps) ≡ steps
degrees_of-steps [] = refl
degrees_of-steps (s ∷ ss) = ap (λ t. s ∷ t) (degrees_of-steps ss)

any-degrees_of :
    (k : String) (steps : List Step)
    → any (by_key (λ d. d.step.id) k) (degrees_of steps) ≡ any (by_key (λ s. s.id) k) steps
any-degrees_of k [] = refl
any-degrees_of k (s ∷ ss) = ap (λ b. str_eq s.id k || b) (any-degrees_of k ss)

degrees_of-Keyed : (steps : List Step) → Keyed (λ s. s.id) steps → KeyedDegrees (degrees_of steps)
degrees_of-Keyed [] h = tt
degrees_of-Keyed (s ∷ ss) h = (any-degrees_of s.id ss ∙ h.0, degrees_of-Keyed ss h.1)

degrees_of-left :
    (steps : List Step) (d : Degree) → Memᴰ d (degrees_of steps) → d.left ≡ length d.step.needs
degrees_of-left [] d m = elim m [ ]
degrees_of-left (s ∷ ss) d (head e) = ap (λ x. x.left) e ∙ ap (λ x. length x.step.needs) (sym e)
degrees_of-left (s ∷ ss) d (tail m) = degrees_of-left ss d m

count_nothing : (ns : List String) → count (includes ns) [] ≡ 0
count_nothing ns = refl

is_free : Degree → Bool
is_free d = d.left == 0

pub first_turn :
    (steps : List Step)
    → Keyed (λ s. s.id) steps
    → Turn steps [] (free_ids (degrees_of steps)) (degrees_of steps)
first_turn steps keyed =
    let ds = degrees_of steps in
    let rows = degrees_of-Keyed steps keyed in
    record {
      rows = degrees_of-steps steps;
      keyed = rows;
      counted = λ d m. record {
        counts = omega (arith, degrees_of-left steps d m);
        seen = includes-picked (λ d. d.left == 0) ds d rows m;
      };
      past_distinct = tt;
      queue_distinct = picked-Distinct (λ d. d.left == 0) ds rows;
      apart = λ x h. absurd (cc);
      past_ids = tt;
      queue_rows =
          All-map (From (λ d. d.left == 0) ds) (λ x. (d : Degree) × Memᴰ d ds × (d.step.id ≡ x))
            (free_ids ds) (λ x r. (r.0, r.1, r.2))
            (picked-From (λ d. d.left == 0) ds ds (λ d m. m));
      order = tt;
    }

module _ (steps : List Step) where
  -- Where the loop ends.
  pub record Visited (m : ℕ) : Type 0 where
    pub past : List String
    pub degrees : List Degree
    pub turn : Turn steps past [] degrees
    pub number : m ≡ length past

  past_bound :
      (past queue : List String) (ds : List Degree)
      → Turn steps past queue ds
      → length past ≤ length steps
  past_bound past queue ds t = omega (
    arith,
    count-members (ids_of steps) past t.past_ids,
    count-bound (ids_of steps) past t.past_distinct,
    length-ids_of steps,
  )

  pub visit-ends :
      (n : ℕ) (past queue : List String) (ds : List Degree)
      → Turn steps past queue ds
      → length steps ≤ n + length past
      → (m : ℕ) × (visit n ds queue (length past) ≡ some m) × Visited m
  unfolding visit
  visit-ends n past [] ds t enough =
      (length past, refl, record { past = past; degrees = ds; turn = t; number = refl })
  visit-ends zero past (id ∷ queue) ds t enough =
      let after = next_turn steps id past queue ds t in
      absurd
        (omega (arith, enough, past_bound (id ∷ past) (queue ++ freed id ds) (lower id ds) after))
  visit-ends (suc n) past (id ∷ queue) ds t enough =
      let (m, e, v) =
        visit-ends n (id ∷ past) (queue ++ freed id ds) (lower id ds)
          (next_turn steps id past queue ds t) (omega (arith, enough)) in
      (m, ap (visit n (lower id ds) (queue ++ freed id ds)) (omega arith) ∙ e, v)

  -- The loop of `assertAcyclic` ends after as many turns as there are steps at most, if their ids are
  -- distinct: each turn visits another step.
  pub visited_steps-ends :
      Keyed (λ s. s.id) steps → (m : ℕ) × (visited_steps steps ≡ some m) × (m ≤ length steps)
  unfolding visited_steps
  visited_steps-ends keyed =
      let (m, e, v) =
        visit-ends (length steps) [] (free_ids (degrees_of steps)) (degrees_of steps)
          (first_turn steps keyed) (omega arith) in
      (m, e, omega (arith, v.number, past_bound v.past [] v.degrees v.turn))

  -- An order in which each step stands after all that it needs, last first.
  pub record Order : Type 0 where
    pub ids : List String
    pub later : Topological steps ids
    pub known : All (λ x. includes (ids_of steps) x ≡ true) ids
    pub whole : All (λ x. includes ids x ≡ true) (ids_of steps)

  pub all_visited-Order :
      Keyed (λ s. s.id) steps → all_visited (visited_steps steps) steps ≡ true → Order
  unfolding visited_steps
  all_visited-Order keyed h =
      let (m, e, v) =
        visit-ends (length steps) [] (free_ids (degrees_of steps)) (degrees_of steps)
          (first_turn steps keyed) (omega arith) in
      let full : (m == length steps) ≡ true = ap (λ r. all_visited r steps) (sym e) ∙ h in
      record {
        ids = v.past;
        later = v.turn.order;
        known = v.turn.past_ids;
        whole = count-All (ids_of steps) v.past v.turn.past_distinct (
            ground (
              arith,
              full,
              v.number,
              count-members (ids_of steps) v.past v.turn.past_ids,
              length-ids_of steps,
            ));
      }

  id-step :
      (ss : List Step) (x : String)
      → includes (ids_of ss) x ≡ true
      → (s : Step) × Memᴰ s ss × (s.id ≡ x)
  id-step [] x h = absurd (cc)
  id-step (s ∷ ss) x h = elim (Bool-cases (str_eq s.id x)) [
    | inl same ↦ (s, head refl, str_eq→eq s.id x same)
    | inr other ↦ let (t, m, e) = id-step ss x (ground arith) in (t, tail m, e)
  ]

  pub none_picked :
      (p : String → Bool) (xs : List String) (n : String)
      → any p xs ≡ false
      → includes xs n ≡ true
      → p n ≡ false
  none_picked p [] n h m = absurd (cc)
  none_picked p (x ∷ xs) n h m = elim (Bool-cases (str_eq x n)) [
    | inl same ↦ ap p (sym (str_eq→eq x n same)) ∙ ground arith
    | inr other ↦ none_picked p xs n (ground arith) (ground arith)
  ]

  -- Of the steps that pass a test there is one none of whose needs pass it.
  pub first_of :
      (p : String → Bool) (ids : List String)
      → Topological steps ids
      → All (λ x. includes (ids_of steps) x ≡ true) ids
      → any p ids ≡ true
      → (s : Step) × Memᴰ s steps × (p s.id ≡ true) × All (λ n. p n ≡ false) s.needs
  first_of p [] order known h = absurd (cc)
  first_of p (x ∷ xs) order known h = elim (Bool-cases (any p xs)) [
    | inl below ↦ first_of p xs order.1 known.1 below
    | inr top ↦
        let (s, m, e) = id-step steps x known.0 in
        (
          s,
          m,
          ap p e ∙ ground arith,
          All-map (λ n. includes xs n ≡ true) (λ n. p n ≡ false) s.needs
              (λ n. none_picked p xs n top) (order.0 s m e),
        )
  ]

-- ===== src/Workflow/Valid.antt =====
-- src/workflow/engine.js: the steps that `validateSteps` lets through.
use etnpilot.Common.{
  ℕ, suc, ◌≤◌, ◌≡◌, refl, ap, subst, true, false, Option, none, some, List, [], ◌∷◌, String, str_eq,
  any, includes, length, ltb, ◌==◌, All, Keyed, by_key, arith, Bool-cases, inl, inr, eq_refl,
  str_eq→eq, Result, ok, err, ok-injective,
}
use etnpilot.Workflow.Steps.{Step}
use etnpilot.Workflow.Graph.{
  RawStep, StepsError, ids_of, visited_steps, all_visited, with_step, add_step, seen_with,
  normalize, need_error, needs_error, first_error, or_empty, check_graph, check_normalized,
  validate_steps,
}
use etnpilot.Workflow.Orders.{Order, all_visited-Order}

-- The ids of the steps are distinct, and none is among those seen before.
record IsFresh (seen : List String) (steps : List Step) : Type 0 where
  keyed : Keyed (λ s. s.id) steps
  unseen : (x : String) → includes seen x ≡ true → any (by_key (λ s. s.id) x) steps ≡ false

-- What the rest of the steps gives for the whole.
normalize-IsFresh :
    (seen : List String) (rs : List RawStep) (steps : List Step)
    → normalize seen rs ≡ ok steps
    → IsFresh seen steps × (length steps ≡ length rs)
normalize-IsFresh seen [] steps h =
    subst (λ ss. IsFresh seen ss × (length ss ≡ 0)) (ok-injective h)
      (record { keyed = tt; unseen = λ x m. refl }, refl)
normalize-IsFresh seen (r ∷ rs) steps h =
    by_id r.id (normalize (seen_with r.id seen) rs) refl h
      (λ ss. normalize-IsFresh (seen_with r.id seen) rs ss)
  where
    by_rest :
        (id : String) (needs : List String) (rest : Result StepsError (List Step))
        → includes seen id ≡ false
        → with_step (record { id = id; needs = needs }) rest ≡ ok steps
        → ((ss : List Step) → rest ≡ ok ss → IsFresh (id ∷ seen) ss × (length ss ≡ length rs))
        → IsFresh seen steps × (length steps ≡ suc (length rs))
    by_rest id needs (err e) new h ih = absurd (cc)
    by_rest id needs (ok ss) new h ih =
        let fresh = (ih ss refl).0 in
        subst (λ ss. IsFresh seen ss × (length ss ≡ suc (length rs))) (ok-injective h)
          (
            record {
              keyed = (fresh.unseen id (ground (arith, eq_refl id)), fresh.keyed);
              unseen = λ x m. ground (arith, fresh.unseen x, m, other x m new);
            },
            ap suc (ih ss refl).1,
          )
      where
        other :
            (x : String) → includes seen x ≡ true → includes seen id ≡ false → str_eq id x ≡ false
        other x m n = elim (Bool-cases (str_eq id x)) [
          | inl same ↦ absurd (cc (ap (includes seen) (str_eq→eq id x same), m, n))
          | inr differs ↦ differs
        ]

    by_id :
        (id : Option String) (rest : Result StepsError (List Step))
        → normalize (seen_with id seen) rs ≡ rest
        → add_step id r.needs seen rest ≡ ok steps
        → ((ss : List Step)
            → rest ≡ ok ss
            → IsFresh (seen_with id seen) ss × (length ss ≡ length rs))
        → IsFresh seen steps × (length steps ≡ suc (length rs))
    by_id none rest e h ih = absurd (cc)
    by_id (some id) rest e h ih = elim (Bool-cases (str_eq id "")) [
      | inl empty ↦ absurd (cc (rw empty at h))
      | inr text ↦ elim (Bool-cases (includes seen id)) [
        | inl again ↦ absurd (cc (rw (text, again) at h))
        | inr new ↦ by_rest id (or_empty r.needs) rest new (rw (text, new) at h) ih
      ]
    ]

-- A need is another step.
abbrev pub IsOther : List String → String → String → Type 0
IsOther ids id n = (includes ids n ≡ true) × (str_eq n id ≡ false)

need_error-IsOther :
    (ids : List String) (id : String) (ns : List String)
    → need_error ids id ns ≡ none
    → All (IsOther ids id) ns
need_error-IsOther ids id [] h = tt
need_error-IsOther ids id (n ∷ ns) h = elim (Bool-cases (includes ids n)) [
  | inr unknown ↦ absurd (cc (rw unknown at h))
  | inl known ↦ elim (Bool-cases (str_eq n id)) [
    | inl itself ↦ absurd (cc (rw (known, itself) at h))
    | inr other ↦ ((known, other), need_error-IsOther ids id ns (rw (known, other) at h))
  ]
]

needs_error-IsOther :
    (ids : List String) (ss : List Step)
    → needs_error ids ss ≡ none
    → All (λ s. All (IsOther ids s.id) s.needs) ss
needs_error-IsOther ids [] h = tt
needs_error-IsOther ids (s ∷ ss) h =
    go (need_error ids s.id s.needs) refl h (needs_error-IsOther ids ss)
  where
    go :
        (o : Option StepsError)
        → need_error ids s.id s.needs ≡ o
        → first_error o (needs_error ids ss) ≡ none
        → (needs_error ids ss ≡ none → All (λ t. All (IsOther ids t.id) t.needs) ss)
        → All (λ t. All (IsOther ids t.id) t.needs) (s ∷ ss)
    go none e h ih = (need_error-IsOther ids s.id s.needs e, ih h)
    go (some x) e h ih = absurd (cc)

-- What the engine relies on: distinct ids, no more steps than allowed, needs that are steps, and an order.
pub record IsRunnable (max_steps : ℕ) (steps : List Step) : Type 0 where
  pub keyed : Keyed (λ s. s.id) steps
  pub within : length steps ≤ max_steps
  pub known : All (λ s. All (IsOther (ids_of steps) s.id) s.needs) steps
  pub order : Order steps

check_graph-Order :
    (steps accepted : List Step) (e : Option StepsError)
    → Keyed (λ s. s.id) steps
    → check_graph steps e ≡ ok accepted
    → (steps ≡ accepted) × (e ≡ none) × Order steps
check_graph-Order steps accepted (some e) keyed h = absurd (cc)
check_graph-Order steps accepted none keyed h =
    elim (Bool-cases (all_visited (visited_steps steps) steps)) [
      | inl whole ↦ (ok-injective (rw whole at h), refl, all_visited-Order steps keyed whole)
      | inr part ↦ absurd (cc (rw part at h))
    ]

check_normalized-IsRunnable :
    (max_steps : ℕ) (raw : List RawStep) (r : Result StepsError (List Step)) (steps : List Step)
    → normalize [] raw ≡ r
    → length raw ≤ max_steps
    → check_normalized r ≡ ok steps
    → IsRunnable max_steps steps
check_normalized-IsRunnable max_steps raw (err e) steps n bound h = absurd (cc)
check_normalized-IsRunnable max_steps raw (ok ss) steps n bound h =
    let (fresh, number) = normalize-IsFresh [] raw ss n in
    let (same, known, order) =
      check_graph-Order ss steps (needs_error (ids_of ss) ss) fresh.keyed h in
    subst (IsRunnable max_steps) same (record {
      keyed = fresh.keyed;
      within = omega (arith, number, bound);
      known = needs_error-IsOther (ids_of ss) ss known;
      order = order;
    })

-- The steps that validateSteps lets through have distinct ids and known needs other than themselves, are
-- no more than the budget, and stand in an order in which each comes after all its needs.
pub validate_steps-IsRunnable :
    (max_steps : ℕ) (raw : List RawStep) (steps : List Step)
    → validate_steps max_steps raw ≡ ok steps
    → IsRunnable max_steps steps
unfolding validate_steps
validate_steps-IsRunnable max_steps raw steps h = elim (Bool-cases (length raw == 0)) [
  | inl empty ↦ absurd (cc (rw empty at h))
  | inr some_steps ↦ elim (Bool-cases (ltb max_steps (length raw))) [
    | inl many ↦ absurd (cc (rw (some_steps, many) at h))
    | inr few ↦
        check_normalized-IsRunnable max_steps raw (normalize [] raw) steps refl
          (ground (arith, few)) (rw (some_steps, few) at h)
  ]
]

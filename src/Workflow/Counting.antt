-- ===== src/Workflow/Counting.antt =====
-- Distinct texts in a list of texts: no more than its length, and all of it when as many.
use etnpilot.Common.{
  ◌+◌, ◌≤◌, ◌≡◌, refl, sym, ap, Bool, true, false, List, [], ◌∷◌, String, str_eq, includes, count,
  length, Keyed, arith, Bool-cases, inl, inr, eq_iff, str_eq→eq, All,
}

-- A list without repetition.
abbrev pub Distinct : List String → Type 0
Distinct xs = Keyed (λ x. x) xs

count-cons :
    (n : String) (ns xs : List String)
    → count (includes (n ∷ ns)) xs ≤ count (str_eq n) xs + count (includes ns) xs
count-cons n ns [] = omega arith
count-cons n ns (x ∷ xs) = ground (arith, count-cons n ns xs)

count-absent : (n : String) (xs : List String) → includes xs n ≡ false → count (str_eq n) xs ≡ 0
count-absent n [] h = refl
count-absent n (x ∷ xs) h = ground (arith, count-absent n xs, eq_iff n x, eq_iff x n)

count-Distinct : (n : String) (xs : List String) → Distinct xs → count (str_eq n) xs ≤ 1
count-Distinct n [] d = omega arith
count-Distinct n (x ∷ xs) d = elim (Bool-cases (str_eq n x)) [
  | inl same ↦ ground (arith, count-absent n xs, eq_iff n x, d.0)
  | inr other ↦ ground (arith, count-Distinct n xs d.1)
]

pub count-bound : (ns xs : List String) → Distinct xs → count (includes ns) xs ≤ length ns
count-bound [] [] d = omega arith
count-bound [] (x ∷ xs) d = count-bound [] xs d.1
count-bound (n ∷ ns) xs d =
    omega (arith, count-cons n ns xs, count-Distinct n xs d, count-bound ns xs d)

pub count-All :
    (ns xs : List String)
    → Distinct xs
    → count (includes ns) xs ≡ length ns
    → All (λ n. includes xs n ≡ true) ns
count-All [] xs d h = tt
count-All (n ∷ ns) xs d h = (
  found (includes xs n) refl,
  count-All ns xs d
      (omega (arith, h, count-cons n ns xs, count-Distinct n xs d, count-bound ns xs d)),
)
  where
    found : (b : Bool) → includes xs n ≡ b → includes xs n ≡ true
    found true e = e
    found false e =
        absurd (omega (arith, h, count-absent n xs e, count-cons n ns xs, count-bound ns xs d))

pub count-members :
    (ns xs : List String) → All (λ x. includes ns x ≡ true) xs → count (includes ns) xs ≡ length xs
count-members ns [] h = refl
count-members ns (x ∷ xs) h = ground (arith, count-members ns xs h.1)

count-split :
    (n : String) (ns xs : List String)
    → includes ns n ≡ false
    → count (includes (n ∷ ns)) xs ≡ count (str_eq n) xs + count (includes ns) xs
count-split n ns [] h = refl
count-split n ns (x ∷ xs) h = elim (Bool-cases (str_eq n x)) [
  | inl same ↦
      ground (arith, same, count-split n ns xs h, ap (includes ns) (sym (str_eq→eq n x same)))
  | inr other ↦ ground (arith, other, count-split n ns xs h)
]

count-present : (n : String) (xs : List String) → includes xs n ≡ true → 1 ≤ count (str_eq n) xs
count-present n [] h = absurd (cc)
count-present n (x ∷ xs) h = ground (arith, count-present n xs, eq_iff n x, eq_iff x n)

-- Distinct texts that are all among others are as many of them.
pub count-present-All :
    (ns xs : List String)
    → Distinct ns
    → Distinct xs
    → All (λ n. includes xs n ≡ true) ns
    → count (includes ns) xs ≡ length ns
count-present-All [] [] d e h = refl
count-present-All [] (x ∷ xs) d e h = count-present-All [] xs d e.1 h
count-present-All (n ∷ ns) xs d e h = omega (
  arith,
  count-split n ns xs d.0,
  count-present n xs h.0,
  count-Distinct n xs e,
  count-present-All ns xs d.1 e h.1,
)

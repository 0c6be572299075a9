-- ===== src/Diff/Sides.antt =====
-- src/providers/text-diff.js: the lines before and after a change, put together from its comparison.
use etnpilot.Common.{
  ℕ, zero, suc, ◌+◌, ◌-◌, ◌*◌, ◌≤◌, min, ◌≡◌, refl, sym, ap, ◌∙◌, Bool, true, false, Option, none,
  some, List, [], ◌∷◌, ◌++◌, String, str_eq, ltb, length, length-append, take, count, arith,
  Bool-cases, if_cases, inl, inr, str_eq→eq,
}
use etnpilot.Diff.Lines.{Kind, add, remove, context, Operation, nth, with_kind, diff_lines}
use etnpilot.Diff.Unified.{
  Limits, drop, slice, common_head, common_tail, same_line, Comparison, compare_sides, is_add,
  is_remove,
}
use etnpilot.Diff.Patches.{
  old_side, new_side, old_text, new_text, Tells, diff_lines-Tells, coarse-Tells,
}

take-drop : (n : ℕ) (xs : List String) → take n xs ++ drop n xs ≡ xs
take-drop zero xs = refl
take-drop (suc n) [] = refl
take-drop (suc n) (x ∷ xs) = ap (λ t. x ∷ t) (take-drop n xs)

drop-nil : (n : ℕ) → drop n [] ≡ []
drop-nil zero = refl
drop-nil (suc n) = refl

drop-drop : (n m : ℕ) (xs : List String) → drop m (drop n xs) ≡ drop (n + m) xs
drop-drop zero m xs = ap (λ k. drop k xs) (omega arith)
drop-drop (suc n) m [] = drop-nil m ∙ sym (drop-nil (suc n + m))
drop-drop (suc n) m (x ∷ xs) =
    drop-drop n m xs ∙ ap (λ k. drop k (x ∷ xs)) {x = suc (n + m)} {y = suc n + m} (omega arith)

drop-length : (xs : List String) → drop (length xs) xs ≡ []
drop-length [] = refl
drop-length (x ∷ xs) = drop-length xs

drop_whole : (xs : List String) → drop (length xs - 0) xs ≡ []
drop_whole xs =
    ap (λ k. drop k xs) {x = length xs - 0} {y = length xs} (omega arith) ∙ drop-length xs

drop-nth :
    (k : ℕ) (xs : List String) (x : String) → nth k xs ≡ some x → drop k xs ≡ x ∷ drop (k + 1) xs
drop-nth k [] x h = absurd (cc)
drop-nth zero (y ∷ ys) x h = ap (λ z. z ∷ ys) (cc)
drop-nth (suc k) (y ∷ ys) x h =
    drop-nth k ys x h
    ∙ ap (λ j. x ∷ drop j (y ∷ ys)) {x = suc (k + 1)} {y = suc k + 1} (omega arith)

common_head-take : (xs ys : List String) → take (common_head xs ys) xs ≡ take (common_head xs ys) ys
common_head-take [] ys = refl
common_head-take (x ∷ xs) [] = refl
common_head-take (x ∷ xs) (y ∷ ys) = elim (Bool-cases (str_eq x y)) [
  | inl same ↦ rw same (
      ap (λ t. x ∷ t) (common_head-take xs ys)
      ∙ ap (λ z. z ∷ take (common_head xs ys) ys) (str_eq→eq x y same))
  | inr other ↦ rw other refl
]

common_head-bound :
    (xs ys : List String) → (common_head xs ys ≤ length xs) × (common_head xs ys ≤ length ys)
common_head-bound [] ys = (omega arith, omega arith)
common_head-bound (x ∷ xs) [] = (omega arith, omega arith)
common_head-bound (x ∷ xs) (y ∷ ys) =
    let rest = common_head-bound xs ys in
    if_cases (λ n. (n ≤ suc (length xs)) × (n ≤ suc (length ys))) (str_eq x y)
      (λ t. (omega (arith, rest.0), omega (arith, rest.1))) (λ f. (omega arith, omega arith))

same_line-some :
    (a b : Option String) → same_line a b ≡ true → (x : String) × (a ≡ some x) × (b ≡ some x)
same_line-some none b h = absurd (cc)
same_line-some (some x) none h = absurd (cc)
same_line-some (some x) (some y) h = (x, refl, ap (λ z. some z) (sym (str_eq→eq x y h)))

module _ (before after : List String) where
  -- The last `e` lines are the same.
  abbrev SameEnd : ℕ → Type 0
  SameEnd e = drop (length before - e) before ≡ drop (length after - e) after

  common_tail-SameEnd :
      (n e : ℕ)
      → e + n ≤ length before
      → e + n ≤ length after
      → SameEnd e
      → SameEnd (common_tail before after n e) × (common_tail before after n e ≤ e + n)
  common_tail-SameEnd zero e p q h = (h, omega arith)
  common_tail-SameEnd (suc n) e p q h =
      let i = length before - 1 - e in
      let j = length after - 1 - e in
      let rest = common_tail-SameEnd n (e + 1) (omega (arith, p)) (omega (arith, q)) in
      if_cases (λ r. SameEnd r × (r ≤ e + suc n)) (same_line (nth i before) (nth j after))
        (λ same.
          let (x, f, g) = same_line-some (nth i before) (nth j after) same in
          let longer : SameEnd (e + 1) =
            ap (λ k. drop k before) (omega arith)
            ∙ drop-nth i before x f
            ∙ ap (λ k. x ∷ drop k before) (omega (arith, p))
            ∙ ap (λ t. x ∷ t) h
            ∙ ap (λ k. x ∷ drop k after) (omega (arith, q))
            ∙ sym (drop-nth j after x g)
            ∙ ap (λ k. drop k after) (omega arith) in
          ((rest longer).0, omega (arith, (rest longer).1)))
        (λ differs. (h, omega arith))

-- A list is its head, a slice and its tail.
three_parts : (s k : ℕ) (xs : List String) → s ≤ k → take s xs ++ (slice s k xs ++ drop k xs) ≡ xs
three_parts s k xs h =
    ap (λ t. take s xs ++ (slice s k xs ++ t))
      (ap (λ j. drop j xs) (omega (arith, h)) ∙ sym (drop-drop s (k - s) xs))
    ∙ ap (λ t. take s xs ++ t) (take-drop (k - s) (drop s xs))
    ∙ take-drop s xs

count-sides :
    (os : List Operation)
    → length (new_side os) + count is_remove os ≡ length (old_side os) + count is_add os
count-sides [] = omega arith
count-sides (o ∷ os) = go o.kind (count-sides os)
  where
    go :
        (k : Kind)
        → length (new_side os) + count is_remove os ≡ length (old_side os) + count is_add os
        → length (new_text k o.text (new_side os))
            + count is_remove (record { kind = k; text = o.text } ∷ os)
          ≡ length (old_text k o.text (old_side os))
            + count is_add (record { kind = k; text = o.text } ∷ os)
    go add h = omega (arith, h)
    go remove h = omega (arith, h)
    go context h = omega (arith, h)

-- What a comparison is to say about two sides.
abbrev pub IsDiff : List String → List String → Comparison → Type 0
IsDiff before after c =
    let tail = drop (length before - c.ending) before in
    (take c.start before ++ (old_side c.operations ++ tail) ≡ before)
    × (take c.start before ++ (new_side c.operations ++ tail) ≡ after)
    × (length after + count is_remove c.operations ≡ length before + count is_add c.operations)

module _ (before after : List String) (s e : ℕ) (os : List Operation)
    (begins : take s before ≡ take s after)
    (ends : drop (length before - e) before ≡ drop (length after - e) after)
    (in_before : s ≤ length before - e) (in_after : s ≤ length after - e)
    (tells : Tells (slice s (length before - e) before) (slice s (length after - e) after) os) where
  parts_before : take s before ++ (old_side os ++ drop (length before - e) before) ≡ before
  parts_before =
      ap (λ t. take s before ++ (t ++ drop (length before - e) before)) tells.0
      ∙ three_parts s (length before - e) before in_before

  parts_after : take s before ++ (new_side os ++ drop (length before - e) before) ≡ after
  parts_after =
      ap (λ t. take s before ++ (t ++ drop (length before - e) before)) tells.1
      ∙ ap (λ t. t ++ (slice s (length after - e) after ++ drop (length before - e) before)) begins
      ∙ ap (λ t. take s after ++ (slice s (length after - e) after ++ t)) ends
      ∙ three_parts s (length after - e) after in_after

  length-parts :
      (xs ys zs us : List String)
      → xs ++ (ys ++ zs) ≡ us
      → length us ≡ length xs + (length ys + length zs)
  length-parts xs ys zs us h =
      ap length (sym h)
      ∙ length-append xs (ys ++ zs)
      ∙ ap (λ n. length xs + n) (length-append ys zs)

  parts-IsDiff :
      (coarse : Bool)
      → IsDiff before after (record { start = s; ending = e; coarse = coarse; operations = os })
  parts-IsDiff coarse =
      let tail = drop (length before - e) before in
      (
        parts_before,
        parts_after,
        omega (
          arith,
          count-sides os,
          length-parts (take s before) (old_side os) tail before parts_before,
          length-parts (take s before) (new_side os) tail after parts_after,
        ),
      )

-- The comparison of two sides tells both: the equal lines at the head, the lines that the operations keep or
-- remove, and the equal lines at the tail are the lines before; with the lines that they keep or add they
-- are the lines after; and the lines added and removed account for the difference in length.
pub compare_sides-IsDiff :
    (limits : Limits) (before after : List String)
    → IsDiff before after (compare_sides limits before after)
unfolding compare_sides
compare_sides-IsDiff limits before after =
    let s = common_head before after in
    let room = common_head-bound before after in
    let (ends, bounded) =
      common_tail-SameEnd before after (min (length before - s) (length after - s)) 0 (omega arith)
        (omega arith) (drop_whole before ∙ sym (drop_whole after)) in
    let e = common_tail before after (min (length before - s) (length after - s)) 0 in
    let begins = common_head-take before after in
    let b = slice s (length before - e) before in
    let a = slice s (length after - e) after in
    let p : s ≤ length before - e = omega (arith, bounded, room.0, room.1) in
    let q : s ≤ length after - e = omega (arith, bounded, room.0, room.1) in
    if_cases (IsDiff before after)
      (ltb (limits.max_compared_lines * limits.max_compared_lines) (length b * length a))
      (λ big.
        parts-IsDiff before after s e (with_kind remove b ++ with_kind add a) begins ends p q
          (coarse-Tells b a) true)
      (λ small.
        parts-IsDiff before after s e (diff_lines b a) begins ends p q (diff_lines-Tells b a) false)

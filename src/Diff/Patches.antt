-- ===== src/Diff/Patches.antt =====
-- src/providers/text-diff.js: the operations of a comparison tell both sides.
use etnpilot.Common.{
  ℕ, ◌+◌, ◌≡◌, refl, ap, ◌∙◌, Bool, true, false, List, [], ◌∷◌, ◌++◌, String, str_eq, leb,
  str_eq→eq,
}
use etnpilot.Diff.Lines.{
  Kind, add, remove, context, Operation, with_kind, fill_table, table_at, walk, diff_lines,
}

-- The lines that the operations keep or remove, and those that they keep or add.
abbrev pub old_text : Kind → String → List String → List String
old_text add x rest = rest
old_text remove x rest = x ∷ rest
old_text context x rest = x ∷ rest

abbrev pub new_text : Kind → String → List String → List String
new_text add x rest = x ∷ rest
new_text remove x rest = rest
new_text context x rest = x ∷ rest

abbrev pub old_side : List Operation → List String
old_side [] = []
old_side (o ∷ os) = old_text o.kind o.text (old_side os)

abbrev pub new_side : List Operation → List String
new_side [] = []
new_side (o ∷ os) = new_text o.kind o.text (new_side os)

old_side-add : (ys : List String) → old_side (with_kind add ys) ≡ []
old_side-add [] = refl
old_side-add (y ∷ ys) = old_side-add ys

new_side-add : (ys : List String) → new_side (with_kind add ys) ≡ ys
new_side-add [] = refl
new_side-add (y ∷ ys) = ap (λ t. y ∷ t) (new_side-add ys)

old_side-remove : (xs : List String) → old_side (with_kind remove xs) ≡ xs
old_side-remove [] = refl
old_side-remove (x ∷ xs) = ap (λ t. x ∷ t) (old_side-remove xs)

new_side-remove : (xs : List String) → new_side (with_kind remove xs) ≡ []
new_side-remove [] = refl
new_side-remove (x ∷ xs) = new_side-remove xs

old_text-append :
    (k : Kind) (x : String) (xs ys : List String) → old_text k x (xs ++ ys) ≡ old_text k x xs ++ ys
old_text-append add x xs ys = refl
old_text-append remove x xs ys = refl
old_text-append context x xs ys = refl

new_text-append :
    (k : Kind) (x : String) (xs ys : List String) → new_text k x (xs ++ ys) ≡ new_text k x xs ++ ys
new_text-append add x xs ys = refl
new_text-append remove x xs ys = refl
new_text-append context x xs ys = refl

old_side-append : (os ps : List Operation) → old_side (os ++ ps) ≡ old_side os ++ old_side ps
old_side-append [] ps = refl
old_side-append (o ∷ os) ps =
    ap (old_text o.kind o.text) (old_side-append os ps)
    ∙ old_text-append o.kind o.text (old_side os) (old_side ps)

new_side-append : (os ps : List Operation) → new_side (os ++ ps) ≡ new_side os ++ new_side ps
new_side-append [] ps = refl
new_side-append (o ∷ os) ps =
    ap (new_text o.kind o.text) (new_side-append os ps)
    ∙ new_text-append o.kind o.text (new_side os) (new_side ps)

append_nil : (xs : List String) → xs ++ [] ≡ xs
append_nil [] = refl
append_nil (x ∷ xs) = ap (λ t. x ∷ t) (append_nil xs)

-- The operations tell both sides.
abbrev pub Tells : List String → List String → List Operation → Type 0
Tells xs ys os = (old_side os ≡ xs) × (new_side os ≡ ys)

walk-Tells :
    (table : List (List ℕ)) (xs ys : List String) (row column : ℕ)
    → Tells xs ys (walk table xs ys row column)
unfolding walk
walk-Tells table [] ys row column = (old_side-add ys, new_side-add ys)
walk-Tells table (x ∷ xs) [] row column = (old_side-remove (x ∷ xs), new_side-remove (x ∷ xs))
walk-Tells table (x ∷ xs) (y ∷ ys) row column =
    by_lines (str_eq x y) refl
      (leb (table_at table row (column + 1)) (table_at table (row + 1) column))
      (walk-Tells table xs ys (row + 1) (column + 1))
      (walk-Tells table xs (y ∷ ys) (row + 1) column)
      (walk-Tells table (x ∷ xs) ys row (column + 1))
  where
    by_lines :
        (b : Bool)
        → str_eq x y ≡ b
        → (c : Bool) → Tells xs ys (walk table xs ys (row + 1) (column + 1))
        → Tells xs (y ∷ ys) (walk table xs (y ∷ ys) (row + 1) column)
        → Tells (x ∷ xs) ys (walk table (x ∷ xs) ys row (column + 1))
        → Tells (x ∷ xs) (y ∷ ys) (elim b [
          | true ↦ record { kind = context; text = x } ∷ walk table xs ys (row + 1) (column + 1)
          | false ↦ elim c [
            | true ↦ record { kind = remove; text = x } ∷ walk table xs (y ∷ ys) (row + 1) column
            | false ↦ record { kind = add; text = y } ∷ walk table (x ∷ xs) ys row (column + 1)
          ]
        ])
    by_lines true e c both old new =
        (ap (λ t. x ∷ t) both.0, ap (λ t. x ∷ t) both.1 ∙ ap (λ z. z ∷ ys) (str_eq→eq x y e))
    by_lines false e true both old new = (ap (λ t. x ∷ t) old.0, old.1)
    by_lines false e false both old new = (new.0, ap (λ t. y ∷ t) new.1)

pub diff_lines-Tells : (before after : List String) → Tells before after (diff_lines before after)
unfolding diff_lines
diff_lines-Tells before after = walk-Tells (fill_table before after) before after 0 0

pub coarse-Tells :
    (before after : List String)
    → Tells before after (with_kind remove before ++ with_kind add after)
coarse-Tells before after = (
  old_side-append (with_kind remove before) (with_kind add after)
      ∙ ap (λ t. old_side (with_kind remove before) ++ t) (old_side-add after)
      ∙ append_nil (old_side (with_kind remove before))
      ∙ old_side-remove before,
  new_side-append (with_kind remove before) (with_kind add after)
      ∙ ap (λ t. t ++ new_side (with_kind add after)) (new_side-remove before)
      ∙ new_side-add after,
)

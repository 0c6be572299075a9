-- ===== src/Diff/Lines.antt =====
-- src/providers/text-diff.js: `diffLines`, with the table of the longest common subsequences.
use etnpilot.Common.{
  ℕ, zero, suc, ◌+◌, max, true, false, Option, none, some, List, [], ◌∷◌, String, str_eq,
  if◌then◌else◌, leb,
}

pub data Kind : Type 0 where
  add remove context : Kind

pub record Operation : Type 0 where
  pub kind : Kind
  pub text : String

abbrev pub nth {ℓ} : {A : Type ℓ} → ℕ → List A → Option A
nth n [] = none
nth zero (x ∷ xs) = some x
nth (suc n) (x ∷ xs) = nth n xs

-- An entry of a row; what is beyond the row is not read.
abbrev pub entry_in : Option ℕ → ℕ
entry_in none = 0
entry_in (some n) = n

abbrev pub row_in : Option (List ℕ) → List ℕ
row_in none = []
row_in (some r) = r

-- `table[at(row, column)]`.
abbrev pub table_at : List (List ℕ) → ℕ → ℕ → ℕ
table_at table row column = entry_in (nth column (row_in (nth row table)))

-- The last row of the table, of zeros.
abbrev pub zero_row : List String → List ℕ
zero_row [] = 0 ∷ []
zero_row (y ∷ ys) = 0 ∷ zero_row ys

abbrev pub first_of_row : List ℕ → ℕ
first_of_row [] = 0
first_of_row (n ∷ ns) = n

abbrev pub rest_of_row : List ℕ → List ℕ
rest_of_row [] = []
rest_of_row (n ∷ ns) = ns

-- The row of the line `x`, from its last column to its first, over the row below.
abbrev pub next_row : String → List String → List ℕ → List ℕ
next_row x [] below = 0 ∷ []
next_row x (y ∷ ys) below =
    let rest = next_row x ys (rest_of_row below) in
    (if str_eq x y
      then first_of_row (rest_of_row below) + 1
      else max (first_of_row below) (first_of_row rest))
    ∷ rest

abbrev pub first_row : List (List ℕ) → List ℕ
first_row [] = []
first_row (r ∷ rs) = r

abbrev pub fill_table : List String → List String → List (List ℕ)
fill_table [] after = zero_row after ∷ []
fill_table (x ∷ xs) after =
    let below = fill_table xs after in next_row x after (first_row below) ∷ below

abbrev pub with_kind : Kind → List String → List Operation
with_kind k [] = []
with_kind k (x ∷ xs) = record { kind = k; text = x } ∷ with_kind k xs

-- The three loops that read the table, from a row and a column, over the lines that are left.
unfoldable pub walk : List (List ℕ) → List String → List String → ℕ → ℕ → List Operation
walk table [] ys row column = with_kind add ys
walk table (x ∷ xs) [] row column = with_kind remove (x ∷ xs)
walk table (x ∷ xs) (y ∷ ys) row column = elim (str_eq x y) [
  | true ↦ record { kind = context; text = x } ∷ walk table xs ys (row + 1) (column + 1)
  | false ↦ elim (leb (table_at table row (column + 1)) (table_at table (row + 1) column)) [
    | true ↦ record { kind = remove; text = x } ∷ walk table xs (y ∷ ys) (row + 1) column
    | false ↦ record { kind = add; text = y } ∷ walk table (x ∷ xs) ys row (column + 1)
  ]
]

-- `diffLines`.
unfoldable pub diff_lines : List String → List String → List Operation
diff_lines before after = walk (fill_table before after) before after 0 0

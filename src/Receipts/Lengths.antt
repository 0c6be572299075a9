-- ===== src/Receipts/Lengths.antt =====
-- src/runtime/jsonl.js: a file without a line of 8 MiB is read whole, and its last line is found.
use etnpilot.Common.{
  ◌+◌, ◌≡◌, ◌⊎◌, refl, ap, ◌∙◌, Bool, true, false, Option, none, some, List, [], ◌∷◌, ◌++◌, ltb,
  leb, any, arith, Bool-cases, inl, inr, Result, ok, err,
}
use etnpilot.Receipts.Lines.{
  Line, FileLine, contents, chunk, max_line_bytes, LineError, line_too_long, read_rest,
  read_last_line,
}
use etnpilot.Receipts.Store.{Hashing}
use etnpilot.Receipts.Chain.{
  Options, Chain, Failure, and_then, push, push_all, push_file, push_file_all, finish,
  verify_receipt, verify_receipt_file,
}

-- A line of 8 MiB or more, without its newline.
abbrev pub is_long : FileLine → Bool
is_long l = leb max_line_bytes l.bytes

abbrev pub last_line : List Line → Option Line
last_line [] = none
last_line (l ∷ []) = some l
last_line (l ∷ k ∷ ls) = last_line (k ∷ ls)

pub contents-snoc :
    (ls : List FileLine) (l : FileLine) → contents (ls ++ l ∷ []) ≡ contents ls ++ l.content ∷ []
contents-snoc [] l = refl
contents-snoc (k ∷ ls) l = ap (λ xs. k.content ∷ xs) (contents-snoc ls l)

-- The last line is read, or a line is long and the reading fails.
abbrev pub Reads : List FileLine → Result LineError (Option Line) → Type 0
Reads ls r =
    (r ≡ ok (last_line (contents ls))) ⊎ ((any is_long ls ≡ true) × (e : LineError) × (r ≡ err e))

read_rest-Reads : (ls : List FileLine) → Reads ls (read_rest ls)
read_rest-Reads [] = inl refl
read_rest-Reads (l ∷ []) = elim (Bool-cases (ltb (max_line_bytes + chunk) (l.bytes + 2))) [
  | inl over ↦ inr (ground arith, line_too_long, rw over refl)
  | inr under ↦ inl (rw under refl)
]
read_rest-Reads (l ∷ k ∷ ls) = elim (read_rest-Reads (k ∷ ls)) [
  | inl e ↦ inl e
  | inr (long, e, failed) ↦ inr (ground arith, e, failed)
]

pub read_last_line-Reads : (ls : List FileLine) → Reads ls (read_last_line ls)
read_last_line-Reads [] = inl refl
read_last_line-Reads (l ∷ []) = elim (Bool-cases (ltb max_line_bytes (l.bytes + 1))) [
  | inl over ↦ inr (ground arith, line_too_long, rw over refl)
  | inr under ↦ inl (rw under refl)
]
read_last_line-Reads (l ∷ k ∷ ls) = elim (read_rest-Reads (k ∷ ls)) [
  | inl e ↦ inl e
  | inr (long, e, failed) ↦ inr (ground arith, e, failed)
]

module _ (h : Hashing) (o : Options) where
  push_file-eq :
      (c : Chain) (l : FileLine) → is_long l ≡ false → push_file h o c l ≡ push h o c l.content
  push_file-eq c l short =
      let fits : ltb max_line_bytes l.bytes ≡ false = ground arith in rw fits refl

  push_file_all-eq :
      (c : Chain) (ls : List FileLine)
      → any is_long ls ≡ false
      → push_file_all h o c ls ≡ push_all h o c (contents ls)
  unfolding push_file_all push_all
  push_file_all-eq c [] short = refl
  push_file_all-eq c (l ∷ ls) short =
      ap (λ r. and_then h o r (λ d. push_file_all h o d ls)) (push_file-eq c l (ground arith))
      ∙ go (push h o c l.content) (λ d. push_file_all-eq d ls (ground arith))
    where
      go :
          (r : Result Failure Chain)
          → ((d : Chain) → push_file_all h o d ls ≡ push_all h o d (contents ls))
          → and_then h o r (λ d. push_file_all h o d ls)
            ≡ and_then h o r (λ d. push_all h o d (contents ls))
      go (ok d) ih = ih d
      go (err e) ih = refl

  -- The file is verified as the text of it is.
  pub verify_receipt_file-eq :
      (ls : List FileLine)
      → any is_long ls ≡ false
      → verify_receipt_file h o ls ≡ verify_receipt h o (contents ls)
  unfolding verify_receipt_file verify_receipt
  verify_receipt_file-eq ls short =
      ap (λ r. and_then h o r (finish h o)) (push_file_all-eq _ ls short)

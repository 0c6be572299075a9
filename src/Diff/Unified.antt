-- ===== src/Diff/Unified.antt =====
-- src/providers/text-diff.js: `unifiedDiff`. A text is the list that its `split("\n")` gives; the numbers of
-- the head of the diff are fields of the result.
use Prim.Native.String.{◌++◌ as str_append}
use etnpilot.Common.{
  ℕ, zero, suc, ◌+◌, ◌-◌, ◌*◌, min, max, Bool, true, false, ◌&&◌, Option, none, some, List, [], ◌∷◌,
  ◌++◌, String, str_eq, if◌then◌else◌, ltb, leb, length, take, count,
}
use etnpilot.Diff.Lines.{Kind, add, remove, context, Operation, nth, with_kind, diff_lines}

pub record Limits : Type 0 where
  pub context_lines : ℕ
  pub max_compared_lines : ℕ
  pub max_diff_lines : ℕ

-- `splitLines`: the empty end after a final newline is no line, and neither is the empty text.
abbrev pub without_last_empty : List String → List String
without_last_empty [] = []
without_last_empty (l ∷ []) = if str_eq l "" then [] else l ∷ []
without_last_empty (l ∷ k ∷ ls) = l ∷ without_last_empty (k ∷ ls)

abbrev pub split_lines : Option (List String) → List String
split_lines none = []
split_lines (some parts) = without_last_empty parts

abbrev pub drop : ℕ → List String → List String
drop zero xs = xs
drop (suc n) [] = []
drop (suc n) (x ∷ xs) = drop n xs

-- `lines.slice(from, to)`.
abbrev pub slice : ℕ → ℕ → List String → List String
slice from to xs = take (to - from) (drop from xs)

-- `start`: the number of equal lines at the head.
abbrev pub common_head : List String → List String → ℕ
common_head [] ys = 0
common_head (x ∷ xs) [] = 0
common_head (x ∷ xs) (y ∷ ys) = let rest = common_head xs ys in if str_eq x y then suc rest else 0

abbrev pub same_line : Option String → Option String → Bool
same_line (some x) (some y) = str_eq x y
same_line _ _ = false

-- `end`: the number of equal lines at the tail, from `e` on, for at most so many more.
abbrev pub common_tail : List String → List String → ℕ → ℕ → ℕ
common_tail before after zero e = e
common_tail before after (suc n) e =
    let rest = common_tail before after n (e + 1) in
    if same_line (nth (length before - 1 - e) before) (nth (length after - 1 - e) after)
    then rest
    else e

-- The places where the sides begin and cease to differ, and how the lines between them differ.
pub record Comparison : Type 0 where
  pub start : ℕ
  pub ending : ℕ
  pub coarse : Bool
  pub operations : List Operation

abbrev pub compare_middles : Limits → ℕ → ℕ → List String → List String → Comparison
compare_middles limits start ending before after =
    let fine = diff_lines before after in
    if ltb (limits.max_compared_lines * limits.max_compared_lines) (length before * length after)
    then record {
      start = start;
      ending = ending;
      coarse = true;
      operations = with_kind remove before ++ with_kind add after;
    }
    else record { start = start; ending = ending; coarse = false; operations = fine }

unfoldable pub compare_sides : Limits → List String → List String → Comparison
compare_sides limits before after =
    let start = common_head before after in
    let ending = common_tail before after (min (length before - start) (length after - start)) 0 in
    compare_middles limits start ending (slice start (length before - ending) before)
      (slice start (length after - ending) after)

abbrev pub is_add : Operation → Bool
is_add o = elim o.kind [ add ↦ true | _ ↦ false ]

abbrev pub is_remove : Operation → Bool
is_remove o = elim o.kind [ remove ↦ true | _ ↦ false ]

abbrev pub sign : Kind → String
sign add = "+"
sign remove = "-"
sign context = " "

abbrev pub marked : Kind → List String → List String
marked k [] = []
marked k (x ∷ xs) = str_append (sign k) x ∷ marked k xs

abbrev pub body_lines : List Operation → List String
body_lines [] = []
body_lines (o ∷ os) = str_append (sign o.kind) o.text ∷ body_lines os

-- `cut`: the lines that are shown, and how many are not.
pub record Cut : Type 0 where
  pub lines : List String
  pub hidden : ℕ
  pub truncated : Bool

abbrev pub cut : List String → ℕ → Cut
cut lines limit =
    if leb (length lines) limit
    then record { lines = lines; hidden = 0; truncated = false }
    else record { lines = take limit lines; hidden = length lines - limit; truncated = true }

-- The result, with the numbers of its `@@` line.
pub record Diff : Type 0 where
  pub added : ℕ
  pub deleted : ℕ
  pub coarse : Bool
  pub body : Cut
  pub old_start : ℕ
  pub old_count : ℕ
  pub new_count : ℕ

pub data Answer : Type 0 where
  unchanged : Answer
  created changed : Diff → Answer

abbrev pub created_diff : Limits → List String → Diff
created_diff limits after = record {
  added = length after;
  deleted = 0;
  coarse = false;
  body = cut (marked add after) limits.max_diff_lines;
  old_start = 0;
  old_count = 0;
  new_count = length after;
}

abbrev pub changed_diff : Limits → List String → List String → Comparison → Diff
changed_diff limits before after c =
    let leading = slice (c.start - limits.context_lines) c.start before in
    let trailing =
      slice (length before - c.ending) (length before - c.ending + limits.context_lines) before in
    record {
      added = count is_add c.operations;
      deleted = count is_remove c.operations;
      coarse = c.coarse;
      body =
          cut (marked context leading ++ (body_lines c.operations ++ marked context trailing))
            limits.max_diff_lines;
      old_start = max 1 (c.start - length leading + 1);
      old_count =
          length leading
          + length (slice c.start (length before - c.ending) before)
          + length trailing;
      new_count =
          length leading + length (slice c.start (length after - c.ending) after) + length trailing;
    }

abbrev pub same_parts : List String → List String → Bool
same_parts [] [] = true
same_parts (x ∷ xs) (y ∷ ys) = str_eq x y && same_parts xs ys
same_parts _ _ = false

abbrev pub diff_texts : Limits → List String → List String → Answer
diff_texts limits before after =
    if same_parts before after
    then unchanged
    else changed (
        changed_diff limits (without_last_empty before) (without_last_empty after)
          (compare_sides limits (without_last_empty before) (without_last_empty after)))

-- `unifiedDiff`, from a text that may not be there to one that is.
unfoldable pub unified_diff : Limits → Option (List String) → List String → Answer
unified_diff limits none after = created (created_diff limits (without_last_empty after))
unified_diff limits (some before) after = diff_texts limits before after

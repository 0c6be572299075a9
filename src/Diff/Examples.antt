-- ===== src/Diff/Examples.antt =====
-- A change of two lines, and one that the diff does not show.
use etnpilot.Common.{◌≡◌, refl, false, some, List, [], ◌∷◌, String}
use etnpilot.Diff.Lines.{add, remove, context, walk, diff_lines}
use etnpilot.Diff.Unified.{Limits, compare_sides, changed, unified_diff}
use etnpilot.Diff.Sides.{IsDiff, compare_sides-IsDiff}

abbrev limits : Limits
limits = record { context_lines = 1; max_compared_lines = 2000; max_diff_lines = 400 }

abbrev before : List String
before = "a" ∷ "b" ∷ "c" ∷ "d" ∷ []

abbrev after : List String
after = "a" ∷ "x" ∷ "c" ∷ "y" ∷ "d" ∷ []

operations_here :
    (compare_sides limits before after).operations
    ≡ record { kind = remove; text = "b" }
      ∷ record { kind = add; text = "x" }
      ∷ record { kind = context; text = "c" }
      ∷ record { kind = add; text = "y" }
      ∷ []
unfolding compare_sides diff_lines walk
operations_here = refl

-- The texts "a\n" and "a": the lines are the same, so a final newline that is taken away is not shown.
final_newline :
    unified_diff limits (some ("a" ∷ "" ∷ [])) ("a" ∷ [])
    ≡ changed (record {
      added = 0;
      deleted = 0;
      coarse = false;
      body = record { lines = " a" ∷ []; hidden = 0; truncated = false };
      old_start = 1;
      old_count = 1;
      new_count = 1;
    })
unfolding unified_diff compare_sides diff_lines walk
final_newline = refl

compare_sides-IsDiff_example : IsDiff before after (compare_sides limits before after)
compare_sides-IsDiff_example = compare_sides-IsDiff limits before after

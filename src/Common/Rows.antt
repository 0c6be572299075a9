-- ===== src/Common/Rows.antt =====
-- A table of the SQLite database as the list of its rows, in the order of insertion, and the
-- statements on it: SELECT by a test, and UPDATE.
use mathlib.Core.Bool.{Bool}
use mathlib.Core.Option.{Option, none, some}
use mathlib.Core.List.{List, [], ◌∷◌}
use package.etnpilot.Common.Tests.{if◌then◌else◌}

module _ {R : Type 0} where
  -- `SELECT ... WHERE test`, for at most one row.
  abbrev pub select : (R → Bool) → List R → Option R
  select test [] = none
  select test (r ∷ t) = if test r then some r else select test t

  abbrev pub update_row : (R → Bool) → (R → R) → R → R
  update_row test f r = if test r then f r else r

  -- `UPDATE ... SET f WHERE test`.
  abbrev pub update : (R → Bool) → (R → R) → List R → List R
  update test f [] = []
  update test f (r ∷ t) = update_row test f r ∷ update test f t

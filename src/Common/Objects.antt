-- ===== src/Common/Objects.antt =====
-- JSON objects as lists of fields: reading, writing and leaving out a key.
use Prim.Native.Nat.{zero}
use Prim.Native.String.{String}
use text.Mathlib.Text.{◌==◌ as str_eq}
use text.Mathlib.TextEquality.{eq_iff}
use mathlib.Core.Path.{◌≡◌, refl}
use mathlib.Core.Logic.{inl, inr}
use mathlib.Core.Bool.{Bool, true, false}
use mathlib.Core.Option.{Option, none, some}
use native.Mathlib.Omega.{arith}
use package.etnpilot.Common.Tests.{if◌then◌else◌, Bool-cases, is_some}
use package.etnpilot.Common.Values.{Json, null, bool, num, str, Fields, end, field, put}

-- `object[key]`.
abbrev pub field_at : String → Fields → Option Json
field_at k end = none
field_at k (field j v fs) = if str_eq j k then some v else field_at k fs

-- `const { [key]: _, ...rest } = object`.
abbrev pub without : String → Fields → Fields
without k end = end
without k (field j v fs) = let rest = without k fs in if str_eq j k then rest else field j v rest

abbrev pub has_field : String → Fields → Bool
has_field k fs = is_some (field_at k fs)

-- `Boolean(value)`, of a value that may be missing.
abbrev pub is_truthy : Option Json → Bool
is_truthy none = false
is_truthy (some null) = false
is_truthy (some (bool b)) = b
is_truthy (some (num zero)) = false
is_truthy (some (str s)) = if str_eq s "" then false else true
is_truthy (some _) = true

pub field_at-put :
    (k j : String) (v : Json) (fs : Fields)
    → field_at k (put j v fs) ≡ (if str_eq j k then some v else field_at k fs)
field_at-put k j v end = refl
field_at-put k j v (field i w fs) = elim (Bool-cases (str_eq i j)) [
  | inl same ↦ rw same ground (arith, eq_iff i j, eq_iff i k, eq_iff j k)
  | inr other ↦ rw other ground (arith, field_at-put k j v fs, eq_iff i j, eq_iff i k, eq_iff j k)
]

pub without_absent : (k : String) (fs : Fields) → has_field k fs ≡ false → without k fs ≡ fs
without_absent k end h = refl
without_absent k (field j v fs) h = ground (arith, without_absent k fs)

-- What was added under a new key and left out again is as before.
pub without-put :
    (k : String) (v : Json) (fs : Fields) → has_field k fs ≡ false → without k (put k v fs) ≡ fs
without-put k v end h = ground (arith, eq_iff k k)
without-put k v (field j w fs) h = ground (arith, without-put k v fs)

pub without-put-other :
    (k j : String) (v : Json) (fs : Fields)
    → str_eq j k ≡ false
    → has_field k fs ≡ false
    → without k (put j v fs) ≡ put j v fs
without-put-other k j v fs ne h = without_absent k (put j v fs) (rw (field_at-put k j v fs, ne) h)

-- Leaving out another key than the one added.
pub without-put_comm :
    (k j : String) (v : Json) (fs : Fields)
    → str_eq j k ≡ false
    → without k (put j v fs) ≡ put j v (without k fs)
without-put_comm k j v end ne = rw ne refl
without-put_comm k j v (field i w fs) ne = elim (Bool-cases (str_eq i j)) [
  | inl same ↦ rw same ground (arith, eq_iff i j, eq_iff i k, eq_iff j k)
  | inr other ↦ rw other ground (arith, without-put_comm k j v fs ne)
]

pub field_at-without :
    (k j : String) (fs : Fields) → str_eq j k ≡ false → field_at j (without k fs) ≡ field_at j fs
field_at-without k j end ne = refl
field_at-without k j (field i w fs) ne =
    ground (arith, field_at-without k j fs, eq_iff i j, eq_iff i k, eq_iff j k)

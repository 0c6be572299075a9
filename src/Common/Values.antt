-- ===== src/Common/Values.antt =====
-- The values that the program writes as JSON text. A stored text is kept as the value it denotes,
-- and an ISO date as the milliseconds it denotes (`time`).
use Prim.Native.Nat.{ℕ}
use Prim.Native.String.{String}
use text.Mathlib.Text.{◌==◌ as str_eq}
use mathlib.Core.Bool.{Bool, true, false}
use package.etnpilot.Common.Tests.{if◌then◌else◌}

mutual
  pub data Json : Type 0 where
    null : Json
    bool : Bool → Json
    num : ℕ → Json
    time : ℕ → Json
    str : String → Json
    arr : Items → Json
    obj : Fields → Json

  pub data Items : Type 0 where
    nil : Items
    cons : Json → Items → Items

  pub data Fields : Type 0 where
    end : Fields
    field : String → Json → Fields → Fields

-- `object[key] = value`: an old key keeps its place.
abbrev pub put : String → Json → Fields → Fields
put k v end = field k v end
put k v (field j w fs) = if str_eq j k then field j v fs else field j w (put k v fs)

-- `{ ...base, ...extra }`.
abbrev pub spread : Fields → Fields → Fields
spread base end = base
spread base (field k v fs) = spread (put k v base) fs

-- `value && typeof value === "object"`; an array is an object too.
abbrev pub is_object : Json → Bool
is_object (arr xs) = true
is_object (obj fs) = true
is_object _ = false

-- A value that the program tests by `Number.isInteger`: a whole number that is not negative, or
-- anything else (a negative number, a fraction, NaN, no number).
pub data JsNumber : Type 0 where
  whole : ℕ → JsNumber
  other : JsNumber

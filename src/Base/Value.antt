-- ===== src/Base/Value.antt =====
-- The values of an `interface{}` that come from JSON or from a literal in the code, and the
-- `map[string]interface{}` that may be nil. A number is kept as the 64-bit pattern of its float64.
use duragraph.Base.Dict.{Dict}
use Prim.Native.Nat.{ℕ}
use Prim.Native.String.{String}
use mathlib.Core.Bool.{Bool}
use mathlib.Core.Option.{Option, none, some}
use mathlib.Core.List.{List, []}

mutual
  pub data Value : Type 0 where
    null : Value
    bool : Bool → Value
    float : ℕ → Value
    text : String → Value
    texts : List String → Value
    array : Items → Value
    object : Fields → Value

  pub data Items : Type 0 where
    nil : Items
    cons : Value → Items → Items

  pub data Fields : Type 0 where
    end : Fields
    field : String → Value → Fields → Fields

-- A `map[string]interface{}` that is not nil.
abbrev pub Obj : Type 0
Obj = Dict Value

-- One that may be nil.
abbrev pub GoMap : Type 0
GoMap = Option Obj

-- `if m == nil { m = make(map[string]interface{}) }`
unfoldable pub or_empty : GoMap → GoMap
or_empty none = some []
or_empty (some m) = some m

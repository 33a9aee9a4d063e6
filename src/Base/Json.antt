-- ===== src/Base/Json.antt =====
-- JSON values as Python's `json` makes them. A number that is no natural number (negative, or with
-- a fraction or an exponent) is kept as the text of its literal.
use Prim.Native.Nat.{ℕ}
use Prim.Native.String.{String}
use mathlib.Core.Bool.{Bool}
use mathlib.Core.Option.{Option, none, some}
use text.Mathlib.Text.{◌==◌ as str_eq}
use void_switch.Base.Tests.{if◌then◌else◌}

mutual
  pub data Json : Type 0 where
    null : Json
    bool : Bool → Json
    num : ℕ → Json
    other_num : String → Json
    str : String → Json
    arr : Items → Json
    obj : Fields → Json

  pub data Items : Type 0 where
    nil : Items
    cons : Json → Items → Items

  pub data Fields : Type 0 where
    end : Fields
    field : String → Json → Fields → Fields

-- d.get(key). A dict has a key once; the first stands for it.
unfoldable pub get : String → Fields → Option Json
get k end = none
get k (field j v fs) = let rest = get k fs in if str_eq j k then some v else rest

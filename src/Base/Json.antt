-- ===== src/Base/Json.antt =====
-- JSON values as `encoding/json` decodes them into `any`: an object is a list of fields sorted by
-- name, each name once, so that equality of values is `reflect.DeepEqual`; a number is its literal.
use mathlib.Core.Bool.{Bool}
use Prim.Native.String.{String}
use ma_secure.Base.Tests.{String-cases, ne_of_eq_false}
use mathlib.Core.Logic.{inl, inr}

mutual
  pub data Json : Type 0 where
    null : Json
    bool : Bool → Json
    num : String → Json
    str : String → Json
    arr : Items → Json
    obj : Fields → Json

  pub data Items : Type 0 where
    nil : Items
    cons : Json → Items → Items

  pub data Fields : Type 0 where
    end : Fields
    field : String → Json → Fields → Fields

unfoldable pub String-discrete : Discrete String
String-discrete s t = elim (String-cases s t) [ inl e ↦ yes e | inr e ↦ no (ne_of_eq_false s t e) ]

unfoldable pub Fields-discrete : Discrete Fields
Fields-discrete = hlevel String-discrete

-- ===== src/Base/Dynamic.antt =====
-- The dynamic values of the services: request bodies, JSON columns, event payloads. Numbers are
-- the non-negative integers; nothing computes with them.
use Prim.Native.Nat.{ℕ}
use Prim.Native.String.{String, ◌++◌ as text_append}
use mathlib.Core.Bool.{Bool, true, false, not}
use mathlib.Core.Option.{Option, none, some}
use backend_core_platform.Base.Tests.{◌==◌, Eq_ℕ, Eq_String, is_empty, if◌then◌else◌}

mutual
  pub data Value : Type 0 where
    undefined null : Value
    bool : Bool → Value
    num : ℕ → Value
    str : String → Value
    obj : Fields → Value
    arr : Items → Value

  pub data Items : Type 0 where
    nil : Items
    cons : Value → Items → Items

  pub data Fields : Type 0 where
    end : Fields
    field : String → Value → Fields → Fields

-- Whether `if (v)` takes its branch.
abbrev pub truthy : Value → Bool
truthy undefined = false
truthy null = false
truthy (bool b) = b
truthy (num n) = not (n == 0)
truthy (str s) = not (is_empty s)
truthy (arr items) = true
truthy (obj fields) = true

-- Property access, `v?.key`: `undefined` where there is no such property.
abbrev pub lookup : String → Fields → Value
lookup key end = undefined
lookup key (field name v rest) = if name == key then v else lookup key rest

abbrev pub prop : String → Value → Value
prop key (obj fields) = lookup key fields
prop key undefined = undefined
prop key null = undefined
prop key (bool b) = undefined
prop key (num n) = undefined
prop key (str s) = undefined
prop key (arr items) = undefined

-- `a ?? b` at dynamic values.
abbrev pub or_else : Value → Value → Value
or_else undefined b = b
or_else null b = b
or_else (bool x) b = bool x
or_else (num x) b = num x
or_else (str x) b = str x
or_else (arr x) b = arr x
or_else (obj x) b = obj x

-- A property that is declared as a text.
abbrev pub as_text : Value → Option String
as_text (str s) = some s
as_text undefined = none
as_text null = none
as_text (bool b) = none
as_text (num n) = none
as_text (arr items) = none
as_text (obj fields) = none

-- Texts put together, as in a template.
abbrev pub concat : String → String → String
concat a b = text_append a b

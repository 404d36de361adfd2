-- ===== src/Common/Values.antt =====
-- The values that code which validates its input looks at.
use Prim.Native.Nat.{ℕ}
use Prim.Native.String.{String}
use mathlib.Core.Bool.{Bool, true, false, ◌&&◌}
use mathlib.Core.List.{List}
use agentknot.Common.Lists.{any}
use agentknot.Common.Tests.{if◌then◌else◌}
use agentknot.Common.Tables.{text_eq}

-- A non-negative integer, or another number: whether it is finite and not negative, and its text.
pub data Number : Type 0 where
  natural : ℕ → Number
  other_number : Bool → String → Number

mutual
  pub data Json : Type 0 where
    undefined null : Json
    boolean : Bool → Json
    number : Number → Json
    text : String → Json
    array : Items → Json
    object : Fields → Json

  pub data Items : Type 0 where
    no_items : Items
    item : Json → Items → Items

  pub data Fields : Type 0 where
    no_fields : Fields
    field : String → Json → Fields → Fields

-- `value[key]` of an object
unfoldable pub get_field : String → Fields → Json
get_field key no_fields = undefined
get_field key (field k v fs) = if text_eq k key then v else get_field key fs

-- `Object.hasOwn(value, key)`
unfoldable pub has_own : String → Fields → Bool
has_own key no_fields = false
has_own key (field k v fs) = if text_eq k key then true else has_own key fs

-- Every key of an object is one of `keys`.
abbrev pub is_among : List String → String → Bool
is_among keys key = any (λ (k : String). text_eq k key) keys

abbrev pub keys_among : List String → Fields → Bool
keys_among keys no_fields = true
keys_among keys (field k v fs) = is_among keys k && keys_among keys fs

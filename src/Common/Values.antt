-- ===== src/Common/Values.antt =====
-- Values of the runtime, as code that does not know their type reads them.
use Prim.Native.Nat.{ℕ}
use Prim.Native.String.{String}
use mathlib.Core.Bool.{Bool}
use manifest_mcp_mono.Common.Texts.{Text, codes, same_text}
use manifest_mcp_mono.Common.Booleans.{if◌then◌else◌}

-- `number` is a natural number, and `other` any primitive that is none of the rest.
mutual
  pub data Datum : Type 0 where
    undefined null : Datum
    truth : Bool → Datum
    number : ℕ → Datum
    string : Text → Datum
    other : ℕ → Datum
    array : Elements → Datum
    object : Members → Datum

  pub data Elements : Type 0 where
    no_elements : Elements
    element : Datum → Elements → Elements

  -- `Object.entries`, in its order.
  pub data Members : Type 0 where
    no_members : Members
    member : (key : Text) (value : Datum) → Members → Members

abbrev pub member_of : Text → Members → Datum
member_of key no_members = undefined
member_of key (member k v ms) = if same_text k key then v else member_of key ms

-- A property of a value that may be no object.
abbrev pub field : String → Datum → Datum
field key (object ms) = member_of (codes key) ms
field key _ = undefined

-- ===== src/Dap/Json.antt =====
-- What the debug adapter uses of `serde_json`: a type of values with their constructors, accessors
-- and text, and the deserializer that `derive` makes for the request envelope of
-- crates/dap/src/protocol.rs.
use mirrorscope.Prelude.{ℕ, Bool, Option, List}
use mirrorscope.Prelude.Bytes.{Bytes}
use mirrorscope.Prelude.Ints.{ℤ}

pub record Request (Value : Type 0) : Type 0 where
  pub seq : ℕ
  pub command : Bytes
  pub arguments : Value

-- Serializing a `Value` does not fail; deserializing answers nothing for a text that is no JSON,
-- or a value that is no request.
pub record Json : Type 1 where
  pub Value : Type 0
  pub boolean : Bool → Value
  pub number : ℤ → Value
  pub string : Bytes → Value
  pub array : List Value → Value
  pub object : List (Bytes × Value) → Value
  pub get : Bytes → Value → Option Value
  pub as_str : Value → Option Bytes
  pub as_u64 : Value → Option ℕ
  pub to_vec : Value → Bytes
  pub from_slice : Bytes → Option Value
  pub to_request : Value → Option (Request Value)

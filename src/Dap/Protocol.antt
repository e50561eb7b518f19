-- ===== src/Dap/Protocol.antt =====
-- crates/dap/src/protocol.rs: the messages that the server sends, and their JSON.
use mirrorscope.Prelude.{ℕ, true, false, [], ◌∷◌}
use mirrorscope.Prelude.Bytes.{Bytes}
use mirrorscope.Prelude.Ints.{pos}
use mirrorscope.Prelude.Text.{codes}
use mirrorscope.Dap.Json.{Json, Request}

-- A message by what makes it: the arguments of the three builders.
pub data Message (Value : Type 0) : Type 0 where
  success : (seq : ℕ) (request : Request Value) (body : Value) → Message Value
  failure : (seq : ℕ) (request : Request Value) (message : Bytes) → Message Value
  event : (seq : ℕ) (name : Bytes) (body : Value) → Message Value

module _ (json : Json) where
  open json use {Value, boolean, number, string, object}

  unfoldable pub to_value : Message Value → Value
  to_value (success seq request body) = object (
      (codes "seq", number (pos seq))
      ∷ (codes "type", string (codes "response"))
      ∷ (codes "request_seq", number (pos request.seq))
      ∷ (codes "command", string request.command)
      ∷ (codes "success", boolean true)
      ∷ (codes "body", body)
      ∷ [])
  to_value (failure seq request message) = object (
      (codes "seq", number (pos seq))
      ∷ (codes "type", string (codes "response"))
      ∷ (codes "request_seq", number (pos request.seq))
      ∷ (codes "command", string request.command)
      ∷ (codes "success", boolean false)
      ∷ (codes "message", string message)
      ∷ [])
  to_value (event seq name body) = object (
      (codes "seq", number (pos seq))
      ∷ (codes "type", string (codes "event"))
      ∷ (codes "event", string name)
      ∷ (codes "body", body)
      ∷ [])

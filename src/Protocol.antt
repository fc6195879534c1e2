-- ===== src/Protocol.antt =====
-- The wire format of protocol/wire.go: the envelopes exchanged with a Node process.
use revelt.Base.{ℕ, Option, List}
use revelt.Text.{Text}

-- A Go map[string]any: nil, or keys with values as their JSON text.
abbrev pub Props : Type 0
Props = Option (List (Text × Text))

pub record RenderRequest : Type 0 where
  pub id : ℕ  -- RequestID, a uint64
  pub component : Text
  pub props : Props

pub record RenderResponse : Type 0 where
  pub id : ℕ
  pub html : Text
  pub head : Text
  pub error : Text

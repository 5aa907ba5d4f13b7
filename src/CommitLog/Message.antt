-- ===== src/CommitLog/Message.antt =====
-- The message Record of protos/log/v1/log.proto, and the protobuf package as a parameter.
use distributed_systems_trai.Base.{ℕ, ◌≡◌, List, Result, ok}

pub record Record : Type 0 where
  pub value : List ℕ
  pub offset : ℕ
  pub term : ℕ
  pub type : ℕ

-- proto.Marshal and proto.Unmarshal at `Record`: what was marshalled is unmarshalled to the same
-- message.
pub record Codec : Type 0 where
  pub to_bytes : Record → Result (List ℕ)
  pub of_bytes : List ℕ → Result Record
  pub of_to : (r : Record) (p : List ℕ) → to_bytes r ≡ ok p → of_bytes p ≡ ok r

-- ===== src/Broadcast.antt =====
-- src/dv_spec/subspecs/reliable_bcast/reliable_broadcast.py: the messages of the two phases and the
-- hash that is signed.
use distributed_validator_sp.Base.{Bool, ◌&&◌, List, ◌++◌, ◌==◌, nat_eq, list_eq}
use distributed_validator_sp.Types.{Bytes}
use distributed_validator_sp.Crypto.{Crypto}

pub record AnyMessage : Type 0 where
  pub type_url : Bytes
  pub value : Bytes

unfoldable pub compute_any_hash : Crypto → AnyMessage → Bytes
compute_any_hash c any_msg = c.sha256 (any_msg.type_url ++ any_msg.value)

pub record BCastSigRequest : Type 0 where
  pub message_id : Bytes
  pub message : AnyMessage

pub record BCastSigResponse : Type 0 where
  pub signature : Bytes

pub record BCastMessage : Type 0 where
  pub message_id : Bytes
  pub message : AnyMessage
  pub signatures : List Bytes

pub record EquivocationGuardKey : Type 0 where
  pub requester_peer_id : Bytes
  pub message_id : Bytes

-- The generated `==` of the fields.
unfoldable pub guard_key_beq : EquivocationGuardKey → EquivocationGuardKey → Bool
guard_key_beq a b = a.requester_peer_id == b.requester_peer_id && a.message_id == b.message_id

-- ===== src/Dkg/Sync.antt =====
-- src/dv_spec/subspecs/dkg_sync/message.py: the messages that keep the nodes of a ceremony in step. A
-- time is a number of microseconds.
use distributed_validator_sp.Base.{
  ℕ, Bool, not, ◌&&◌, ◌∷◌, [], leb, ltb, count, Result, ok, guard, ◌>>◌,
}
use distributed_validator_sp.Types.{Bytes}

pub data SyncError : Type 0 where
  sync_nickname_too_long : SyncError

-- "/charon/dkg/sync/1.0.0/"
abbrev pub dkg_sync_protocol_id : Bytes
dkg_sync_protocol_id =
    47 ∷ 99 ∷ 104 ∷ 97 ∷ 114 ∷ 111 ∷ 110 ∷ 47 ∷ 100 ∷ 107 ∷ 103 ∷ 47 ∷ 115 ∷ 121 ∷ 110 ∷ 99 ∷ 47
    ∷ 49 ∷ 46 ∷ 48 ∷ 46 ∷ 48 ∷ 47 ∷ []

pub record MsgSync : Type 0 where
  pub timestamp : ℕ
  pub hash_signature : Bytes
  pub shutdown : Bool
  pub version : Bytes
  pub step : ℕ
  pub nickname : Bytes

-- The constructor, with the bound on the characters of the nickname.
unfoldable pub check_msg_sync : MsgSync → Result SyncError MsgSync
check_msg_sync msg = do
  guard (leb (count (λ b. not (leb 128 b && ltb b 192)) msg.nickname) 32) sync_nickname_too_long
  ok msg

pub record MsgSyncResponse : Type 0 where
  pub sync_timestamp : ℕ
  pub error : Bytes

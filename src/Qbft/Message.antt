-- ===== src/Qbft/Message.antt =====
-- qbft/message.py: the messages, their validators, and the limits on a received message; and the
-- encoding of qbft/hashing.py, over which a message is signed.
use distributed_validator_sp.Base.{
  ℕ, ◌+◌, ◌*◌, ◌≡◌, Bool, true, false, ◌&&◌, not, Option, none, some, List, [], ◌∷◌, ◌++◌, Eq, ◌==◌,
  nat_eq, list_eq, option_eq, eq_by_code, ltb, leb, if◌then◌else◌, length, arith, Result, ok, err,
}
use distributed_validator_sp.Types.{Bytes, Duty}
use distributed_validator_sp.Crypto.{
  Crypto, Error, invalid_message, too_many_justifications, too_many_values,
}
use distributed_validator_sp.Encoding.Proto.{
  varint_field, length_delimited, bytes_field, encode_duty,
}
use distributed_validator_sp.Encoding.Ssz.{zero_chunk, hash_proto}

pub data MsgType : Type 0 where
  pre_prepare prepare commit round_change decided : MsgType

abbrev pub msg_type_code : MsgType → ℕ
msg_type_code pre_prepare = 1
msg_type_code prepare = 2
msg_type_code commit = 3
msg_type_code round_change = 4
msg_type_code decided = 5

pub msg_type_code-injective : (a b : MsgType) → msg_type_code a ≡ msg_type_code b → a ≡ b
msg_type_code-injective a b h = ground arith

instance abbrev pub msg_type_eq : Eq MsgType
msg_type_eq = eq_by_code msg_type_code msg_type_code-injective

pub record QbftMsg : Type 0 where
  pub type : MsgType
  pub duty : Duty
  pub peer_idx : ℕ
  pub round : ℕ
  pub prepared_round : ℕ
  pub signature : Option Bytes
  pub value_hash : Option Bytes
  pub prepared_value_hash : Bytes

-- `v is None or len(v) == n`
abbrev pub absent_or_length : ℕ → Option Bytes → Bool
absent_or_length n none = true
absent_or_length n (some v) = length v == n

-- The field validators together: every failure raises the same `ValidationError`. Numbers are not
-- negative here, so those tests are left out.
unfoldable pub validate : QbftMsg → Bool
validate m =
    leb 1 m.round
    && (leb m.prepared_round m.round
        && (absent_or_length 65 m.signature
            && (absent_or_length 32 m.value_hash
                && (length m.prepared_value_hash == 32
                    && (if m.prepared_round == 0
                        then m.prepared_value_hash == zero_chunk
                        else not (m.prepared_value_hash == zero_chunk))))))

-- QBFTMsg(...)
unfoldable pub new_msg : QbftMsg → Result Error QbftMsg
unfolding validate
new_msg m = if validate m then ok m else err invalid_message

pub record QbftConsensusMsg : Type 0 where
  pub msg : QbftMsg
  pub justification : List QbftMsg
  pub values : List Bytes

unfoldable pub verify_msg_limits : QbftConsensusMsg → ℕ → Result Error (Unit {0})
verify_msg_limits m nodes =
    if ltb (2 * nodes) (length m.justification)
    then err too_many_justifications
    else if ltb (2 * (length m.justification + 1)) (length m.values)
    then err too_many_values
    else ok tt

-- `msg.value_hash or ZERO_CHUNK`
abbrev pub value_hash_or_zero : Option Bytes → Bytes
value_hash_or_zero none = zero_chunk
value_hash_or_zero (some []) = zero_chunk
value_hash_or_zero (some (b ∷ bs)) = b ∷ bs

-- Field 8, which is left out of the signed bytes.
abbrev pub signature_field : Bool → Option Bytes → Bytes
signature_field true (some s) = bytes_field 8 s
signature_field _ _ = []

unfoldable pub encode_qbft_msg : QbftMsg → Bool → Bytes
unfolding varint_field length_delimited bytes_field encode_duty
encode_qbft_msg m include_signature =
    varint_field 1 (msg_type_code m.type)
    ++ (length_delimited 2 (encode_duty m.duty)
        ++ (varint_field 3 m.peer_idx
            ++ (varint_field 4 m.round
                ++ (varint_field 6 m.prepared_round
                    ++ (signature_field include_signature m.signature
                        ++ (length_delimited 11 (value_hash_or_zero m.value_hash)
                            ++ length_delimited 12 m.prepared_value_hash))))))

unfoldable pub qbft_signing_root : Crypto → QbftMsg → Bytes
unfolding encode_qbft_msg hash_proto
qbft_signing_root c m = hash_proto c (encode_qbft_msg m false)

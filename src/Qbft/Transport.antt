-- ===== src/Qbft/Transport.antt =====
-- qbft/transport.py: the value store of a peer, and the messages that it broadcasts.
use distributed_validator_sp.Base.{
  ℕ, zero, suc, Option, none, some, List, [], ◌∷◌, ◌++◌, ◌==◌, nat_eq, list_eq, if◌then◌else◌,
  length, Result, ok, err, ◌>>=◌, any, Dict, get, put,
}
use distributed_validator_sp.Types.{Bytes, Duty}
use distributed_validator_sp.Crypto.{Crypto, Error, already_signed, sign}
use distributed_validator_sp.Encoding.Ssz.{zero_chunk}
use distributed_validator_sp.Qbft.Message.{
  MsgType, pre_prepare, round_change, msg_type_eq, QbftMsg, QbftConsensusMsg, new_msg,
  qbft_signing_root,
}

pub record PeerInfo : Type 0 where
  pub peer_idx : ℕ
  pub public_key : Bytes
  pub peer_id : Bytes

pub record Transport : Type 0 where
  pub private_key : Bytes
  pub peers : List PeerInfo
  pub values : Dict Bytes Bytes

abbrev pub num_peers : Transport → ℕ
num_peers t = length t.peers

-- self.values.update(values)
unfoldable pub update_values : List (Bytes × Bytes) → Dict Bytes Bytes → Dict Bytes Bytes
update_values [] values = values
update_values ((hash, value) ∷ rest) values = update_values rest (put hash value values)

unfoldable pub set_values : List (Bytes × Bytes) → Transport → Transport
unfolding update_values
set_values mapping t = record t { values = update_values mapping t.values }

unfoldable pub get_value : Transport → Bytes → Option Bytes
unfolding get
get_value t value_hash = get value_hash t.values

-- `if hash and hash in self.values`: the value as a list of at most one.
unfoldable pub known_value : Transport → Option Bytes → List Bytes
unfolding get_value get
known_value t none = []
known_value t (some []) = []
known_value t (some (b ∷ bs)) = elim (get_value t (b ∷ bs)) [ none ↦ [] | some v ↦ v ∷ [] ]

-- A `set` of values; the source leaves the order of its elements open.
unfoldable pub add_value : Bytes → List Bytes → List Bytes
add_value v set = if any (λ w. w == v) set then set else set ++ v ∷ []

unfoldable pub value_set : List Bytes → List Bytes → List Bytes
unfolding add_value
value_set [] set = set
value_set (v ∷ vs) set = value_set vs (add_value v set)

-- `x if x is not None else default`
abbrev pub or_default {ℓ} : {A : Type ℓ} → Option A → A → A
or_default none d = d
or_default (some a) d = a

-- One message for each peer; the first that raises ends the loop.
unfoldable pub for_each_peer :
    ℕ → Result Error QbftConsensusMsg → Result Error (List QbftConsensusMsg)
for_each_peer zero build = ok []
for_each_peer (suc n) build = do m ← build; rest ← for_each_peer n build; ok (m ∷ rest)

module _ (c : Crypto) where
  unfoldable pub sign_message : Transport → QbftMsg → Result Error Bytes
  unfolding sign qbft_signing_root
  sign_message t m = elim m.signature [
    | none ↦ sign c t.private_key (qbft_signing_root c m)
    | some s ↦ err already_signed
  ]

  -- Create, validate and sign. Assigning the signature is not validated again.
  unfoldable pub signed_msg : Transport → QbftMsg → Result Error QbftMsg
  unfolding sign_message new_msg
  signed_msg t m = do
    checked ← new_msg m
    signature ← sign_message t checked
    ok (record checked { signature = some signature })

  -- The loop body of `broadcast_message`.
  unfoldable pub build_message :
      Transport
      → MsgType
      → Duty
      → ℕ
      → ℕ
      → Bytes
      → List QbftMsg
      → Option ℕ
      → Option Bytes
      → Result Error QbftConsensusMsg
  unfolding signed_msg value_set known_value
  build_message t type duty peer_idx round value_hash justification prepared_round prepared_hash =
      do
        m ← signed_msg t (record {
          type = type;
          duty = duty;
          peer_idx = peer_idx;
          round = round;
          prepared_round = or_default prepared_round 0;
          signature = none;
          value_hash = if type == round_change then none else some value_hash;
          prepared_value_hash = or_default prepared_hash zero_chunk;
        })
        let values = value_set (known_value t (some value_hash) ++ known_value t prepared_hash) []
        ok (record { msg = m; justification = justification; values = values })

  unfoldable pub broadcast_message :
      Transport
      → MsgType
      → Duty
      → ℕ
      → ℕ
      → Bytes
      → List QbftMsg
      → Option ℕ
      → Option Bytes
      → Result Error (List QbftConsensusMsg)
  unfolding for_each_peer build_message
  broadcast_message t type duty peer_idx round value_hash justification prepared_round
        prepared_hash =
      for_each_peer (num_peers t) (
        build_message t type duty peer_idx round value_hash justification prepared_round
          prepared_hash)

  unfoldable pub build_round_change :
      Transport
      → Duty
      → ℕ
      → ℕ
      → Option ℕ
      → Option Bytes
      → List QbftMsg
      → Result Error QbftConsensusMsg
  unfolding signed_msg known_value
  build_round_change t duty peer_idx round prepared_round prepared_hash justification = do
    m ← signed_msg t (record {
      type = round_change;
      duty = duty;
      peer_idx = peer_idx;
      round = round;
      prepared_round = or_default prepared_round 0;
      signature = none;
      value_hash = none;
      prepared_value_hash = or_default prepared_hash zero_chunk;
    })
    ok (record { msg = m; justification = justification; values = known_value t prepared_hash })

  unfoldable pub broadcast_round_change :
      Transport
      → Duty
      → ℕ
      → ℕ
      → Option ℕ
      → Option Bytes
      → List QbftMsg
      → Result Error (List QbftConsensusMsg)
  unfolding for_each_peer build_round_change
  broadcast_round_change t duty peer_idx round prepared_round prepared_hash justification =
      for_each_peer (num_peers t)
        (build_round_change t duty peer_idx round prepared_round prepared_hash justification)

  unfoldable pub broadcast_pre_prepare :
      Transport → Duty → ℕ → ℕ → Bytes → List QbftMsg → Result Error (List QbftConsensusMsg)
  unfolding broadcast_message
  broadcast_pre_prepare t duty peer_idx round value_hash justification =
      broadcast_message t pre_prepare duty peer_idx round value_hash justification none none

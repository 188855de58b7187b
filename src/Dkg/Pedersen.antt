-- ===== src/Dkg/Pedersen.antt =====
-- dkg/pedersen.py: the nonce of a ceremony and its messages.
use distributed_validator_sp.Base.{ℕ, Bool, Option, List, [], ◌∷◌, ◌++◌}
use distributed_validator_sp.Types.{Bytes}
use distributed_validator_sp.Crypto.{Crypto}

-- "/charon/dkg/pedersen/1.0.0"
abbrev pub pedersen_dkg_protocol_id : Bytes
pedersen_dkg_protocol_id =
    47 ∷ 99 ∷ 104 ∷ 97 ∷ 114 ∷ 111 ∷ 110 ∷ 47 ∷ 100 ∷ 107 ∷ 103 ∷ 47 ∷ 112 ∷ 101 ∷ 100 ∷ 101 ∷ 114
    ∷ 115 ∷ 101 ∷ 110 ∷ 47 ∷ 49 ∷ 46 ∷ 48 ∷ 46 ∷ 48 ∷ []

-- b"".join(node_pubkeys)
unfoldable pub join_bytes : List Bytes → Bytes
join_bytes [] = []
join_bytes (part ∷ parts) = part ++ join_bytes parts

unfoldable pub generate_nonce_from_node_pubkeys : Crypto → List Bytes → Bytes
unfolding join_bytes
generate_nonce_from_node_pubkeys c node_pubkeys = c.sha256 (join_bytes node_pubkeys)

pub record NodePubKeyShares : Type 0 where
  pub public_key_shares : List Bytes

pub record NodePubKeyMessage : Type 0 where
  pub session_id : Bytes
  pub public_key : Bytes
  pub shares : Option NodePubKeyShares

pub record ValidatorPubKeyShareMessage : Type 0 where
  pub session_id : Bytes
  pub public_key_share : Bytes

pub record PedersenDeal : Type 0 where
  pub share_index : ℕ
  pub encrypted_share : Bytes

pub record PedersenDealBundle : Type 0 where
  pub dealer_index : ℕ
  pub deals : List PedersenDeal
  pub public : List Bytes
  pub session_id : Bytes
  pub signature : Bytes

pub record PedersenResponse : Type 0 where
  pub dealer_index : ℕ
  pub status : Bool

pub record PedersenResponseBundle : Type 0 where
  pub share_index : ℕ
  pub responses : List PedersenResponse
  pub session_id : Bytes
  pub signature : Bytes

pub record PedersenJustification : Type 0 where
  pub share_index : ℕ
  pub share : Bytes

pub record PedersenJustificationBundle : Type 0 where
  pub dealer_index : ℕ
  pub justifications : List PedersenJustification
  pub session_id : Bytes
  pub signature : Bytes

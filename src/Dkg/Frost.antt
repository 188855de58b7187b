-- ===== src/Dkg/Frost.antt =====
-- dkg/frost.py and dkg/share.py: the messages of a FROST ceremony, the checks of the receiver, the
-- completion of a round and the assembly of the result.
use distributed_validator_sp.Base.{
  ℕ, ◌+◌, ◌-◌, ◌^◌, Bool, not, ◌&&◌, none, some, List, [], ◌∷◌, ◌++◌, ◌==◌, nat_eq, ltb, leb,
  length, all, Dict, get, put, keys, or_nil, sorted, Result, ok, err, ◌>>=◌, ◌>>◌, guard,
}
use distributed_validator_sp.Types.{Bytes}
use distributed_validator_sp.Cluster.Hex.{to_hex}

pub data FrostError : Type 0 where
  invalid_source invalid_target invalid_validator_index invalid_commitments : FrostError
  too_many_casts too_many_p2p missing_key_material invalid_uint32 : FrostError

-- "/charon/dkg/frost/2.0.0"
abbrev pub frost_protocol_prefix : Bytes
frost_protocol_prefix =
    47 ∷ 99 ∷ 104 ∷ 97 ∷ 114 ∷ 111 ∷ 110 ∷ 47 ∷ 100 ∷ 107 ∷ 103 ∷ 47 ∷ 102 ∷ 114 ∷ 111 ∷ 115 ∷ 116
    ∷ 47 ∷ 50 ∷ 46 ∷ 48 ∷ 46 ∷ 48 ∷ []

abbrev pub round1_cast_msg_id : Bytes
round1_cast_msg_id =
    frost_protocol_prefix ++ 47 ∷ 114 ∷ 111 ∷ 117 ∷ 110 ∷ 100 ∷ 49 ∷ 47 ∷ 99 ∷ 97 ∷ 115 ∷ 116 ∷ []

abbrev pub round2_cast_msg_id : Bytes
round2_cast_msg_id =
    frost_protocol_prefix ++ 47 ∷ 114 ∷ 111 ∷ 117 ∷ 110 ∷ 100 ∷ 50 ∷ 47 ∷ 99 ∷ 97 ∷ 115 ∷ 116 ∷ []

abbrev pub round1_p2p_protocol_id : Bytes
round1_p2p_protocol_id =
    frost_protocol_prefix ++ 47 ∷ 114 ∷ 111 ∷ 117 ∷ 110 ∷ 100 ∷ 49 ∷ 47 ∷ 112 ∷ 50 ∷ 112 ∷ []

abbrev pub broadcast_target_id : ℕ
broadcast_target_id = 0

abbrev pub scalar_length : ℕ
scalar_length = 32

abbrev pub point_length : ℕ
point_length = 48

unfoldable pub frost_dkg_context : Bytes → Bytes
unfolding to_hex
frost_dkg_context definition_hash = 48 ∷ 120 ∷ to_hex definition_hash

pub record FrostMsgKey : Type 0 where
  pub val_idx : ℕ
  pub source_id : ℕ
  pub target_id : ℕ

-- The constructor, with the bound of Uint32 on its fields.
unfoldable pub new_msg_key : ℕ → ℕ → ℕ → Result FrostError FrostMsgKey
new_msg_key val_idx source_id target_id = do
  guard (all (λ n. leb n (2 ^ 32 - 1)) (val_idx ∷ source_id ∷ target_id ∷ [])) invalid_uint32
  ok (record { val_idx = val_idx; source_id = source_id; target_id = target_id })

pub record FrostRound1Cast : Type 0 where
  pub key : FrostMsgKey
  pub wi : Bytes
  pub ci : Bytes
  pub commitments : List Bytes

pub record FrostRound1Casts : Type 0 where
  pub casts : List FrostRound1Cast

pub record FrostRound1ShamirShare : Type 0 where
  pub key : FrostMsgKey
  pub id : ℕ
  pub value : Bytes

pub record FrostRound1P2P : Type 0 where
  pub shares : List FrostRound1ShamirShare

pub record FrostRound2Cast : Type 0 where
  pub key : FrostMsgKey
  pub verification_key : Bytes
  pub vk_share : Bytes

pub record FrostRound2Casts : Type 0 where
  pub casts : List FrostRound2Cast

unfoldable pub verify_val_idx : ℕ → ℕ → Result FrostError (Unit {0})
verify_val_idx val_idx num_validators =
    guard (not (leb num_validators val_idx)) invalid_validator_index

unfoldable pub verify_cast_key : FrostMsgKey → ℕ → ℕ → Result FrostError (Unit {0})
unfolding verify_val_idx
verify_cast_key key sender_share_idx num_validators = do
  guard (key.source_id == sender_share_idx) invalid_source
  guard (key.target_id == broadcast_target_id) invalid_target
  verify_val_idx key.val_idx num_validators

-- for item in items: check(item), which stops at the first one that raises
unfoldable pub for_each {ℓ} :
    {Item : Type ℓ}
    → (Item → Result FrostError (Unit {0}))
    → List Item
    → Result FrostError (Unit {0})
for_each check [] = ok tt
for_each check (item ∷ items) = do check item; for_each check items

unfoldable pub verify_round1_cast : ℕ → ℕ → ℕ → FrostRound1Cast → Result FrostError (Unit {0})
unfolding verify_cast_key
verify_round1_cast sender_share_idx num_validators threshold cast = do
  verify_cast_key cast.key sender_share_idx num_validators
  guard (length cast.commitments == threshold) invalid_commitments

unfoldable pub verify_round1_casts : FrostRound1Casts → ℕ → ℕ → ℕ → Result FrostError (Unit {0})
unfolding for_each verify_round1_cast
verify_round1_casts msg sender_share_idx num_validators threshold =
    for_each (verify_round1_cast sender_share_idx num_validators threshold) msg.casts

unfoldable pub verify_round2_casts : FrostRound2Casts → ℕ → ℕ → Result FrostError (Unit {0})
unfolding for_each verify_cast_key
verify_round2_casts msg sender_share_idx num_validators =
    for_each (λ (cast : FrostRound2Cast). verify_cast_key cast.key sender_share_idx num_validators)
      msg.casts

unfoldable pub verify_p2p_share : ℕ → ℕ → ℕ → FrostRound1ShamirShare → Result FrostError (Unit {0})
unfolding verify_val_idx
verify_p2p_share sender_share_idx receiver_share_idx num_validators share = do
  guard (share.key.source_id == sender_share_idx) invalid_source
  guard (share.key.target_id == receiver_share_idx) invalid_target
  verify_val_idx share.key.val_idx num_validators

unfoldable pub verify_round1_p2p : FrostRound1P2P → ℕ → ℕ → ℕ → Result FrostError (Unit {0})
unfolding for_each verify_p2p_share
verify_round1_p2p msg sender_share_idx receiver_share_idx num_validators =
    for_each (verify_p2p_share sender_share_idx receiver_share_idx num_validators) msg.shares

-- p2p > n - 1 and p2p == n - 1, which are the same as p2p + 1 > n and p2p + 1 == n on integers.
unfoldable pub round1_complete : ℕ → ℕ → ℕ → Result FrostError Bool
round1_complete num_cast_bundles num_p2p_bundles num_nodes = do
  guard (leb num_cast_bundles num_nodes) too_many_casts
  guard (leb (num_p2p_bundles + 1) num_nodes) too_many_p2p
  ok (num_cast_bundles == num_nodes && num_p2p_bundles + 1 == num_nodes)

unfoldable pub round2_complete : ℕ → ℕ → Bool
round2_complete num_cast_bundles num_nodes = num_cast_bundles == num_nodes

pub record PublicShares : Type 0 where
  pub shares : Dict ℕ Bytes

pub record ValidatorShare : Type 0 where
  pub validator_pubkey : Bytes
  pub secret_share : Bytes
  pub public_shares : PublicShares

-- pub_shares.setdefault(val_idx, {})[source_id] = vk_share
unfoldable pub add_share : FrostRound2Cast → Dict ℕ (Dict ℕ Bytes) → Dict ℕ (Dict ℕ Bytes)
unfolding get put
add_share cast pub_shares =
    put cast.key.val_idx
      (put cast.key.source_id cast.vk_share (or_nil (get cast.key.val_idx pub_shares))) pub_shares

-- for cast in round2_casts
unfoldable pub collect_shares : List FrostRound2Cast → Dict ℕ (Dict ℕ Bytes) → Dict ℕ (Dict ℕ Bytes)
unfolding add_share
collect_shares [] pub_shares = pub_shares
collect_shares (cast ∷ casts) pub_shares = collect_shares casts (add_share cast pub_shares)

-- What this node has for a validator index, or the error of missing key material.
unfoldable pub local_key : ℕ → Dict ℕ Bytes → Result FrostError Bytes
unfolding get
local_key val_idx d = elim (get val_idx d) [ none ↦ err missing_key_material | some key ↦ ok key ]

unfoldable pub validator_share :
    ℕ → Dict ℕ Bytes → Dict ℕ Bytes → Dict ℕ (Dict ℕ Bytes) → Result FrostError ValidatorShare
unfolding local_key get
validator_share val_idx validator_pubkeys secret_shares pub_shares = do
  pubkey ← local_key val_idx validator_pubkeys
  secret ← local_key val_idx secret_shares
  ok (record {
    validator_pubkey = pubkey;
    secret_share = secret;
    public_shares = record { shares = or_nil (get val_idx pub_shares) };
  })

-- for val_idx in sorted(pub_shares)
unfoldable pub build_shares :
    List ℕ
    → Dict ℕ Bytes
    → Dict ℕ Bytes
    → Dict ℕ (Dict ℕ Bytes)
    → Result FrostError (List ValidatorShare)
unfolding validator_share
build_shares [] validator_pubkeys secret_shares pub_shares = ok []
build_shares (val_idx ∷ rest) validator_pubkeys secret_shares pub_shares = do
  share ← validator_share val_idx validator_pubkeys secret_shares pub_shares
  shares ← build_shares rest validator_pubkeys secret_shares pub_shares
  ok (share ∷ shares)

unfoldable pub assemble_validator_shares :
    List FrostRound2Cast → Dict ℕ Bytes → Dict ℕ Bytes → Result FrostError (List ValidatorShare)
unfolding collect_shares build_shares
assemble_validator_shares round2_casts validator_pubkeys secret_shares =
    let pub_shares = collect_shares round2_casts [] in
    build_shares (sorted ltb (keys pub_shares)) validator_pubkeys secret_shares pub_shares

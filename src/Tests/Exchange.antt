-- ===== src/Tests/Exchange.antt =====
-- The exchanges of the key generation among three peers whose share indices are 1, 2 and 4.
use distributed_validator_sp.Base.{
  ◌≢◌, none, ℕ, ◌<◌, ◌≡◌, ◌↔◌, refl, true, some, List, [], ◌∷◌, nat_eq, list_eq, Dict, has, ok, err,
  Memᴰ, pos, replicate,
}
use distributed_validator_sp.Types.{Bytes, Duty, attester, duty_eq}
use distributed_validator_sp.Parsigex.{
  ParSignedData, share_index_mismatch, verify_peer_share_idx, validate_exchange_peers,
}
use distributed_validator_sp.Parsigex.Senders.{configured_peer}
use distributed_validator_sp.Dkg.NodeSigs.{MsgNodeSig, none_data, collect_node_sigs}
use distributed_validator_sp.Dkg.NodeSigs.Collected.{SentBelow, collected_iff}

abbrev peers : List Bytes
peers = (97 ∷ []) ∷ (98 ∷ []) ∷ (99 ∷ []) ∷ []

abbrev assigned : Dict Bytes ℕ
assigned = (97 ∷ [], 1) ∷ (98 ∷ [], 2) ∷ (99 ∷ [], 4) ∷ []

abbrev partial : ParSignedData
partial = record { payload = []; signature = replicate 96 3; share_idx = 4 }

configured : validate_exchange_peers peers assigned (pos 1) ≡ ok tt
unfolding validate_exchange_peers
configured = refl

other_slot : verify_peer_share_idx assigned (98 ∷ []) partial ≡ err share_index_mismatch
unfolding verify_peer_share_idx
other_slot = refl

configured_peer_example :
    (i : ℕ) × ((signed : ParSignedData)
      → (verify_peer_share_idx assigned (99 ∷ []) signed ≡ ok tt) ↔ (signed.share_idx ≡ i))
configured_peer_example =
    configured_peer peers assigned (pos 1) (99 ∷ []) configured
      (Memᴰ.tail (Memᴰ.tail (Memᴰ.head refl)))

abbrev duty : Duty
duty = record { slot = 7; type = attester }

abbrev node_sig : MsgNodeSig
node_sig = record { signature = replicate 65 2; peer_index = 2 }

abbrev received : Dict ℕ Bytes
received = (2, replicate 65 2) ∷ (0, replicate 65 1) ∷ (1, none_data) ∷ []

collected : collect_node_sigs received 3 ≡ some (replicate 65 1 ∷ replicate 65 2 ∷ [])
unfolding collect_node_sigs
collected = refl

collected_iff_example :
    ((l : List Bytes) → (collect_node_sigs received 3 ≡ some l) ↔ SentBelow received 3 l)
    × ((collect_node_sigs received 3 ≢ none) ↔ ((i : ℕ) → i < 3 → has i received ≡ true))
collected_iff_example = collected_iff received 3

-- ===== src/Dkg/NodeSigs.antt =====
-- dkg/node_sigs.py: the exchange of the nodes' signatures over the lock hash.
pub mod Collected
use distributed_validator_sp.Base.{
  ℕ, zero, suc, Bool, true, false, not, Option, none, some, List, [], ◌∷◌, ◌++◌, ◌==◌, nat_eq,
  list_eq, if◌then◌else◌, leb, any, filter, map, Dict, get, put, has, Result, ok, err, guard, ◌>>◌,
}
use distributed_validator_sp.Types.{Bytes}

pub record MsgNodeSig : Type 0 where
  pub signature : Bytes
  pub peer_index : ℕ

pub data NodeSigError : Type 0 where
  invalid_peer_index sender_mismatch : NodeSigError

abbrev pub none_data : Bytes
none_data = 222 ∷ 173 ∷ 190 ∷ 239 ∷ []

unfoldable pub verify_node_sig_msg : MsgNodeSig → ℕ → ℕ → ℕ → Result NodeSigError (Unit {0})
verify_node_sig_msg msg sender_peer_index own_index num_peers = do
  guard (not (leb num_peers msg.peer_index)) invalid_peer_index
  guard (not (msg.peer_index == own_index)) invalid_peer_index
  guard (msg.peer_index == sender_peer_index) sender_mismatch

-- range(n)
abbrev pub range : ℕ → List ℕ
range zero = []
range (suc n) = range n ++ n ∷ []

-- sigs[index], for an index that is present
unfoldable pub sig_at : Dict ℕ Bytes → ℕ → Bytes
unfolding get
sig_at sigs index = elim (get index sigs) [ none ↦ [] | some sig ↦ sig ]

unfoldable pub collect_node_sigs : Dict ℕ Bytes → ℕ → Option (List Bytes)
unfolding has sig_at
collect_node_sigs sigs num_peers =
    if any (λ index. not (has index sigs)) (range num_peers)
    then none
    else some (
        map (sig_at sigs)
          (filter (λ index. not (sig_at sigs index == none_data)) (range num_peers)))

-- ===== src/Qbft/State.antt =====
-- qbft/protocol.py: the state of an instance, the message buffer, and the small methods.
-- `round_start_time` and `timer` are set by the constructor and read by no method, and are left out.
use distributed_validator_sp.Base.{
  ℕ, ◌+◌, ◌≡◌, Bool, true, false, ◌||◌, Option, none, some, List, [], ◌∷◌, ◌++◌, map, Eq, ◌==◌,
  nat_eq, pair_eq, eq_by_code, leb, if◌then◌else◌, arith, Dict, get, put, values,
}
use distributed_validator_sp.Types.{Bytes, Duty}
use distributed_validator_sp.Crypto.{Crypto}
use distributed_validator_sp.Encoding.Ssz.{hash_proto}
use distributed_validator_sp.Qbft.Definition.{Definition}
use distributed_validator_sp.Qbft.Message.{QbftMsg, QbftConsensusMsg}
use distributed_validator_sp.Qbft.Transport.{Transport, set_values}

abbrev pub max_decided_resends : ℕ
max_decided_resends = 16

pub data UponRule : Type 0 where
  nothing justified_pre_prepare quorum_prepares quorum_commits : UponRule
  unjust_quorum_round_changes f_plus_1_round_changes quorum_round_changes : UponRule
  justified_decided round_timeout : UponRule

-- The members of the enumeration are compared by identity, that is by their number here.
abbrev rule_code : UponRule → ℕ
rule_code nothing = 0
rule_code justified_pre_prepare = 1
rule_code quorum_prepares = 2
rule_code quorum_commits = 3
rule_code unjust_quorum_round_changes = 4
rule_code f_plus_1_round_changes = 5
rule_code quorum_round_changes = 6
rule_code justified_decided = 7
rule_code round_timeout = 8

rule_code-injective : (a b : UponRule) → rule_code a ≡ rule_code b → a ≡ b
rule_code-injective a b h = ground arith

instance unfoldable pub rule_eq : Eq UponRule
unfolding rule_code-injective
rule_eq = eq_by_code rule_code rule_code-injective

pub record QbftConsensus : Type 0 where
  pub d : Definition
  pub t : Transport
  pub duty : Duty
  pub peer : ℕ
  pub proposal_value : Bytes
  pub round : ℕ
  pub prepared_round : Option ℕ
  pub prepared_value : Option Bytes
  pub prepared_value_hash : Option Bytes
  pub prepared_justification : List QbftMsg
  pub q_commit : List QbftMsg
  pub buffer : Dict ℕ (List QbftConsensusMsg)
  pub dedup_rules : Dict (UponRule × ℕ) Bool
  pub decided_resends : Dict ℕ (ℕ × ℕ)

-- The constructor: the fields' defaults, and `__post_init__`, which stores the proposal.
unfoldable pub new_instance : Crypto → Definition → Transport → Duty → ℕ → Bytes → QbftConsensus
unfolding hash_proto set_values
new_instance c d t duty peer proposal_value = record {
  d = d;
  t = set_values ((hash_proto c proposal_value, proposal_value) ∷ []) t;
  duty = duty;
  peer = peer;
  proposal_value = proposal_value;
  round = 1;
  prepared_round = none;
  prepared_value = none;
  prepared_value_hash = none;
  prepared_justification = [];
  q_commit = [];
  buffer = [];
  dedup_rules = [];
  decided_resends = [];
}

abbrev pub or_empty {ℓ} : {A : Type ℓ} → Option (List A) → List A
or_empty none = []
or_empty (some l) = l

-- _buffer_message
unfoldable pub buffer_message : QbftConsensusMsg → QbftConsensus → QbftConsensus
unfolding get put
buffer_message m s = record s {
  buffer = put m.msg.peer_idx (or_empty (get m.msg.peer_idx s.buffer) ++ m ∷ []) s.buffer;
}

-- A justification as a message with no justification of its own.
abbrev pub wrap : QbftMsg → QbftConsensusMsg
wrap j = record { msg = j; justification = []; values = [] }

unfoldable pub flatten_msgs : List QbftConsensusMsg → List QbftConsensusMsg
flatten_msgs [] = []
flatten_msgs (m ∷ ms) = m ∷ (map wrap m.justification ++ flatten_msgs ms)

unfoldable pub flatten_lists : List (List QbftConsensusMsg) → List QbftConsensusMsg
unfolding flatten_msgs
flatten_lists [] = []
flatten_lists (ms ∷ rest) = flatten_msgs ms ++ flatten_lists rest

-- _flatten
unfoldable pub flatten : QbftConsensus → List QbftConsensusMsg
unfolding flatten_lists
flatten s = flatten_lists (values s.buffer)

-- _change_round
unfoldable pub change_round : ℕ → QbftConsensus → QbftConsensus
change_round r s = if r == s.round then s else record s { round = r; dedup_rules = [] }

abbrev pub or_zeros : Option (ℕ × ℕ) → ℕ × ℕ
or_zeros none = (0, 0)
or_zeros (some p) = p

-- _allow_decided_resend, which records the resend that it permits.
unfoldable pub allow_decided_resend : ℕ → ℕ → QbftConsensus → QbftConsensus × Bool
unfolding get put
allow_decided_resend peer_idx msg_round s =
    let (highest_round, count) = or_zeros (get peer_idx s.decided_resends) in
    if leb msg_round highest_round || leb max_decided_resends count then (s, false) else (
      record s { decided_resends = put peer_idx (msg_round, count + 1) s.decided_resends },
      true,
    )

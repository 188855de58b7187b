-- ===== src/Tests/Cluster.antt =====
-- A cluster of four nodes, and stand-ins for the primitives of other packages: a hash that keeps
-- the first 32 bytes and a constant signature.
use distributed_validator_sp.Base.{
  true, ℕ, Option, none, some, List, [], ◌∷◌, ◌++◌, take, replicate,
}
use distributed_validator_sp.Types.{Bytes, Duty, attester}
use distributed_validator_sp.Crypto.{Crypto}
use distributed_validator_sp.Encoding.Ssz.{zero_chunk}
use distributed_validator_sp.Qbft.Definition.{Definition}
use distributed_validator_sp.Qbft.Message.{
  MsgType, commit, round_change, decided, QbftMsg, QbftConsensusMsg,
}
use distributed_validator_sp.Qbft.Transport.{PeerInfo, Transport}
use distributed_validator_sp.Qbft.State.{QbftConsensus, new_instance}

abbrev pub toy : Crypto
toy = record {
  sha256 = λ b. take 32 (b ++ replicate 32 0);
  accepts_secret = λ secret. true;
  sign_msg_hash = λ secret digest. replicate 65 1;
  public_key = λ secret. 2 ∷ secret;
  ecdsa_recover = λ digest signature. some (2 ∷ replicate 32 9);
}

abbrev pub four : Definition
four = record { nodes = 4 }

abbrev pub duty : Duty
duty = record { slot = 1; type = attester }

abbrev pub node : ℕ → PeerInfo
node i = record { peer_idx = i; public_key = []; peer_id = [] }

abbrev pub transport : Transport
transport = record {
  private_key = replicate 32 9;
  peers = node 0 ∷ node 1 ∷ node 2 ∷ node 3 ∷ [];
  values = [];
}

abbrev pub proposal : Bytes
proposal = 5 ∷ 6 ∷ []

-- Peer 1, which leads rounds 2, 6, …
abbrev pub start : QbftConsensus
start = new_instance toy four transport duty 1 proposal

abbrev pub hash : Bytes
hash = replicate 32 7

abbrev pub msg : MsgType → ℕ → ℕ → Option Bytes → QbftMsg
msg type peer round value_hash = record {
  type = type;
  duty = duty;
  peer_idx = peer;
  round = round;
  prepared_round = 0;
  signature = none;
  value_hash = value_hash;
  prepared_value_hash = zero_chunk;
}

abbrev pub prepared_msg : ℕ → ℕ → ℕ → QbftMsg
prepared_msg peer round prepared_round = record {
  type = round_change;
  duty = duty;
  peer_idx = peer;
  round = round;
  prepared_round = prepared_round;
  signature = none;
  value_hash = none;
  prepared_value_hash = hash;
}

abbrev pub alone : QbftMsg → QbftConsensusMsg
alone m = record { msg = m; justification = []; values = [] }

abbrev pub with_justification : QbftMsg → List QbftMsg → QbftConsensusMsg
with_justification m js = record { msg = m; justification = js; values = [] }

abbrev pub decided_msg : QbftConsensusMsg
decided_msg =
    with_justification (msg decided 2 3 (some hash))
      (msg commit 0 3 (some hash) ∷ msg commit 2 3 (some hash) ∷ msg commit 3 3 (some hash) ∷ [])

-- ===== src/Lib.antt =====
-- Verification library of the distributed validator specifications (the Python package
-- src/dv_spec). A cluster of nodes runs one validator: for each duty the nodes agree on the data
-- to sign by QBFT consensus, sign it with their key shares, exchange the partial signatures and
-- aggregate a threshold of them.
--
-- Parts of the program, and the files that model them:
--   * src/dv_spec/subspecs/consensus/qbft, one consensus instance for a duty.
--     Qbft/Definition.antt is definition.py (quorum, faulty, leader); Qbft/Message.antt is
--     message.py (QBFTMsg, its field validators, the message limits) and, with Encoding, hashing.py
--     (the signing root); Qbft/Transport.antt is transport.py (the table of values by hash, and the
--     signed messages that a broadcast makes for the peers); Qbft/State.antt is the state of
--     QBFTConsensus with its small methods; Qbft/Justify.antt is the is_justified family;
--     Qbft/Classify.antt is _classify; Qbft/Handle.antt is handle_message, with the local function
--     that applies a rule, and `run`, the handling of one message after the other.
--     The state is the record QbftConsensus. A handler is a function of the state that returns the
--     next state and a Result: the messages to send or the kind of the exception. An exception
--     leaves the state that the code has reached by then, as in Python.
--   * src/dv_spec/subspecs/consensus/timer: Timer.antt. The clock is an argument of the call that reads
--     it, and times are whole nanoseconds.
--   * src/dv_spec/encoding: Encoding/Proto.antt is proto.py; Encoding/Ssz.antt and
--     Encoding/Walker.antt are ssz.py (chunks, merkleization and hash_proto; HashWalker and the put
--     functions). A method of HashWalker is a function of its buffer. Encoding/Fields.antt,
--     Closing.antt and Puts.antt hold the lemmas on walks, Encoding/Tree.antt and Depth.antt those on
--     trees, Encoding/Decode.antt the reference decoder of the wire format.
--   * src/dv_spec/crypto: Secp256k1.antt is secp256k1.py, with the wrappers of
--     subspecs/consensus/cryptography.py; Bls.antt is bls.py.
--   * src/dv_spec/cluster: Cluster/Definition.antt and Cluster/Lock.antt are definition.py and lock.py;
--     Cluster/Hashing.antt and Cluster/Hashes.antt are hashing.py (the walk over a definition; the
--     walk over a lock, the hashes and their checks); Cluster/Verification.antt is verification.py.
--     Cluster/Hex.antt is src/dv_spec/types/hex.py.
--   * src/dv_spec/subspecs/sigagg: Sigagg.antt is threshold.py and the selection of inputs in
--     aggregation.py.
--   * src/dv_spec/subspecs/priority/scoring.py and message.py: Priority.antt.
--   * src/dv_spec/subspecs/parsigex/helpers.py and message.py: Parsigex.antt.
--   * src/dv_spec/subspecs/dkg: Dkg/NodeSigs.antt is node_sigs.py, Dkg/Protocols.antt protocols.py,
--     Dkg/Frost.antt frost.py and share.py, Dkg/Pedersen.antt pedersen.py; Dkg/Sync.antt is
--     src/dv_spec/subspecs/dkg_sync/message.py, and Broadcast.antt the messages of
--     src/dv_spec/subspecs/reliable_bcast.
--   * src/dv_spec/subspecs/infosync: Infosync.antt. src/dv_spec/subspecs/peerinfo: Peerinfo.antt.
--   * src/dv_spec/types/duty.py: Types.antt. Crypto.antt holds the primitives of other packages.
--
-- How they interact: handle_message buffers a message and stores its values in the transport,
-- classifies it against the buffer, and applies the rule that results, which may broadcast. The
-- consensus decides the data of a duty; each node signs it, and stores and selects the partial
-- signatures that arrive by Sigagg, which Parsigex exchanges. The timer gives the length of a round.
-- Priority reduces the nodes' preferences to one result, and Infosync keeps such results and selects
-- the protocols from them. The key generation ends with the exchange of Dkg/NodeSigs, over the lock
-- hash of Cluster/Hashes, which is a walk of Encoding/Walker.
--
-- Conventions. A byte string, and a str by its UTF-8 bytes, is a list of numbers. A dict is an
-- association list in insertion order (Base/Assoc.antt). Integers of the source are natural
-- numbers, with its constraint that they are not negative; a difference that can be negative is an
-- integer (Base/Int.antt). An exception is a value of an error type. Loops are recursions on the
-- list they go through, or on a count of rounds: varint takes as many rounds as the number plus one,
-- bit_length likewise, and each round at least halves the number, so the fuel is enough; the layers
-- of a merkle tree are counted by its depth, as in the source.
--
-- The reference decoder of a data set takes as many rounds as there are bytes, and an entry takes up
-- at least one. The extended Euclidean algorithm of Bls.antt has as many rounds as the modulus.
--
-- Parameters, which stand for other packages: sha256 of hashlib and the primitives of eth_keys, in the
-- record Crypto, and the operations of py_ecc, in the record PyEcc of Bls.antt. Two properties assume
-- something of them: that a hash has 32 bytes, and that eth_keys, for the secrets it
-- takes, recovers the signer's key from its signatures.
--
-- Not modelled: the group arithmetic, logging, the network, wall clocks, the floating point forms of
-- the timers, version numbers in digits of other scripts than ASCII, and the scripts of the repository.
-- Pydantic's type coercions are not modelled; its constraints on the values are.
mod Base
pub mod Types
pub mod Crypto
pub mod Encoding
pub mod Secp256k1
pub mod Bls
pub mod Qbft
pub mod Timer
pub mod Sigagg
pub mod Priority
pub mod Parsigex
pub mod Infosync
pub mod Peerinfo
pub mod Broadcast
pub mod Cluster
pub mod Dkg
mod Tests

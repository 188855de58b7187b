-- ===== src/Tests/Wire.antt =====
-- The encodings, the hash trees and the signatures of the nodes.
use distributed_validator_sp.Base.{
  ℕ, ◌+◌, ◌≤◌, ◌≡◌, refl, true, ◌==◌, nat_eq, list_eq, some, List, [], ◌∷◌, ◌++◌, replicate, length,
  ok, err, arith,
}
use distributed_validator_sp.Types.{Bytes}
use distributed_validator_sp.Crypto.{Crypto, too_many_chunks, over_limit, refused_secret, sign}
use distributed_validator_sp.Tests.Cluster.{toy}
use distributed_validator_sp.Encoding.Proto.{varint_int, encode_unsigned_data_set}
use distributed_validator_sp.Base.{negsuc}
use distributed_validator_sp.Encoding.Decode.{decode_unsigned_data_set}
use distributed_validator_sp.Encoding.DecodeBack.{unsigned_data_set_back}
use distributed_validator_sp.Encoding.Ssz.{chunk_count_depth, merkleize}
use distributed_validator_sp.Encoding.Walker.{put_byte_list, uint64_bytes}
use distributed_validator_sp.Encoding.Tree.{node, leaves, merkleize_tree}
use distributed_validator_sp.Secp256k1.{verify}
use distributed_validator_sp.Secp256k1.Verified.{IsRecoverable, sign_verified}

minus_one : varint_int (negsuc 0) ≡ replicate 9 255 ++ 1 ∷ []
unfolding varint_int
minus_one = refl

too_many : merkleize toy (replicate 3 (replicate 32 1)) 2 ≡ err too_many_chunks
unfolding merkleize
too_many = refl

too_long : put_byte_list toy [] (1 ∷ 2 ∷ 3 ∷ []) 2 ≡ err over_limit
unfolding put_byte_list
too_long = refl

little : uint64_bytes 258 ≡ ok (2 ∷ 1 ∷ replicate 6 0)
unfolding uint64_bytes
little = refl

abbrev chunks : List Bytes
chunks = replicate 32 1 ∷ replicate 32 2 ∷ replicate 32 3 ∷ []

merkleize_tree_example :
    ((limit : ℕ)
      → 1 ≤ limit
      → length chunks ≤ limit
      → merkleize toy chunks limit ≡ ok (node toy (leaves toy chunks) (chunk_count_depth limit) 0))
    × (merkleize toy chunks 0
        ≡ ok (node toy (leaves toy chunks) (chunk_count_depth (length chunks)) 0))
merkleize_tree_example = merkleize_tree toy chunks

abbrev entries : List (Bytes × Bytes)
entries = ((9 ∷ [], 1 ∷ 2 ∷ []) ∷ (3 ∷ [], []) ∷ [])

unsigned_data_set_back_example :
    decode_unsigned_data_set (encode_unsigned_data_set entries)
    ≡ some ((3 ∷ [], []) ∷ (9 ∷ [], 1 ∷ 2 ∷ []) ∷ [])
unsigned_data_set_back_example = unsigned_data_set_back entries

-- A scheme whose only key pair is the one of the node. Any other secret is refused.
abbrev scheme : Crypto
scheme = record {
  sha256 = λ b. replicate 32 0;
  accepts_secret = λ secret. secret == replicate 32 9;
  sign_msg_hash = λ secret digest. replicate 64 1 ++ 1 ∷ [];
  public_key = λ secret. 2 ∷ replicate 32 9;
  ecdsa_recover = λ digest signature. some (2 ∷ replicate 32 9);
}

scheme-IsRecoverable : IsRecoverable scheme
scheme-IsRecoverable = record {
  form = λ secret digest valid. (replicate 64 1, 1, refl, refl, omega arith);
  recovers = λ secret digest valid. refl;
}

sign_verified_example :
    (rs : Bytes) × (v : ℕ) × (sign scheme (replicate 32 9) (replicate 32 7) ≡ ok (rs ++ v ∷ []))
    × (verify scheme (scheme.public_key (replicate 32 9)) (replicate 32 7) (rs ++ v ∷ []) ≡ ok true)
    × (verify scheme (scheme.public_key (replicate 32 9)) (replicate 32 7) (rs ++ (27 + v) ∷ [])
        ≡ ok true)
sign_verified_example =
    sign_verified scheme scheme-IsRecoverable (replicate 32 9) (replicate 32 7) (refl, refl, refl)

zero_secret : sign scheme (replicate 32 0) (replicate 32 7) ≡ err refused_secret
unfolding sign
zero_secret = refl

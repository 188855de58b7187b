-- ===== src/Tests/Agreed.antt =====
-- Agreed results of two nodes, the order of protocols, and the versions of peers.
use distributed_validator_sp.Base.{
  ℕ, ◌<◌, ◌≡◌, ◌≢◌, ◌↔◌, ◌⊎◌, refl, true, false, not, ◌&&◌, none, some, List, [], ◌∷◌, ◌++◌, filter,
  All, pos, negsuc, sub_ℕ, ==-sound, nat_eq, list_eq, ok, err, arith,
}
use distributed_validator_sp.Types.{Bytes}
use distributed_validator_sp.Crypto.{zero_division}
use distributed_validator_sp.Infosync.{
  InfoSyncResult, add_result, latest_result, selected_protocols, most_preferred_consensus_protocol,
  local_protocol_priorities, has_name, qbft_v2_protocol_id, consensus_protocol_id_prefix,
  is_infosync_slot,
}
use distributed_validator_sp.Infosync.History.{
  UpTo, IsHistory, InOrder, Governs, add_result-IsHistory, latest_newest,
}
use distributed_validator_sp.Infosync.Agreement.{same_selection}
use distributed_validator_sp.Infosync.Ordering.{configured_first}
use distributed_validator_sp.Peerinfo.{
  validate_git_hash, calculate_clock_offset, clamp_clock_offset, Version, parse_semantic_version,
  is_compatible_version, no_supported_version,
}
use distributed_validator_sp.Peerinfo.Compatible.{IsNewer, HasMinor, compatible_iff}

last_slot : is_infosync_slot 63 32 ≡ ok true
unfolding is_infosync_slot
last_slot = refl

no_epoch : is_infosync_slot 63 0 ≡ err zero_division
unfolding is_infosync_slot
no_epoch = refl

abbrev result : ℕ → InfoSyncResult
result slot = record {
  slot = slot;
  versions = (1 ∷ []) ∷ [];
  protocols = qbft_v2_protocol_id ∷ [];
  proposals = [];
}

abbrev history : List InfoSyncResult
history = result 31 ∷ result 63 ∷ []

history_upto : UpTo 95 history
history_upto = (omega arith, (omega arith, tt))

history_order : InOrder history
history_order = ((omega arith, tt), (tt, tt))

has_versions : (result 95).versions ≢ []
has_versions e = cc

add_result-IsHistory_example :
    IsHistory (add_result history (result 95)) × UpTo 95 (add_result history (result 95))
add_result-IsHistory_example =
    add_result-IsHistory history (result 95) (omega arith, history_order) history_upto

latest_newest_example :
    ((r : InfoSyncResult) × (latest_result history 70 ≡ some r) × Governs r history 70)
    ⊎ ((latest_result history 70 ≡ none) × All (λ s. 70 < s.slot) history)
latest_newest_example = latest_newest history 70 history_order

same_selection_example :
    (selected_protocols (add_result history (result 95)) 100 []
      ≡ selected_protocols (add_result [] (result 95)) 100 ((5 ∷ []) ∷ []))
    × (most_preferred_consensus_protocol
          (selected_protocols (add_result history (result 95)) 100 [])
        ≡ most_preferred_consensus_protocol
            (selected_protocols (add_result [] (result 95)) 100 ((5 ∷ []) ∷ [])))
same_selection_example =
    same_selection history [] (result 95) 100 [] ((5 ∷ []) ∷ []) history_upto tt has_versions
      (omega arith)

-- "qbft" and "abft"
abbrev qbft : Bytes
qbft = 113 ∷ 98 ∷ 102 ∷ 116 ∷ []

abbrev abft : Bytes
abft = 97 ∷ 98 ∷ 102 ∷ 116 ∷ []

abbrev abft_protocol : Bytes
abft_protocol =
    consensus_protocol_id_prefix ++ (97 ∷ 98 ∷ 102 ∷ 116 ∷ 47 ∷ 49 ∷ 46 ∷ 48 ∷ 46 ∷ 48 ∷ [])

abbrev parsigex_protocol : Bytes
parsigex_protocol =
    47 ∷ 99 ∷ 104 ∷ 97 ∷ 114 ∷ 111 ∷ 110 ∷ 47 ∷ 112 ∷ 97 ∷ 114 ∷ 115 ∷ 105 ∷ 103 ∷ 101 ∷ 120 ∷ 47
    ∷ 50 ∷ 46 ∷ 48 ∷ 46 ∷ 48 ∷ []

abbrev protocols : List Bytes
protocols = parsigex_protocol ∷ qbft_v2_protocol_id ∷ abft_protocol ∷ []

preferred :
    local_protocol_priorities protocols qbft abft
    ≡ abft_protocol ∷ qbft_v2_protocol_id ∷ parsigex_protocol ∷ []
unfolding local_protocol_priorities
preferred = refl

configured_first_example :
    local_protocol_priorities protocols qbft abft
    ≡ filter (has_name abft) protocols
      ++ (filter (has_name qbft) protocols
          ++ filter (λ p. not (has_name abft p) && not (has_name qbft p)) protocols)
configured_first_example =
    configured_first protocols qbft abft (λ e. cc) (λ e. cc)
      (
        (λ e. omega (arith, e)),
        ((λ e. omega (arith, e)), ((λ e. omega (arith, e)), ((λ e. omega (arith, e)), tt))),
      )
      (
        (λ e. omega (arith, e)),
        ((λ e. omega (arith, e)), ((λ e. omega (arith, e)), ((λ e. omega (arith, e)), tt))),
      )
      (==-sound abft qbft refl)

-- "v1.2.4", "v1.2.3" and "v1.1.0-rc1"
abbrev v1_2_4 : Bytes
v1_2_4 = 118 ∷ 49 ∷ 46 ∷ 50 ∷ 46 ∷ 52 ∷ []

abbrev v1_2_3 : Bytes
v1_2_3 = 118 ∷ 49 ∷ 46 ∷ 50 ∷ 46 ∷ 51 ∷ []

abbrev v1_1_0 : Bytes
v1_1_0 = 118 ∷ 49 ∷ 46 ∷ 49 ∷ 46 ∷ 48 ∷ 45 ∷ 114 ∷ 99 ∷ 49 ∷ []

abbrev version : ℕ → ℕ → ℕ → Bytes → Version
version a b c prerelease = record {
  major = pos a;
  minor = pos b;
  patch = pos c;
  prerelease = prerelease;
}

parsed_peer : parse_semantic_version v1_2_4 ≡ ok (version 1 2 4 [])
unfolding parse_semantic_version
parsed_peer = refl

parsed_latest : parse_semantic_version v1_2_3 ≡ ok (version 1 2 3 [])
unfolding parse_semantic_version
parsed_latest = refl

parsed_rc : parse_semantic_version v1_1_0 ≡ ok (version 1 1 0 (114 ∷ 99 ∷ 49 ∷ []))
unfolding parse_semantic_version
parsed_rc = refl

older : is_compatible_version v1_1_0 (v1_2_3 ∷ []) ≡ ok false
unfolding is_compatible_version
older = refl

none_supported : is_compatible_version v1_2_3 [] ≡ err no_supported_version
unfolding is_compatible_version
none_supported = refl

compatible_iff_example : (is_compatible_version v1_2_4 (v1_2_3 ∷ v1_1_0 ∷ []) ≡ ok true) ↔ (
    IsNewer (version 1 2 4 []) (version 1 2 3 [])
    ⊎ HasMinor (version 1 2 4 []) (v1_2_3 ∷ v1_1_0 ∷ []))
compatible_iff_example =
    compatible_iff v1_2_4 v1_2_3 (v1_1_0 ∷ []) (version 1 2 4 []) (version 1 2 3 []) parsed_peer
      parsed_latest

-- "abc1234" and a newline
newline_hash : validate_git_hash ((97 ∷ 98 ∷ 99 ∷ 49 ∷ 50 ∷ 51 ∷ 52 ∷ []) ++ 10 ∷ []) ≡ true
unfolding validate_git_hash
newline_hash = refl

ahead : calculate_clock_offset 30000000 30000000 2000000 ≡ pos 1000000
unfolding calculate_clock_offset sub_ℕ
ahead = refl

far_behind : clamp_clock_offset (negsuc 7199999999) 1 ≡ negsuc 3599999999
unfolding clamp_clock_offset sub_ℕ
far_behind = refl

-- ===== src/Infosync.antt =====
-- src/dv_spec/subspecs/infosync/infosync.py: the trigger, the order of the local priorities, the history
-- of agreed results and what they select. A `str` is the list of the bytes of its UTF-8 encoding.
pub mod Ordering
pub mod History
pub mod Agreement
pub mod Selection
use distributed_validator_sp.Base.{
  ℕ, ◌-◌, ◌%◌, Bool, true, false, not, ◌&&◌, Option, none, some, List, [], ◌∷◌, ◌++◌, ◌==◌, nat_eq,
  list_eq, if◌then◌else◌, ltb, leb, length, filter, Result, ok, err,
}
use distributed_validator_sp.Types.{Bytes, Duty, info_sync}
use distributed_validator_sp.Crypto.{Error, zero_division}

-- "version", "protocol" and "proposal"
abbrev pub topic_version : Bytes
topic_version = 118 ∷ 101 ∷ 114 ∷ 115 ∷ 105 ∷ 111 ∷ 110 ∷ []

abbrev pub topic_protocol : Bytes
topic_protocol = 112 ∷ 114 ∷ 111 ∷ 116 ∷ 111 ∷ 99 ∷ 111 ∷ 108 ∷ []

abbrev pub topic_proposal : Bytes
topic_proposal = 112 ∷ 114 ∷ 111 ∷ 112 ∷ 111 ∷ 115 ∷ 97 ∷ 108 ∷ []

-- "/charon/consensus/"
abbrev pub consensus_protocol_id_prefix : Bytes
consensus_protocol_id_prefix =
    47 ∷ 99 ∷ 104 ∷ 97 ∷ 114 ∷ 111 ∷ 110 ∷ 47 ∷ 99 ∷ 111 ∷ 110 ∷ 115 ∷ 101 ∷ 110 ∷ 115 ∷ 117 ∷ 115
    ∷ 47 ∷ []

-- "/charon/consensus/qbft/2.0.0"
abbrev pub qbft_v2_protocol_id : Bytes
qbft_v2_protocol_id =
    consensus_protocol_id_prefix ++ 113 ∷ 98 ∷ 102 ∷ 116 ∷ 47 ∷ 50 ∷ 46 ∷ 48 ∷ 46 ∷ 48 ∷ []

abbrev pub max_results : ℕ
max_results = 100

abbrev pub exchange_timeout_seconds : ℕ
exchange_timeout_seconds = 6

pub data ProposalType : Type 0 where
  full builder synthetic : ProposalType

-- The value of a proposal type.
unfoldable pub proposal_name : ProposalType → Bytes
proposal_name full = 102 ∷ 117 ∷ 108 ∷ 108 ∷ []
proposal_name builder = 98 ∷ 117 ∷ 105 ∷ 108 ∷ 100 ∷ 101 ∷ 114 ∷ []
proposal_name synthetic = 115 ∷ 121 ∷ 110 ∷ 116 ∷ 104 ∷ 101 ∷ 116 ∷ 105 ∷ 99 ∷ []

-- The remainder of a division by zero raises.
unfoldable pub is_infosync_slot : ℕ → ℕ → Result Error Bool
is_infosync_slot slot slots_per_epoch =
    if slots_per_epoch == 0
    then err zero_division
    else ok (slot % slots_per_epoch == slots_per_epoch - 1)

unfoldable pub infosync_duty : ℕ → Duty
infosync_duty slot = record { slot = slot; type = info_sync }

unfoldable pub local_proposal_types : Bool → Bool → List ProposalType
local_proposal_types has_builder has_synthetic =
    (if has_builder then builder ∷ [] else [])
    ++ ((if has_synthetic then synthetic ∷ [] else []) ++ full ∷ [])

-- p.startswith(prefix)
unfoldable pub starts_with : Bytes → Bytes → Bool
starts_with p [] = true
starts_with [] (b ∷ prefix) = false
starts_with (a ∷ p) (b ∷ prefix) = a == b && starts_with p prefix

unfoldable pub has_name : Bytes → Bytes → Bool
unfolding starts_with
has_name name p = starts_with p (consensus_protocol_id_prefix ++ (name ++ 47 ∷ []))

unfoldable pub prioritize_protocols_by_name : Bytes → List Bytes → List Bytes
unfolding has_name
prioritize_protocols_by_name name protocols =
    filter (has_name name) protocols ++ filter (λ p. not (has_name name p)) protocols

-- if name: ordered = prioritize_protocols_by_name(name, ordered)
unfoldable pub bump : Bytes → List Bytes → List Bytes
unfolding prioritize_protocols_by_name
bump [] ordered = ordered
bump (b ∷ name) ordered = prioritize_protocols_by_name (b ∷ name) ordered

unfoldable pub local_protocol_priorities : List Bytes → Bytes → Bytes → List Bytes
unfolding bump
local_protocol_priorities protocols lock_preferred_protocol configured_protocol =
    bump configured_protocol (bump lock_preferred_protocol protocols)

pub record InfoSyncResult : Type 0 where
  pub slot : ℕ
  pub versions : List Bytes
  pub protocols : List Bytes
  pub proposals : List Bytes

-- The generated `==` of the fields.
abbrev pub result_beq : InfoSyncResult → InfoSyncResult → Bool
result_beq a b =
    a.slot == b.slot
    && (a.versions == b.versions && (a.protocols == b.protocols && a.proposals == b.proposals))

-- results and results[-1] == result
unfoldable pub is_last : List InfoSyncResult → InfoSyncResult → Bool
is_last [] result = false
is_last (r ∷ []) result = result_beq r result
is_last (r ∷ s ∷ results) result = is_last (s ∷ results) result

-- updated[1:]
unfoldable pub drop_first : List InfoSyncResult → List InfoSyncResult
drop_first [] = []
drop_first (r ∷ results) = results

unfoldable pub add_result : List InfoSyncResult → InfoSyncResult → List InfoSyncResult
unfolding is_last drop_first
add_result results result =
    let updated = results ++ result ∷ [] in
    if length result.versions == 0
    then results
    else if is_last results result
    then results
    else if leb max_results (length updated)
    then drop_first updated
    else updated

-- for result in results, with what is found so far
unfoldable pub latest_from : Option InfoSyncResult → List InfoSyncResult → ℕ → Option InfoSyncResult
latest_from found [] slot = found
latest_from found (result ∷ results) slot =
    if ltb slot result.slot then found else latest_from (some result) results slot

unfoldable pub latest_result : List InfoSyncResult → ℕ → Option InfoSyncResult
unfolding latest_from
latest_result results slot = latest_from none results slot

unfoldable pub most_preferred_consensus_protocol : List Bytes → Bytes
unfolding starts_with
most_preferred_consensus_protocol [] = qbft_v2_protocol_id
most_preferred_consensus_protocol (protocol_id ∷ protocols) =
    if starts_with protocol_id consensus_protocol_id_prefix
    then protocol_id
    else most_preferred_consensus_protocol protocols

unfoldable pub selected_protocols : List InfoSyncResult → ℕ → List Bytes → List Bytes
unfolding latest_result
selected_protocols results slot local_protocols = elim (latest_result results slot) [
  | none ↦ local_protocols
  | some result ↦ result.protocols
]

unfoldable pub selected_proposal_types : List InfoSyncResult → ℕ → List Bytes
unfolding latest_result proposal_name
selected_proposal_types results slot = elim (latest_result results slot) [
  | none ↦ proposal_name full ∷ []
  | some result ↦ result.proposals
]

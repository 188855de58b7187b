-- ===== src/Dkg/Protocols.antt =====
-- dkg/protocols.py: the steps, thresholds, participants and share indices of the cluster edits. An ENR
-- is the list of its bytes.
use distributed_validator_sp.Base.{
  ℕ, zero, suc, ◌+◌, ◌*◌, ◌/◌, Bool, not, ◌||◌, Option, none, some, List, [], ◌∷◌, ◌++◌, ◌==◌,
  nat_eq, list_eq, if◌then◌else◌, ltb, leb, any, all, filter, Result, ok, err, ◌>>◌, guard,
}
use distributed_validator_sp.Types.{Bytes}

pub data ProtocolError : Type 0 where
  invalid_threshold removing_not_found participating_not_found old_not_found not_an_operator :
      ProtocolError
  does_not_remain : ProtocolError

-- "creator", "operator_config_signature" and "operator_enr_signature"
abbrev pub lock_definition_fields_reset : List Bytes
lock_definition_fields_reset =
    (99 ∷ 114 ∷ 101 ∷ 97 ∷ 116 ∷ 111 ∷ 114 ∷ [])
    ∷ (111 ∷ 112 ∷ 101 ∷ 114 ∷ 97 ∷ 116 ∷ 111 ∷ 114 ∷ 95 ∷ 99 ∷ 111 ∷ 110 ∷ 102 ∷ 105 ∷ 103 ∷ 95
        ∷ 115 ∷ 105 ∷ 103 ∷ 110 ∷ 97 ∷ 116 ∷ 117 ∷ 114 ∷ 101 ∷ [])
    ∷ (111 ∷ 112 ∷ 101 ∷ 114 ∷ 97 ∷ 116 ∷ 111 ∷ 114 ∷ 95 ∷ 101 ∷ 110 ∷ 114 ∷ 95 ∷ 115 ∷ 105 ∷ 103
        ∷ 110 ∷ 97 ∷ 116 ∷ 117 ∷ 114 ∷ 101 ∷ [])
    ∷ []

pub data EditProtocol : Type 0 where
  reshare_protocol add_operators remove_operators replace_operator : EditProtocol

pub data EditProtocolStep : Type 0 where
  reshare update_lock update_node_signatures write_artifacts noop ignore_node_signatures :
      EditProtocolStep

abbrev pub edit_protocol_step_count : ℕ
edit_protocol_step_count = 4

unfoldable pub edit_protocol_steps : Bool → List EditProtocolStep
edit_protocol_steps departing =
    if departing
    then reshare ∷ noop ∷ ignore_node_signatures ∷ noop ∷ []
    else reshare ∷ update_lock ∷ update_node_signatures ∷ write_artifacts ∷ []

-- ceil(2 * nodes / 3), for numbers of nodes that a float divides exactly enough
unfoldable pub recommended_threshold : ℕ → ℕ
recommended_threshold nodes = (2 * nodes + 2) / 3

unfoldable pub resolve_new_threshold : ℕ → Option ℕ → Result ProtocolError ℕ
unfolding recommended_threshold
resolve_new_threshold new_node_count none = ok (recommended_threshold new_node_count)
resolve_new_threshold new_node_count (some override) =
    if ltb override (recommended_threshold new_node_count) || leb new_node_count override
    then err invalid_threshold
    else ok override

-- enr in enrs
unfoldable pub among : Bytes → List Bytes → Bool
among enr enrs = any (λ other. other == enr) enrs

unfoldable pub reshare_participants : List Bytes → List Bytes
reshare_participants operator_enrs = operator_enrs

unfoldable pub add_operators_participants : List Bytes → List Bytes → List Bytes
add_operators_participants operator_enrs new_enrs = operator_enrs ++ new_enrs

unfoldable pub remove_operators_participants :
    List Bytes → List Bytes → List Bytes → Result ProtocolError (List Bytes)
unfolding among
remove_operators_participants operator_enrs removing_enrs [] = do
  guard (all (λ enr. among enr operator_enrs) removing_enrs) removing_not_found
  ok (filter (λ enr. not (among enr removing_enrs)) operator_enrs)
remove_operators_participants operator_enrs removing_enrs (p ∷ participating_enrs) = do
  guard (all (λ enr. among enr operator_enrs) removing_enrs) removing_not_found
  guard (all (λ enr. among enr operator_enrs) (p ∷ participating_enrs)) participating_not_found
  ok (p ∷ participating_enrs)

-- enrs.index(enr), of an ENR that is among them
unfoldable pub index_of : Bytes → List Bytes → ℕ
index_of enr [] = 0
index_of enr (other ∷ enrs) = let rest = index_of enr enrs in if other == enr then 0 else suc rest

-- participants[index] = enr
unfoldable pub set_at : ℕ → Bytes → List Bytes → List Bytes
set_at i enr [] = []
set_at zero enr (other ∷ enrs) = enr ∷ enrs
set_at (suc i) enr (other ∷ enrs) = other ∷ set_at i enr enrs

unfoldable pub replace_operator_participants :
    List Bytes → Bytes → Bytes → Result ProtocolError (List Bytes)
unfolding among index_of set_at
replace_operator_participants operator_enrs old_enr new_enr = do
  guard (among old_enr operator_enrs) old_not_found
  ok (set_at (index_of old_enr operator_enrs) new_enr operator_enrs)

unfoldable pub ceremony_share_index : List Bytes → Bytes → Result ProtocolError ℕ
unfolding among index_of
ceremony_share_index operator_enrs enr = do
  guard (among enr operator_enrs) not_an_operator
  ok (index_of enr operator_enrs + 1)

unfoldable pub new_lock_share_index : List Bytes → Bytes → Result ProtocolError ℕ
unfolding among index_of
new_lock_share_index remaining_enrs enr = do
  guard (among enr remaining_enrs) does_not_remain
  ok (index_of enr remaining_enrs + 1)

-- ===== src/Types.antt =====
-- src/dv_spec/types/duty.py: duty types and duties. Byte strings are lists of byte values, and a
-- `str` is the list of the bytes of its UTF-8 encoding.
use distributed_validator_sp.Base.{
  ℕ, ◌≡◌, ◌↔◌, Bool, true, ◌&&◌, List, Eq, ◌==◌, nat_eq, list_eq, eq_by_code, nat_beq_iff, &&_parts,
  arith,
}

abbrev pub Bytes : Type 0
Bytes = List ℕ

pub data DutyType : Type 0 where
  unknown proposer attester signature exit builder_proposer builder_registration randao : DutyType
  prepare_aggregator aggregator sync_message prepare_sync_contribution : DutyType
  sync_contribution info_sync : DutyType

-- int(duty_type)
abbrev pub duty_type_code : DutyType → ℕ
duty_type_code unknown = 0
duty_type_code proposer = 1
duty_type_code attester = 2
duty_type_code signature = 3
duty_type_code exit = 4
duty_type_code builder_proposer = 5
duty_type_code builder_registration = 6
duty_type_code randao = 7
duty_type_code prepare_aggregator = 8
duty_type_code aggregator = 9
duty_type_code sync_message = 10
duty_type_code prepare_sync_contribution = 11
duty_type_code sync_contribution = 12
duty_type_code info_sync = 13

pub duty_type_code-injective : (a b : DutyType) → duty_type_code a ≡ duty_type_code b → a ≡ b
duty_type_code-injective a b h = ground arith

instance abbrev pub duty_type_eq : Eq DutyType
duty_type_eq = eq_by_code duty_type_code duty_type_code-injective

pub record Duty : Type 0 where
  pub slot : ℕ
  pub type : DutyType

-- Duty.__eq__
abbrev pub duty_beq : Duty → Duty → Bool
duty_beq a b = a.slot == b.slot && a.type == b.type

pub duty_beq_iff : (a b : Duty) → (duty_beq a b ≡ true) ↔ (a ≡ b)
duty_beq_iff a b = (same, λ p. rw p (ground arith))
  where
    same : duty_beq a b ≡ true → a ≡ b
    same h =
        let t = &&_parts (a.slot == b.slot) (a.type == b.type) h in
        λ i. record {
          slot = (nat_beq_iff a.slot b.slot).0 t.0 i;
          type = (duty_type_eq.equal_iff a.type b.type).0 t.1 i;
        }

instance abbrev pub duty_eq : Eq Duty
duty_eq = record { equal = duty_beq; equal_iff = duty_beq_iff }

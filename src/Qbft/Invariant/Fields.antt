-- ===== src/Qbft/Invariant/Fields.antt =====
-- The invariant, over the fields of the instance that it reads.
use distributed_validator_sp.Base.{
  ℕ, ◌≤◌, ◌≡◌, refl, true, Option, none, some, List, [], length, count, All, ◌⊎◌, inl,
}
use distributed_validator_sp.Types.{Bytes, Duty}
use distributed_validator_sp.Crypto.{Crypto}
use distributed_validator_sp.Qbft.Definition.{Definition, quorum}
use distributed_validator_sp.Qbft.Message.{prepare, commit, QbftMsg}
use distributed_validator_sp.Qbft.Transport.{Transport}
use distributed_validator_sp.Qbft.State.{QbftConsensus, new_instance}
use distributed_validator_sp.Qbft.Justify.{matches}
use distributed_validator_sp.Qbft.Decision.Final.{SameDecision}

-- Undecided, or decided by a quorum of COMMITs for one value in the instance's round.
abbrev pub HasCommits : Definition → ℕ → List QbftMsg → Type 0
HasCommits d round q_commit =
    (q_commit ≡ [])
    ⊎ ((value : Option Bytes) × (quorum d ≤ count (matches commit round value) q_commit))

-- Nothing prepared, or a value with a quorum of PREPAREs from a round up to the current one.
abbrev pub HasPrepares : Definition → ℕ → Option ℕ → Option Bytes → List QbftMsg → Type 0
HasPrepares d round prepared_round hash js =
    ((prepared_round ≡ none) × (hash ≡ none) × (js ≡ []))
    ⊎ ((pr : ℕ) × (prepared_round ≡ some pr)
        × (pr ≤ round)
        × (quorum d ≤ length js)
        × All (λ j. matches prepare pr hash j ≡ true) js)

pub record ValidFields (d : Definition) (round : ℕ) (prepared_round : Option ℕ)
    (hash : Option Bytes) (js q_commit : List QbftMsg) : Type 0 where
  pub commits : HasCommits d round q_commit
  pub prepares : q_commit ≡ [] → HasPrepares d round prepared_round hash js

abbrev pub IsValid : QbftConsensus → Type 0
IsValid s =
    ValidFields s.d s.round s.prepared_round s.prepared_value_hash s.prepared_justification
      s.q_commit

pub IsValid-SameDecision : (s s' : QbftConsensus) → SameDecision s s' → IsValid s → IsValid s'
IsValid-SameDecision s s' h v =
    rw (h.d, h.round, h.prepared_round, h.prepared_value_hash, h.prepared_justification, h.q_commit)
      v

pub IsValid-new_instance :
    (c : Crypto) (d : Definition) (t : Transport) (duty : Duty) (peer : ℕ) (value : Bytes)
    → IsValid (new_instance c d t duty peer value)
unfolding new_instance
IsValid-new_instance c d t duty peer value = record {
  commits = inl refl;
  prepares = λ _. inl (refl, refl, refl);
}

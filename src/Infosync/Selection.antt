-- ===== src/Infosync/Selection.antt =====
-- infosync.py: what an agreed list of protocols selects.
use distributed_validator_sp.Base.{
  ◌≡◌, refl, ap, ◌⊎◌, inl, inr, Bool, true, false, List, [], ◌∷◌, ◌++◌, All, Bool-cases,
}
use distributed_validator_sp.Types.{Bytes}
use distributed_validator_sp.Infosync.{
  consensus_protocol_id_prefix, qbft_v2_protocol_id, starts_with, most_preferred_consensus_protocol,
}

abbrev pub is_consensus : Bytes → Bool
is_consensus p = starts_with p consensus_protocol_id_prefix

-- The protocol that is selected is the first consensus protocol of the agreed list, or QBFT v2 where
-- the list has none.
pub first_consensus :
    (protocols : List Bytes)
    → ((front : List Bytes) × (p : Bytes) × (back : List Bytes) × (protocols ≡ front ++ p ∷ back)
        × All (λ q. is_consensus q ≡ false) front
        × (is_consensus p ≡ true)
        × (most_preferred_consensus_protocol protocols ≡ p))
      ⊎ (All (λ q. is_consensus q ≡ false) protocols
          × (most_preferred_consensus_protocol protocols ≡ qbft_v2_protocol_id))
unfolding most_preferred_consensus_protocol
first_consensus [] = inr (tt, refl)
first_consensus (q ∷ protocols) = elim (Bool-cases (is_consensus q)) [
  | inl t ↦ inl ([], q, protocols, refl, tt, t, rw t refl)
  | inr f ↦ elim (first_consensus protocols) [
    | inl (front, p, back, e, a, c, s) ↦
        inl (q ∷ front, p, back, ap (λ l. q ∷ l) e, (f, a), c, rw f s)
    | inr (a, s) ↦ inr ((f, a), rw f s)
  ]
]

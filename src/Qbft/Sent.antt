-- ===== src/Qbft/Sent.antt =====
-- qbft/transport.py: what the broadcast methods send. Every message is the given one with a
-- signature, and carries the given justification.
use distributed_validator_sp.Base.{
  ℕ, zero, suc, ◌≡◌, refl, sym, ap, ◌∙◌, Bool, true, false, Option, none, some, List, [], ◌∷◌, ◌++◌,
  ◌==◌, if◌then◌else◌, Result, ok, err, ◌>>=◌, >>=-eq-ok, All, arith,
}
use distributed_validator_sp.Types.{Bytes, Duty}
use distributed_validator_sp.Crypto.{Crypto, Error}
use distributed_validator_sp.Encoding.Ssz.{zero_chunk}
use distributed_validator_sp.Qbft.Message.{
  MsgType, round_change, msg_type_eq, QbftMsg, QbftConsensusMsg, validate, new_msg,
}
use distributed_validator_sp.Qbft.Transport.{
  Transport, num_peers, or_default, known_value, value_set, for_each_peer, sign_message, signed_msg,
  build_message, broadcast_message, build_round_change, broadcast_round_change,
}

-- `cm` is `m` with a signature, and the justification `js`.
pub record Carries (m : QbftMsg) (js : List QbftMsg) (cm : QbftConsensusMsg) : Type 0 where
  pub valid : validate m ≡ true
  pub signature : Bytes
  pub message : cm.msg ≡ record m { signature = some signature }
  pub justification : cm.justification ≡ js

for_each_peer-All :
    (P : QbftConsensusMsg → Type 0) (n : ℕ) (build : Result Error QbftConsensusMsg)
    (ms : List QbftConsensusMsg)
    → ((cm : QbftConsensusMsg) → build ≡ ok cm → P cm)
    → for_each_peer n build ≡ ok ms
    → All P ms
unfolding for_each_peer
for_each_peer-All P zero build ms f e = let p : [] ≡ ms = cc in rw (← p) tt
for_each_peer-All P (suc n) (err x) ms f e = absurd (cc)
for_each_peer-All P (suc n) (ok cm) ms f e =
    let (rest, r, q) = >>=-eq-ok (for_each_peer n (ok cm)) (λ rest. ok (cm ∷ rest)) e in
    let p : cm ∷ rest ≡ ms = cc in rw (← p) (f cm refl, for_each_peer-All P n (ok cm) rest f r)

checked :
    (b : Bool) (x : Error) (m m' : QbftMsg)
    → (if b then ok m else err x) ≡ ok m'
    → (b ≡ true) × (m ≡ m')
checked true x m m' e = (refl, cc)
checked false x m m' e = absurd (cc)

new_msg-eq-ok : (m m' : QbftMsg) → new_msg m ≡ ok m' → (validate m ≡ true) × (m ≡ m')
unfolding new_msg
new_msg-eq-ok m m' e = checked (validate m) _ m m' e

module _ (c : Crypto) (t : Transport) where
  -- A created message is signed after its check, by `sign_message`.
  signed_msg_steps :
      (m : QbftMsg)
      → signed_msg c t m
        ≡ (new_msg m >>= λ x. sign_message c t x >>= λ s. ok (record x { signature = some s }))
  unfolding signed_msg
  signed_msg_steps m = refl

  signed_msg-eq-ok :
      (m m' : QbftMsg)
      → signed_msg c t m ≡ ok m'
      → (validate m ≡ true) × ((s : Bytes) × (m' ≡ record m { signature = some s }))
  signed_msg-eq-ok m m' e =
      let (x, a, b) =
        >>=-eq-ok (new_msg m)
          (λ x. sign_message c t x >>= λ s. ok (record x { signature = some s }))
          (sym (signed_msg_steps m) ∙ e) in
      let (s, p, q) =
        >>=-eq-ok (sign_message c t x) (λ s. ok (record x { signature = some s })) b in
      let (v, same) = new_msg-eq-ok m x a in
      (v, (s, ap (λ (r : Result Error QbftMsg). or_else m' r) (sym q) ∙ rw (← same)))
    where
      or_else : QbftMsg → Result Error QbftMsg → QbftMsg
      or_else d (ok r) = r
      or_else d (err x) = d

  -- The last step of both builders.
  abbrev envelope : QbftMsg → List QbftMsg → List Bytes → Result Error QbftConsensusMsg
  envelope m js vs =
      signed_msg c t m >>= λ x. ok (record { msg = x; justification = js; values = vs })

  envelope-Carries :
      (m : QbftMsg) (js : List QbftMsg) (vs : List Bytes) (cm : QbftConsensusMsg)
      → envelope m js vs ≡ ok cm
      → Carries m js cm
  envelope-Carries m js vs cm e =
      let (x, a, b) =
        >>=-eq-ok (signed_msg c t m) (λ x. ok (record { msg = x; justification = js; values = vs }))
          e in
      let (v, (s, q)) = signed_msg-eq-ok m x a in
      let r = same_message x js vs cm b in
      record { valid = v; signature = s; message = sym r.0 ∙ q; justification = sym r.1 }
    where
      same_message :
          (x : QbftMsg) (js : List QbftMsg) (vs : List Bytes) (cm : QbftConsensusMsg)
          → ◌≡◌ {A = Result Error QbftConsensusMsg}
              (ok (record { msg = x; justification = js; values = vs }))
              (ok cm)
          → (x ≡ cm.msg) × (js ≡ cm.justification)
      same_message x js vs cm b = (ground arith, ground arith)

-- A message for a value, of a type other than ROUND-CHANGE.
abbrev pub value_msg : MsgType → Duty → ℕ → ℕ → Bytes → QbftMsg
value_msg type duty peer round hash = record {
  type = type;
  duty = duty;
  peer_idx = peer;
  round = round;
  prepared_round = 0;
  signature = none;
  value_hash = if type == round_change then none else some hash;
  prepared_value_hash = zero_chunk;
}

-- A ROUND-CHANGE with what its sender has prepared.
abbrev pub round_change_msg : Duty → ℕ → ℕ → Option ℕ → Option Bytes → QbftMsg
round_change_msg duty peer round prepared_round hash = record {
  type = round_change;
  duty = duty;
  peer_idx = peer;
  round = round;
  prepared_round = or_default prepared_round 0;
  signature = none;
  value_hash = none;
  prepared_value_hash = or_default hash zero_chunk;
}

module _ (c : Crypto) (t : Transport) (duty : Duty) (peer round : ℕ) (js : List QbftMsg) where
  build_message_steps :
      (type : MsgType) (hash : Bytes)
      → build_message c t type duty peer round hash js none none
        ≡ envelope c t
            (value_msg type duty peer round hash)
            js
            (value_set (known_value t (some hash) ++ known_value t none) [])
  unfolding build_message
  build_message_steps type hash = refl

  build_round_change_steps :
      (prepared_round : Option ℕ) (hash : Option Bytes)
      → build_round_change c t duty peer round prepared_round hash js
        ≡ envelope c t
            (round_change_msg duty peer round prepared_round hash)
            js
            (known_value t hash)
  unfolding build_round_change
  build_round_change_steps prepared_round hash = refl

  -- Every message that is broadcast for a value carries it, and the given justification.
  pub broadcast_message-Carries :
      (type : MsgType) (hash : Bytes) (ms : List QbftConsensusMsg)
      → broadcast_message c t type duty peer round hash js none none ≡ ok ms
      → All (Carries (value_msg type duty peer round hash) js) ms
  unfolding broadcast_message
  broadcast_message-Carries type hash ms e =
      for_each_peer-All (Carries (value_msg type duty peer round hash) js) (num_peers t)
        (build_message c t type duty peer round hash js none none) ms
        (λ cm b. envelope-Carries c t _ js _ cm (sym (build_message_steps type hash) ∙ b)) e

  pub broadcast_round_change-Carries :
      (prepared_round : Option ℕ) (hash : Option Bytes) (ms : List QbftConsensusMsg)
      → broadcast_round_change c t duty peer round prepared_round hash js ≡ ok ms
      → All (Carries (round_change_msg duty peer round prepared_round hash) js) ms
  unfolding broadcast_round_change
  broadcast_round_change-Carries prepared_round hash ms e =
      for_each_peer-All (Carries (round_change_msg duty peer round prepared_round hash) js)
        (num_peers t) (build_round_change c t duty peer round prepared_round hash js) ms
        (λ cm b.
          envelope-Carries c t _ js _ cm (sym (build_round_change_steps prepared_round hash) ∙ b))
        e

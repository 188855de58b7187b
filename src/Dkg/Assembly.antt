-- ===== src/Dkg/Assembly.antt =====
-- dkg/frost.py: the shares that are assembled from the casts of the second round.
use distributed_validator_sp.Base.{
  ℕ, ◌≡◌, refl, sym, ◌∙◌, Bool, true, false, ◌&&◌, Option, none, some, List, [], ◌∷◌, ◌==◌, nat_eq,
  ==-eq, if◌then◌else◌, ltb, Dict, get, put, keys, or_nil, sorted, get-put_self, get-put_ne, Result,
  ok, err, >>=-eq-ok, Bool-cases, Option-cases, inl, inr,
}
use distributed_validator_sp.Types.{Bytes}
use distributed_validator_sp.Dkg.Frost.{
  FrostError, FrostRound2Cast, ValidatorShare, add_share, collect_shares, local_key,
  missing_key_material, validator_share, build_shares, assemble_validator_shares,
}
use distributed_validator_sp.Dkg.CastOrder.{
  Ascending, has_cast, listed, sorted-Ascending, listed-sorted, listed-collect, collect-Distinct,
}

abbrev pub or_share : Option Bytes → Option Bytes → Option Bytes
or_share none other = other
or_share (some share) other = some share

abbrev pub is_for : ℕ → ℕ → FrostRound2Cast → Bool
is_for validator source cast = cast.key.val_idx == validator && cast.key.source_id == source

-- The public share in the last cast of a node for a validator.
abbrev pub last_share : ℕ → ℕ → List FrostRound2Cast → Option Bytes
last_share validator source [] = none
last_share validator source (cast ∷ casts) =
    or_share (last_share validator source casts)
      (if is_for validator source cast then some cast.vk_share else none)

abbrev share_at : ℕ → ℕ → Dict ℕ (Dict ℕ Bytes) → Option Bytes
share_at validator source d = get source (or_nil (get validator d))

or_share_assoc : (a b c : Option Bytes) → or_share (or_share a b) c ≡ or_share a (or_share b c)
or_share_assoc none b c = refl
or_share_assoc (some a) b c = refl

put-at :
    (j source : ℕ) (share : Bytes) (d : Dict ℕ Bytes)
    → get source (put j share d)
      ≡ or_share (if j == source then some share else none) (get source d)
put-at j source share d = elim (Bool-cases (j == source)) [
  | inl t ↦ rw (t, ==-eq j source t, get-put_self source share d) refl
  | inr f ↦ rw (f, get-put_ne j source share d f) refl
]

add_share-at :
    (validator source : ℕ) (cast : FrostRound2Cast) (d : Dict ℕ (Dict ℕ Bytes))
    → share_at validator source (add_share cast d)
      ≡ or_share
          (if is_for validator source cast then some cast.vk_share else none)
          (share_at validator source d)
unfolding add_share
add_share-at validator source cast d = elim (Bool-cases (cast.key.val_idx == validator)) [
  | inl t ↦
      rw (t, ==-eq cast.key.val_idx validator t, get-put_self validator _ d)
        (put-at cast.key.source_id source cast.vk_share (or_nil (get validator d)))
  | inr f ↦ rw (f, get-put_ne cast.key.val_idx validator _ d f) refl
]

collect_shares-at :
    (validator source : ℕ) (casts : List FrostRound2Cast) (d : Dict ℕ (Dict ℕ Bytes))
    → share_at validator source (collect_shares casts d)
      ≡ or_share (last_share validator source casts) (share_at validator source d)
unfolding collect_shares
collect_shares-at validator source [] d = refl
collect_shares-at validator source (cast ∷ casts) d =
    collect_shares-at validator source casts (add_share cast d)
    ∙ rw (add_share-at validator source cast d) (
        sym (
          or_share_assoc (last_share validator source casts)
            (if is_for validator source cast then some cast.vk_share else none)
            (share_at validator source d)))

-- What a validator's result holds: the local keys, and of every node the public share that it cast last.
abbrev pub IsResult :
    List FrostRound2Cast → Dict ℕ Bytes → Dict ℕ Bytes → ℕ → ValidatorShare → Type 0
IsResult casts pubkeys secrets validator share =
    (get validator pubkeys ≡ some share.validator_pubkey)
    × (get validator secrets ≡ some share.secret_share)
    × ((source : ℕ) → get source share.public_shares.shares ≡ last_share validator source casts)

-- The results are those of the validators, one for one.
abbrev pub AllResults :
    List FrostRound2Cast → Dict ℕ Bytes → Dict ℕ Bytes → List ℕ → List ValidatorShare → Type 0
AllResults casts pubkeys secrets [] [] = Unit
AllResults casts pubkeys secrets (v ∷ validators) (share ∷ shares) =
    IsResult casts pubkeys secrets v share × AllResults casts pubkeys secrets validators shares
AllResults casts pubkeys secrets validators shares = false ≡ true

local_key-get :
    (validator : ℕ) (d : Dict ℕ Bytes) (key : Bytes)
    → local_key validator d ≡ ok key
    → get validator d ≡ some key
unfolding local_key
local_key-get validator d key h = elim (Option-cases (get validator d)) [
  | inl n ↦ absurd (cc (let q : refused ≡ ok key = rw (n, local_key) at h in q))
  | inr (k, e) ↦
      (let q : found k ≡ ok key = rw (e, local_key) at h in let p : k ≡ key = cc in rw p at e)
]
  where
    refused : Result FrostError Bytes
    refused = err missing_key_material

    found : Bytes → Result FrostError Bytes
    found k = ok k

or_share_none : (a : Option Bytes) → or_share a none ≡ a
or_share_none none = refl
or_share_none (some share) = refl

ok_injective :
    {a b : ValidatorShare} → ◌≡◌ {A = Result FrostError ValidatorShare} (ok a) (ok b) → a ≡ b
ok_injective h = cc

validator_share-IsResult :
    (casts : List FrostRound2Cast) (pubkeys secrets : Dict ℕ Bytes) (validator : ℕ)
    (share : ValidatorShare)
    → validator_share validator pubkeys secrets (collect_shares casts []) ≡ ok share
    → IsResult casts pubkeys secrets validator share
unfolding validator_share
validator_share-IsResult casts pubkeys secrets validator share h =
    let (pubkey, p, h₁) = >>=-eq-ok (local_key validator pubkeys) _ h in
    let (secret, q, h₂) = >>=-eq-ok (local_key validator secrets) _ h₁ in
    rw (← ok_injective h₂) (
      local_key-get validator pubkeys pubkey p,
      local_key-get validator secrets secret q,
      λ source.
          collect_shares-at validator source casts []
          ∙ or_share_none (last_share validator source casts),
    )

build_shares-All :
    (casts : List FrostRound2Cast) (pubkeys secrets : Dict ℕ Bytes) (validators : List ℕ)
    (shares : List ValidatorShare)
    → build_shares validators pubkeys secrets (collect_shares casts []) ≡ ok shares
    → AllResults casts pubkeys secrets validators shares
unfolding build_shares
build_shares-All casts pubkeys secrets [] [] h = tt
build_shares-All casts pubkeys secrets [] (s ∷ shares) h = cc
build_shares-All casts pubkeys secrets (v ∷ validators) shares h =
    let (share, p, h₁) =
      >>=-eq-ok (validator_share v pubkeys secrets (collect_shares casts [])) _ h in
    let (rest, q, h₂) =
      >>=-eq-ok (build_shares validators pubkeys secrets (collect_shares casts [])) _ h₁ in
    let e : share ∷ rest ≡ shares = cc in
    rw (← e) (
      validator_share-IsResult casts pubkeys secrets v share p,
      build_shares-All casts pubkeys secrets validators rest q,
    )

-- When the assembly succeeds, its results are one each for the validators with a cast and no others,
-- in ascending order of their indices: each has the local group key and secret share of its
-- validator, and under every share index the public share that this node cast last for it, or none.
pub assembled :
    (casts : List FrostRound2Cast) (pubkeys secrets : Dict ℕ Bytes) (shares : List ValidatorShare)
    → assemble_validator_shares casts pubkeys secrets ≡ ok shares
    → (validators : List ℕ) × Ascending validators
      × ((v : ℕ) → listed v validators ≡ has_cast v casts)
      × AllResults casts pubkeys secrets validators shares
unfolding assemble_validator_shares
assembled casts pubkeys secrets shares h =
    let found = keys (collect_shares casts []) in
    (
      sorted ltb found,
      sorted-Ascending found (collect-Distinct casts [] tt),
      λ v. listed-sorted v found ∙ listed-collect v casts [],
      build_shares-All casts pubkeys secrets (sorted ltb found) shares h,
    )

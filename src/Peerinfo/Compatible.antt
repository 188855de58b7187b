-- ===== src/Peerinfo/Compatible.antt =====
-- peerinfo/helpers.py: which versions are accepted.
use distributed_validator_sp.Base.{
  ◌+◌, ◌<◌, ◌||◌, ℤ, pos, negsuc, pos_part, neg_part, ==-refl, ◌≡◌, ◌↔◌, ◌⊎◌, inl, inr, refl, sym,
  ap, ◌∙◌, Bool, true, false, &&_parts, List, [], ◌∷◌, ◌++◌, nat_eq, ==-eq, if◌then◌else◌, All,
  Result, ok, err, ◌>>=◌, >>=-eq-ok, Bool-cases, arith,
}
use distributed_validator_sp.Types.{Bytes}
use distributed_validator_sp.Peerinfo.{
  int_ltb, int_beq, Version, PeerinfoError, invalid_version, no_supported_version, invalid_git_hash,
  nickname_too_long, parse_semantic_version, same_minor, is_newer, match_minor, compare_versions,
  is_compatible_version,
}

-- a < b on integers, with what is negative brought to the other side.
abbrev pub IsBefore : ℤ → ℤ → Type 0
IsBefore a b = pos_part a + neg_part b < pos_part b + neg_part a

or_true : (b : Bool) → (b || true) ≡ true
or_true b = ground arith

int_ltb_iff : (a b : ℤ) → (int_ltb a b ≡ true) ↔ IsBefore a b
unfolding int_ltb
int_ltb_iff (pos a) (pos b) = (λ h. ground (arith, h), λ h. ground (arith, h))
int_ltb_iff (pos a) (negsuc b) = (λ h. cc, λ h. absurd (omega (arith, h)))
int_ltb_iff (negsuc a) (pos b) = (λ h. omega arith, λ h. refl)
int_ltb_iff (negsuc a) (negsuc b) = (λ h. ground (arith, h), λ h. ground (arith, h))

int_beq_iff : (a b : ℤ) → (int_beq a b ≡ true) ↔ (a ≡ b)
unfolding int_beq
int_beq_iff (pos a) (pos b) =
    (λ h. ap pos (==-eq a b h), λ h. (let e : a ≡ b = cc in rw e (==-refl b)))
int_beq_iff (pos a) (negsuc b) = (λ h. cc, λ h. cc)
int_beq_iff (negsuc a) (pos b) = (λ h. cc, λ h. cc)
int_beq_iff (negsuc a) (negsuc b) =
    (λ h. ap negsuc (==-eq a b h), λ h. (let e : a ≡ b = cc in rw e (==-refl b)))

-- Versions are ordered by their major numbers, and those of one major number by their minor numbers.
abbrev pub IsNewer : Version → Version → Type 0
IsNewer peer latest =
    IsBefore latest.major peer.major
    ⊎ ((peer.major ≡ latest.major) × IsBefore latest.minor peer.minor)

abbrev pub SameMinor : Version → Version → Type 0
SameMinor a b = (a.major ≡ b.major) × (a.minor ≡ b.minor)

same_minor_iff : (a b : Version) → (same_minor a b ≡ true) ↔ SameMinor a b
unfolding same_minor
same_minor_iff a b = (
  λ h.
      (let (p, q) = &&_parts (int_beq a.major b.major) (int_beq a.minor b.minor) h in
        ((int_beq_iff a.major b.major).0 p, (int_beq_iff a.minor b.minor).0 q)),
  λ (p, q). rw ((int_beq_iff a.major b.major).1 p) ((int_beq_iff a.minor b.minor).1 q),
)

is_newer_iff : (peer latest : Version) → (is_newer peer latest ≡ true) ↔ IsNewer peer latest
unfolding is_newer
is_newer_iff peer latest =
    let major = int_ltb_iff latest.major peer.major in
    let minor = int_ltb_iff latest.minor peer.minor in
    let equal = int_beq_iff peer.major latest.major in
    (
      λ h. elim (Bool-cases (int_ltb latest.major peer.major)) [
        | inl t ↦ inl (major.0 t)
        | inr f ↦
            (let (p, q) =
                &&_parts (int_beq peer.major latest.major) (int_ltb latest.minor peer.minor)
                  (rw f at h) in
              inr (equal.0 p, minor.0 q))
      ],
      λ h. elim h [
        | inl p ↦ rw (major.1 p) refl
        | inr (p, q) ↦ rw (equal.1 p, minor.1 q) (or_true (int_ltb latest.major peer.major))
      ],
    )

abbrev pub Parses : Bytes → Type 0
Parses text = (version : Version) × (parse_semantic_version text ≡ ok version)

-- One of the supported versions has the peer's major and minor number, and all before it can be parsed.
abbrev pub HasMinor : Version → List Bytes → Type 0
HasMinor peer supported =
    (front : List Bytes) × (text : Bytes) × (back : List Bytes) × (version : Version) × (supported
      ≡ front ++ text ∷ back)
    × All Parses front
    × (parse_semantic_version text ≡ ok version)
    × SameMinor peer version

match_step :
    (peer : Version) (text : Bytes) (rest : List Bytes) (version : Version)
    → parse_semantic_version text ≡ ok version
    → match_minor peer (text ∷ rest)
      ≡ (if same_minor peer version then ok true else match_minor peer rest)
unfolding match_minor
match_step peer text rest version p = rw p refl

match_found :
    (peer : Version) (text : Bytes) (rest : List Bytes) (version : Version)
    → parse_semantic_version text ≡ ok version
    → SameMinor peer version
    → match_minor peer (text ∷ rest) ≡ ok true
match_found peer text rest version p h =
    match_step peer text rest version p ∙ rw ((same_minor_iff peer version).1 h) refl

match_behind :
    (peer : Version) (front : List Bytes) (text : Bytes) (back : List Bytes) (version : Version)
    → All Parses front
    → parse_semantic_version text ≡ ok version
    → SameMinor peer version
    → match_minor peer (front ++ text ∷ back) ≡ ok true
match_behind peer [] text back version a p h = match_found peer text back version p h
match_behind peer (other ∷ front) text back version a p h =
    let (v, e) = a.0 in
    match_step peer other (front ++ text ∷ back) v e ∙ elim (Bool-cases (same_minor peer v)) [
      | inl t ↦ rw t refl
      | inr f ↦ rw f (match_behind peer front text back version a.1 p h)
    ]

match_sound :
    (peer : Version) (supported : List Bytes)
    → match_minor peer supported ≡ ok true
    → HasMinor peer supported
unfolding match_minor
match_sound peer [] h = cc
match_sound peer (text ∷ rest) h =
    let (v, p, q) =
      >>=-eq-ok (parse_semantic_version text)
        (λ v. if same_minor peer v then ok true else match_minor peer rest) h in
    elim (Bool-cases (same_minor peer v)) [
      | inl t ↦ ([], text, rest, v, refl, tt, p, (same_minor_iff peer v).0 t)
      | inr f ↦
          (let (front, found, back, version, e, a, k, same) = match_sound peer rest (rw f at q) in
            (text ∷ front, found, back, version, ap (λ l. text ∷ l) e, ((v, p), a), k, same))
    ]

match_minor_iff :
    (peer : Version) (supported : List Bytes)
    → (match_minor peer supported ≡ ok true) ↔ HasMinor peer supported
match_minor_iff peer supported = (
  match_sound peer supported,
  λ (front, text, back, version, e, a, p, h).
      rw e (match_behind peer front text back version a p h),
)

caught_iff :
    (peer_version : Bytes) (supported : List Bytes)
    → (is_compatible_version peer_version supported ≡ ok true)
      ↔ (compare_versions peer_version supported ≡ ok true)
unfolding is_compatible_version
caught_iff peer_version supported = same (compare_versions peer_version supported)
  where
    same :
        (r : Result PeerinfoError Bool)
        → (◌≡◌ {A = Result PeerinfoError Bool}
            (elim r [
              | ok compatible ↦ ok compatible
              | err no_supported_version ↦ err no_supported_version
              | err e ↦ ok false
            ])
            (ok true))
          ↔ (r ≡ ok true)
    same (ok b) = (λ h. h, λ h. h)
    same (err invalid_version) = (λ h. cc, λ h. cc)
    same (err no_supported_version) = (λ h. cc, λ h. cc)
    same (err invalid_git_hash) = (λ h. cc, λ h. cc)
    same (err nickname_too_long) = (λ h. cc, λ h. cc)

compare_versions_lem :
    (peer_version first : Bytes) (rest : List Bytes) (peer latest : Version)
    → parse_semantic_version peer_version ≡ ok peer
    → parse_semantic_version first ≡ ok latest
    → compare_versions peer_version (first ∷ rest)
      ≡ (if is_newer peer latest then ok true else match_minor peer (first ∷ rest))
unfolding compare_versions
compare_versions_lem peer_version first rest peer latest p q =
    ap
      (λ r. r >>= λ peer. parse_semantic_version first >>= λ latest.
        if is_newer peer latest then ok true else match_minor peer (first ∷ rest))
      p
    ∙ ap
        (λ r.
          r >>= λ latest. if is_newer peer latest then ok true else match_minor peer (first ∷ rest))
        q

compared_iff :
    (peer_version first : Bytes) (rest : List Bytes) (peer latest : Version)
    → parse_semantic_version peer_version ≡ ok peer
    → parse_semantic_version first ≡ ok latest
    → (compare_versions peer_version (first ∷ rest) ≡ ok true)
      ↔ (IsNewer peer latest ⊎ HasMinor peer (first ∷ rest))
compared_iff peer_version first rest peer latest p q =
    rw (compare_versions_lem peer_version first rest peer latest p q)
      (elim (Bool-cases (is_newer peer latest)) [
        | inl t ↦ (λ h. inl ((is_newer_iff peer latest).0 t), λ h. rw t refl)
        | inr f ↦ (
          λ h. inr ((match_minor_iff peer (first ∷ rest)).0 (rw f at h)),
          λ h. elim h [
            | inl n ↦
                absurd (cc (let e : true ≡ false = sym ((is_newer_iff peer latest).1 n) ∙ f in e))
            | inr m ↦ rw f ((match_minor_iff peer (first ∷ rest)).1 m)
          ],
        )
      ])

-- For a peer version and a first supported version that can be parsed, the peer is compatible exactly
-- if it is of a later major number than the first version, or of the same major and a later minor
-- number, or if a supported version has both its major and its minor number and every one before
-- that can be parsed.
pub compatible_iff :
    (peer_version first : Bytes) (rest : List Bytes) (peer latest : Version)
    → parse_semantic_version peer_version ≡ ok peer
    → parse_semantic_version first ≡ ok latest
    → (is_compatible_version peer_version (first ∷ rest) ≡ ok true)
      ↔ (IsNewer peer latest ⊎ HasMinor peer (first ∷ rest))
compatible_iff peer_version first rest peer latest p q =
    let caught = caught_iff peer_version (first ∷ rest) in
    let compared = compared_iff peer_version first rest peer latest p q in
    (λ h. compared.0 (caught.0 h), λ h. caught.1 (compared.1 h))

-- ===== src/Infosync/Ordering.antt =====
-- infosync.py: the order in which a node proposes its protocols.
use distributed_validator_sp.Base.{
  ◌≡◌, ◌≢◌, refl, sym, ap, ap₂, ◌∙◌, Bool, true, false, not, ◌&&◌, &&_parts, List, [], ◌∷◌, ◌++◌,
  ◌==◌, nat_eq, ==-eq, length, drop, filter, filter-append, All, Bool-cases, inl, inr,
}
use distributed_validator_sp.Types.{Bytes}
use distributed_validator_sp.Infosync.{
  consensus_protocol_id_prefix, starts_with, has_name, prioritize_protocols_by_name, bump,
  local_protocol_priorities,
}

-- A name without a slash.
abbrev pub IsPlain : Bytes → Type 0
IsPlain = All (λ b. b ≢ 47)

starts_with_rest :
    (prefix rest p : Bytes)
    → starts_with p (prefix ++ rest) ≡ true
    → starts_with (drop (length prefix) p) rest ≡ true
unfolding starts_with
starts_with_rest [] rest p h = h
starts_with_rest (b ∷ prefix) rest [] h = cc
starts_with_rest (b ∷ prefix) rest (a ∷ p) h =
    starts_with_rest prefix rest p (&&_parts (a == b) (starts_with p (prefix ++ rest)) h).1

-- A protocol has one name.
name_unique :
    (p name other : Bytes)
    → IsPlain name
    → IsPlain other
    → starts_with p (name ++ 47 ∷ []) ≡ true
    → starts_with p (other ++ 47 ∷ []) ≡ true
    → name ≡ other
unfolding starts_with
name_unique p [] [] n o h k = refl
name_unique [] [] (b ∷ other) n o h k = cc
name_unique [] (a ∷ name) other n o h k = cc
name_unique (x ∷ p) [] (b ∷ other) n o h k =
    let e : x ≡ 47 = ==-eq x 47 (&&_parts (x == 47) _ h).0 in
    let f : x ≡ b = ==-eq x b (&&_parts (x == b) _ k).0 in absurd (o.0 (sym f ∙ e))
name_unique (x ∷ p) (a ∷ name) [] n o h k =
    let e : x ≡ a = ==-eq x a (&&_parts (x == a) _ h).0 in
    let f : x ≡ 47 = ==-eq x 47 (&&_parts (x == 47) _ k).0 in absurd (n.0 (sym e ∙ f))
name_unique (x ∷ p) (a ∷ name) (b ∷ other) n o h k =
    let (e, h') = &&_parts (x == a) _ h in
    let (f, k') = &&_parts (x == b) _ k in
    ap₂ ◌∷◌ (sym (==-eq x a e) ∙ ==-eq x b f) (name_unique p name other n.1 o.1 h' k')

name_disjoint :
    (name other p : Bytes)
    → IsPlain name
    → IsPlain other
    → name ≢ other
    → has_name name p ≡ true
    → has_name other p ≡ false
unfolding has_name
name_disjoint name other p n o d h = elim (Bool-cases (has_name other p)) [
  | inl t ↦ absurd (
      d (
        name_unique (drop 18 p) name other n o
          (starts_with_rest consensus_protocol_id_prefix (name ++ 47 ∷ []) p h)
          (starts_with_rest consensus_protocol_id_prefix (other ++ 47 ∷ []) p t)))
  | inr f ↦ f
]

-- Two tests that never both hold, and the lists that pass them.
module _ {ℓ} {A : Type ℓ} (p q : A → Bool) (d : (x : A) → p x ≡ true → q x ≡ false) where
  filter_both : (xs : List A) → filter p (filter q xs) ≡ []
  filter_both [] = refl
  filter_both (x ∷ xs) = elim (Bool-cases (p x)) [
    | inl t ↦ rw (d x t) (filter_both xs)
    | inr f ↦ elim (Bool-cases (q x)) [
      | inl t ↦ rw (t, f) (filter_both xs)
      | inr g ↦ rw g (filter_both xs)
    ]
  ]

  filter_first : (xs : List A) → filter p (filter (λ x. not (q x)) xs) ≡ filter p xs
  filter_first [] = refl
  filter_first (x ∷ xs) = elim (Bool-cases (p x)) [
    | inl t ↦ rw (d x t, t) (ap (λ l. x ∷ l) (filter_first xs))
    | inr f ↦ elim (Bool-cases (q x)) [
      | inl t ↦ rw (t, f) (filter_first xs)
      | inr g ↦ rw (g, f) (filter_first xs)
    ]
  ]

  filter_second : (xs : List A) → filter (λ x. not (p x)) (filter q xs) ≡ filter q xs
  filter_second [] = refl
  filter_second (x ∷ xs) = elim (Bool-cases (p x)) [
    | inl t ↦ rw (d x t) (filter_second xs)
    | inr f ↦ elim (Bool-cases (q x)) [
      | inl t ↦ rw (t, f) (ap (λ l. x ∷ l) (filter_second xs))
      | inr g ↦ rw g (filter_second xs)
    ]
  ]

  filter_neither :
      (xs : List A)
      → filter (λ x. not (p x)) (filter (λ x. not (q x)) xs)
        ≡ filter (λ x. not (p x) && not (q x)) xs
  filter_neither [] = refl
  filter_neither (x ∷ xs) = elim (Bool-cases (p x)) [
    | inl t ↦ rw (d x t, t) (filter_neither xs)
    | inr f ↦ elim (Bool-cases (q x)) [
      | inl t ↦ rw (f, t) (filter_neither xs)
      | inr g ↦ rw (g, f) (ap (λ l. x ∷ l) (filter_neither xs))
    ]
  ]

  bumped_twice :
      (xs : List A)
      → filter p (filter q xs ++ filter (λ x. not (q x)) xs)
          ++ filter (λ x. not (p x)) (filter q xs ++ filter (λ x. not (q x)) xs)
        ≡ filter p xs ++ (filter q xs ++ filter (λ x. not (p x) && not (q x)) xs)
  bumped_twice xs =
      rw
        (
          filter-append p (filter q xs) (filter (λ x. not (q x)) xs),
          filter-append (λ x. not (p x)) (filter q xs) (filter (λ x. not (q x)) xs),
          filter_both xs,
          filter_first xs,
          filter_second xs,
          filter_neither xs,
        )
        refl

-- For a protocol name from the cluster lock and another one from the configuration, neither empty nor
-- with a slash in it, a node proposes first its protocols of the configured name, then those of the
-- lock's name and then all others, each group in its original order.
pub configured_first :
    (protocols : List Bytes) (lock_preferred configured : Bytes)
    → lock_preferred ≢ []
    → configured ≢ []
    → IsPlain lock_preferred
    → IsPlain configured
    → configured ≢ lock_preferred
    → local_protocol_priorities protocols lock_preferred configured
      ≡ filter (has_name configured) protocols
        ++ (filter (has_name lock_preferred) protocols
            ++ filter
                (λ p. not (has_name configured p) && not (has_name lock_preferred p))
                protocols)
unfolding local_protocol_priorities bump prioritize_protocols_by_name
configured_first protocols [] configured a b n m d = absurd (a refl)
configured_first protocols (x ∷ lock_preferred) [] a b n m d = absurd (b refl)
configured_first protocols (x ∷ lock_preferred) (y ∷ configured) a b n m d =
    bumped_twice (has_name (y ∷ configured)) (has_name (x ∷ lock_preferred))
      (λ p. name_disjoint (y ∷ configured) (x ∷ lock_preferred) p m n d) protocols

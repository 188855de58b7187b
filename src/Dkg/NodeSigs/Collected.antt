-- ===== src/Dkg/NodeSigs/Collected.antt =====
-- node_sigs.py: which messages are admitted, and when the collection is complete.
use distributed_validator_sp.Base.{
  ℕ, zero, suc, ◌<◌, ◌≡◌, ◌≢◌, ◌↔◌, ◌⊎◌, refl, sym, ap, ◌∙◌, Bool, true, false, not, ◌||◌, none,
  some, List, [], ◌∷◌, ◌++◌, ◌==◌, ==-eq, ==-sound, nat_eq, list_eq, ||_parts, any, Option,
  if◌then◌else◌, filter, filter-append, map, Dict, get, has, has-get, ok, Bool-cases, Option-cases,
  inl, inr, arith,
}
use distributed_validator_sp.Types.{Bytes}
use distributed_validator_sp.Dkg.NodeSigs.{
  MsgNodeSig, none_data, verify_node_sig_msg, range, sig_at, collect_node_sigs,
}

-- A message is admitted exactly if it names the authenticated sender, which is another peer of the
-- cluster.
pub admitted_iff :
    (msg : MsgNodeSig) (sender own num_peers : ℕ)
    → (verify_node_sig_msg msg sender own num_peers ≡ ok tt)
      ↔ ((msg.peer_index ≡ sender) × (sender < num_peers) × (sender ≢ own))
unfolding verify_node_sig_msg
admitted_iff msg sender own num_peers = ((λ h. ground arith), (λ h. ground arith))

any_last : (p : ℕ → Bool) (xs : List ℕ) (n : ℕ) → any p (xs ++ n ∷ []) ≡ (any p xs || p n)
any_last p [] n = ground arith
any_last p (x ∷ xs) n = elim (Bool-cases (p x)) [
  | inl t ↦ rw t refl
  | inr f ↦ rw f (any_last p xs n)
]

last_or_lower : (i n : ℕ) → i < suc n → (i < n) ⊎ (i ≡ n)
last_or_lower i n l = ground arith

-- The list that the peers below a number have sent, in the order of their indices: each has sent its
-- signature, or the sentinel, which is left out.
abbrev pub SentBelow : Dict ℕ Bytes → ℕ → List Bytes → Type 0
SentBelow sigs zero l = l ≡ []
SentBelow sigs (suc n) l =
    (sig : Bytes) × (get n sigs ≡ some sig)
    × (((sig ≡ none_data) × SentBelow sigs n l)
        ⊎ ((sig ≢ none_data)
            × ((front : List Bytes) × (l ≡ front ++ sig ∷ []) × SentBelow sigs n front)))

-- What the next peer adds to the list of those before it.
abbrev add_peer : Option Bytes → Option (List Bytes) → Option (List Bytes)
add_peer none found = none
add_peer (some sig) none = none
add_peer (some sig) (some l) = some (if sig == none_data then l else l ++ sig ∷ [])

map-last : (f : ℕ → Bytes) (xs : List ℕ) (n : ℕ) → map f (xs ++ n ∷ []) ≡ map f xs ++ f n ∷ []
map-last f [] n = refl
map-last f (x ∷ xs) n = ap (λ l. f x ∷ l) (map-last f xs n)

absent_key : (n : ℕ) (sigs : Dict ℕ Bytes) → get n sigs ≡ none → has n sigs ≡ false
unfolding get has
absent_key n [] h = refl
absent_key n ((j, v) ∷ sigs) h = ground (arith, absent_key n sigs, h)

present_key :
    (n : ℕ) (sigs : Dict ℕ Bytes) (sig : Bytes) → get n sigs ≡ some sig → has n sigs ≡ true
present_key n sigs sig e = elim (Bool-cases (has n sigs)) [
  | inl t ↦ t
  | inr f ↦ (let p = has-get n sigs f in cc)
]

abbrev unsent : Dict ℕ Bytes → ℕ → Bool
unsent sigs i = not (has i sigs)

abbrev is_sent : Dict ℕ Bytes → ℕ → Bool
is_sent sigs i = not (sig_at sigs i == none_data)

-- The two forms of what is collected.
collect_none :
    (sigs : Dict ℕ Bytes) (n : ℕ)
    → any (unsent sigs) (range n) ≡ true
    → collect_node_sigs sigs n ≡ none
unfolding collect_node_sigs
collect_none sigs n t = rw (collect_node_sigs, t) refl

collect_some :
    (sigs : Dict ℕ Bytes) (n : ℕ)
    → any (unsent sigs) (range n) ≡ false
    → collect_node_sigs sigs n ≡ some (map (sig_at sigs) (filter (is_sent sigs) (range n)))
unfolding collect_node_sigs
collect_some sigs n f = rw (collect_node_sigs, f) refl

||_true : (b : Bool) → (b || true) ≡ true
||_true true = refl
||_true false = refl

some_eq : {a b : List Bytes} → some a ≡ some b → a ≡ b
some_eq h = cc

append_nil : (l : List ℕ) → l ++ [] ≡ l
append_nil [] = refl
append_nil (x ∷ l) = ap (λ k. x ∷ k) (append_nil l)

sent-last :
    (sigs : Dict ℕ Bytes) (n : ℕ) (sig : Bytes)
    → sig_at sigs n ≡ sig
    → map (sig_at sigs) (filter (is_sent sigs) (range (suc n))) ≡ (
        if sig == none_data
        then map (sig_at sigs) (filter (is_sent sigs) (range n))
        else map (sig_at sigs) (filter (is_sent sigs) (range n)) ++ sig ∷ [])
sent-last sigs n sig e =
    let split = ap (map (sig_at sigs)) (filter-append (is_sent sigs) (range n) (n ∷ [])) in
    elim (Bool-cases (sig == none_data)) [
      | inl t ↦ rw t (
          split ∙ rw (e, t) (ap (map (sig_at sigs)) (append_nil (filter (is_sent sigs) (range n)))))
      | inr f ↦ rw f (
          split
          ∙ rw (e, f) (map-last (sig_at sigs) (filter (is_sent sigs) (range n)) n ∙ rw e refl))
    ]

collect-suc :
    (sigs : Dict ℕ Bytes) (n : ℕ)
    → collect_node_sigs sigs (suc n) ≡ add_peer (get n sigs) (collect_node_sigs sigs n)
unfolding sig_at
collect-suc sigs n =
    let split = any_last (unsent sigs) (range n) n in
    elim (Option-cases (get n sigs)) [
      | inl e ↦
          (let h = absent_key n sigs e in
            rw e (collect_none sigs (suc n) (split ∙ rw h (||_true (any (unsent sigs) (range n))))))
      | inr (sig, e) ↦
          (let h = present_key n sigs sig e in
            let at : sig_at sigs n ≡ sig = rw (sig_at, e) refl in
            elim (Bool-cases (any (unsent sigs) (range n))) [
              | inl t ↦
                  rw (e, collect_none sigs n t) (collect_none sigs (suc n) (split ∙ rw t refl))
              | inr f ↦
                  rw (e, collect_some sigs n f)
                    (collect_some sigs (suc n) (split ∙ rw (f, h) refl)
                      ∙ ap some (sent-last sigs n sig at))
            ])
    ]

add_peer_iff :
    (sig : Bytes) (found : Option (List Bytes)) (l : List Bytes)
    → (add_peer (some sig) found ≡ some l) ↔ (
        ((sig ≡ none_data) × (found ≡ some l))
        ⊎ ((sig ≢ none_data)
            × ((front : List Bytes) × (l ≡ front ++ sig ∷ []) × (found ≡ some front))))
add_peer_iff sig none l = (λ h. cc, λ h. elim h [ inl (p, q) ↦ cc | inr (p, (front, q, r)) ↦ cc ])
add_peer_iff sig (some front) l = elim (Bool-cases (sig == none_data)) [
  | inl t ↦ rw t (
    λ h. inl (==-eq sig none_data t, h),
    λ h. elim h [ inl (p, q) ↦ q | inr (p, r) ↦ absurd (p (==-eq sig none_data t)) ],
  )
  | inr f ↦ rw f (
    λ h. inr (==-sound sig none_data f, (front, sym (some_eq h), refl)),
    λ h. elim h [
      | inl (p, q) ↦ absurd (==-sound sig none_data f p)
      | inr (p, (front, q, r)) ↦ (let e = some_eq r in rw (q, e) refl)
    ],
  )
]

collected_list :
    (sigs : Dict ℕ Bytes) (n : ℕ) (l : List Bytes)
    → (collect_node_sigs sigs n ≡ some l) ↔ SentBelow sigs n l
unfolding collect_node_sigs
collected_list sigs zero l = (λ h. sym (some_eq h), λ h. rw h refl)
collected_list sigs (suc n) l =
    let step = collect-suc sigs n in
    (
      λ h. elim (Option-cases (get n sigs)) [
        | inl e ↦
            (let p : add_peer none (collect_node_sigs sigs n) ≡ some l = rw e at (sym step ∙ h) in
              cc)
        | inr (sig, e) ↦
            (let p : add_peer (some sig) (collect_node_sigs sigs n) ≡ some l =
                rw e at (sym step ∙ h) in
              (
                sig,
                e,
                elim ((add_peer_iff sig (collect_node_sigs sigs n) l).0 p) [
                  | inl (q, r) ↦ inl (q, (collected_list sigs n l).0 r)
                  | inr (q, (front, k, r)) ↦ inr (q, (front, k, (collected_list sigs n front).0 r))
                ],
              ))
      ],
      λ (sig, e, choice).
          step
          ∙ rw e (
              (add_peer_iff sig (collect_node_sigs sigs n) l).1 (elim choice [
                | inl (q, r) ↦ inl (q, (collected_list sigs n l).1 r)
                | inr (q, (front, k, r)) ↦ inr (q, (front, k, (collected_list sigs n front).1 r))
              ])),
    )

-- Whether an index below `n` has no signature.
any_missing :
    (sigs : Dict ℕ Bytes) (n : ℕ)
    → (any (λ i. not (has i sigs)) (range n) ≡ false) ↔ ((i : ℕ) → i < n → has i sigs ≡ true)
any_missing sigs zero = ((λ h i l. absurd (omega (arith, l))), (λ h. refl))
any_missing sigs (suc n) =
    let split = any_last (λ i. not (has i sigs)) (range n) n in
    let lower = any_missing sigs n in
    (
      (λ h i l.
          let p =
            ||_parts (any (λ i. not (has i sigs)) (range n)) (not (has n sigs)) (sym split ∙ h) in
          elim (last_or_lower i n l) [
            | inl k ↦ lower.0 p.0 i k
            | inr e ↦ (let q = p.1 in rw e (ground arith))
          ]),
      (λ h.
          let front = lower.1 (λ i l. h i (omega (arith, l))) in
          split ∙ rw (front, h n (omega arith)) refl),
    )

-- collect_node_sigs returns a list exactly when every peer below the number has contributed, and the
-- list that it returns is exactly that of the peers' signatures in the order of their indices,
-- less the sentinels.
pub collected_iff :
    (sigs : Dict ℕ Bytes) (num_peers : ℕ)
    → ((l : List Bytes) → (collect_node_sigs sigs num_peers ≡ some l) ↔ SentBelow sigs num_peers l)
      × ((collect_node_sigs sigs num_peers ≢ none) ↔ ((i : ℕ) → i < num_peers → has i sigs ≡ true))
collected_iff sigs num_peers =
    let iff = any_missing sigs num_peers in
    (
      collected_list sigs num_peers,
      (
        λ h. elim (Bool-cases (any (unsent sigs) (range num_peers))) [
          | inl t ↦ absurd (h (collect_none sigs num_peers t))
          | inr f ↦ iff.0 f
        ],
        λ h e. (let p = collect_some sigs num_peers (iff.1 h) in cc),
      ),
    )

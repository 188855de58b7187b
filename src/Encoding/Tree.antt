-- ===== src/Encoding/Tree.antt =====
-- src/dv_spec/encoding/ssz.py: merkleize against a recursive definition of the tree.
use distributed_validator_sp.Base.{
  ℕ, zero, suc, ◌+◌, ◌%◌, ◌≤◌, ◌≡◌, refl, sym, ap, ap₂, ◌∙◌, Option, none, some, List, [], ◌∷◌,
  ◌++◌, ◌==◌, nat_eq, ==-eq, ==-ne, if◌then◌else◌, le→ltb, length, length-append, get_elem?, ok,
  Bool-cases, inl, inr, arith,
}
use distributed_validator_sp.Types.{Bytes}
use distributed_validator_sp.Crypto.{Crypto}
use distributed_validator_sp.Encoding.Ssz.{
  zero_chunk, chunk_count_depth, first_chunk, zero_hash, hash_pairs, next_layer, layers,
  merkleize_sized, merkleize,
}

-- 2 * i
abbrev pub double : ℕ → ℕ
double zero = 0
double (suc i) = suc (suc (double i))

abbrev or_chunk : Bytes → Option Bytes → Bytes
or_chunk chunk none = chunk
or_chunk chunk (some c) = c

module _ (c : Crypto) where
  -- The node at position `i` of the height given, over the leaves.
  abbrev pub node : (ℕ → Bytes) → ℕ → ℕ → Bytes
  node leaf zero i = leaf i
  node leaf (suc height) i =
      c.sha256 (node leaf height (double i) ++ node leaf height (suc (double i)))

  -- The chunks, and zeros behind them.
  abbrev pub leaves : List Bytes → ℕ → Bytes
  leaves chunks i = or_chunk zero_chunk (get_elem? chunks i)

  -- The same on a layer: the zero hash of its level behind it.
  abbrev layer_at : ℕ → List Bytes → ℕ → Bytes
  layer_at level layer i = or_chunk (zero_hash c level) (get_elem? layer i)

  -- A tree may be hashed from the bottom.
  node-below :
      (leaf : ℕ → Bytes) (height i : ℕ)
      → node (λ j. c.sha256 (leaf (double j) ++ leaf (suc (double j)))) height i
        ≡ node leaf (suc height) i
  node-below leaf zero i = refl
  node-below leaf (suc height) i =
      ap₂ (λ a b. c.sha256 (a ++ b)) (node-below leaf height (double i))
        (node-below leaf height (suc (double i)))

  node-ext :
      (f g : ℕ → Bytes) (height i : ℕ) → ((j : ℕ) → f j ≡ g j) → node f height i ≡ node g height i
  node-ext f g zero i h = h i
  node-ext f g (suc height) i h =
      ap₂ (λ a b. c.sha256 (a ++ b)) (node-ext f g height (double i) h)
        (node-ext f g height (suc (double i)) h)

  hash_pairs-at :
      (level : ℕ) (layer : List Bytes) (i : ℕ)
      → length layer % 2 ≡ 0
      → layer_at (suc level) (hash_pairs c layer) i
        ≡ c.sha256 (layer_at level layer (double i) ++ layer_at level layer (suc (double i)))
  unfolding hash_pairs zero_hash
  hash_pairs-at level [] i h = refl
  hash_pairs-at level (a ∷ []) i h = absurd (omega arith)
  hash_pairs-at level (a ∷ b ∷ layer) zero h = refl
  hash_pairs-at level (a ∷ b ∷ layer) (suc i) h = hash_pairs-at level layer i (omega arith)

  layer_at-padded :
      (level : ℕ) (layer : List Bytes) (i : ℕ)
      → layer_at level (layer ++ zero_hash c level ∷ []) i ≡ layer_at level layer i
  layer_at-padded level [] zero = refl
  layer_at-padded level [] (suc i) = refl
  layer_at-padded level (a ∷ layer) zero = refl
  layer_at-padded level (a ∷ layer) (suc i) = layer_at-padded level layer i

  next_layer-at :
      (level : ℕ) (layer : List Bytes) (i : ℕ)
      → layer_at (suc level) (next_layer c level layer) i
        ≡ c.sha256 (layer_at level layer (double i) ++ layer_at level layer (suc (double i)))
  unfolding next_layer
  next_layer-at level layer i = elim (Bool-cases (length layer % 2 == 0)) [
    | inl t ↦ rw t (hash_pairs-at level layer i (==-eq (length layer % 2) 0 t))
    | inr f ↦ rw f (
        hash_pairs-at level (layer ++ zero_hash c level ∷ []) i
          (rw length-append (ground (arith, f)))
        ∙ rw (layer_at-padded level layer (double i), layer_at-padded level layer (suc (double i)))
            refl)
  ]

  layers-at :
      (rounds level : ℕ) (layer : List Bytes)
      → layer_at (level + rounds) (layers c rounds level layer) 0
        ≡ node (layer_at level layer) rounds 0
  unfolding layers
  layers-at zero level layer = ap (λ n. layer_at n layer 0) (omega arith)
  layers-at (suc rounds) level layer =
      ap (λ n. layer_at n (layers c rounds (suc level) (next_layer c level layer)) 0) (omega arith)
      ∙ layers-at rounds (suc level) (next_layer c level layer)
      ∙ node-ext _ _ rounds 0 (next_layer-at level layer)
      ∙ node-below (layer_at level layer) rounds 0

  hash_pairs_positive : (l : List Bytes) → 2 ≤ length l → 1 ≤ length (hash_pairs c l)
  unfolding hash_pairs
  hash_pairs_positive [] h = absurd (omega arith)
  hash_pairs_positive (a ∷ []) h = absurd (omega arith)
  hash_pairs_positive (a ∷ b ∷ l) h = omega arith

  next_layer_positive :
      (level : ℕ) (l : List Bytes) → 1 ≤ length l → 1 ≤ length (next_layer c level l)
  unfolding next_layer
  next_layer_positive level l h = elim (Bool-cases (length l % 2 == 0)) [
    | inl t ↦ rw t (hash_pairs_positive l (ground arith))
    | inr f ↦
        rw f (hash_pairs_positive (l ++ zero_hash c level ∷ []) (rw length-append (omega arith)))
  ]

  layers_positive :
      (rounds level : ℕ) (l : List Bytes) → 1 ≤ length l → 1 ≤ length (layers c rounds level l)
  unfolding layers
  layers_positive zero level l h = h
  layers_positive (suc rounds) level l h =
      layers_positive rounds (suc level) (next_layer c level l) (next_layer_positive level l h)

  first_chunk-at : (level : ℕ) (l : List Bytes) → 1 ≤ length l → first_chunk l ≡ layer_at level l 0
  first_chunk-at level [] h = absurd (omega arith)
  first_chunk-at level (a ∷ l) h = refl

  node_zero : (height i : ℕ) → node (leaves []) height i ≡ zero_hash c height
  unfolding zero_hash
  node_zero zero i = refl
  node_zero (suc height) i =
      ap₂ (λ a b. c.sha256 (a ++ b)) (node_zero height (double i))
        (node_zero height (suc (double i)))

  layers_tree :
      (depth : ℕ) (chunks : List Bytes)
      → 1 ≤ length chunks
      → first_chunk (layers c depth 0 chunks) ≡ node (leaves chunks) depth 0
  unfolding zero_hash
  layers_tree depth chunks h =
      first_chunk-at (0 + depth) (layers c depth 0 chunks) (layers_positive depth 0 chunks h)
      ∙ layers-at depth 0 chunks

  small_tree :
      (chunks : List Bytes)
      → length chunks ≤ 1
      → (if length chunks == 1 then first_chunk chunks else zero_chunk) ≡ leaves chunks 0
  small_tree [] h = refl
  small_tree (a ∷ []) h = refl
  small_tree (a ∷ b ∷ chunks) h = absurd (omega arith)

  empty_tree :
      (depth : ℕ) (chunks : List Bytes)
      → length chunks ≡ 0
      → zero_hash c depth ≡ node (leaves chunks) depth 0
  empty_tree depth [] h = sym (node_zero depth 0)
  empty_tree depth (a ∷ chunks) h = absurd (omega arith)

  sized_tree :
      (chunks : List Bytes) (limit : ℕ)
      → length chunks ≤ limit
      → merkleize_sized c chunks limit ≡ node (leaves chunks) (chunk_count_depth limit) 0
  unfolding merkleize_sized
  sized_tree chunks limit h = elim (Bool-cases (limit == 0)) [
    | inl t ↦
        let e = ==-eq limit 0 t in
        let none_left : length chunks ≡ 0 = omega (arith, h, e) in
        rw e (empty_tree 0 chunks none_left)
    | inr f ↦ elim (Bool-cases (limit == 1)) [
      | inl t ↦ let e = ==-eq limit 1 t in rw e (small_tree chunks (omega (arith, h, e)))
      | inr g ↦ elim (Bool-cases (length chunks == 0)) [
        | inl t ↦
            rw (f, g, t) (empty_tree (chunk_count_depth limit) chunks (==-eq (length chunks) 0 t))
        | inr k ↦ rw (f, g, k) (layers_tree (chunk_count_depth limit) chunks (ground (arith, k)))
      ]
    ]
  ]

  merkleize_fits :
      (chunks : List Bytes) (limit : ℕ)
      → 1 ≤ limit
      → length chunks ≤ limit
      → merkleize c chunks limit ≡ ok (merkleize_sized c chunks limit)
  unfolding merkleize
  merkleize_fits chunks limit p h =
      rw (==-ne limit 0 (λ e. absurd (omega (arith, p, e))), le→ltb limit (length chunks) h) refl

  -- The root of chunks that fit a limit is the root of the perfect binary tree of the limit's depth
  -- over the chunks with zero chunks behind them; and without a limit, of the depth of their number.
  pub merkleize_tree :
      (chunks : List Bytes)
      → ((limit : ℕ)
          → 1 ≤ limit
          → length chunks ≤ limit
          → merkleize c chunks limit ≡ ok (node (leaves chunks) (chunk_count_depth limit) 0))
        × (merkleize c chunks 0 ≡ ok (node (leaves chunks) (chunk_count_depth (length chunks)) 0))
  unfolding merkleize
  merkleize_tree chunks = (
    λ limit p h. merkleize_fits chunks limit p h ∙ ap ok (sized_tree chunks limit h),
    ap ok (sized_tree chunks (length chunks) (omega arith)),
  )

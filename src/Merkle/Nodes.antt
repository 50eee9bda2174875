-- ===== src/Merkle/Nodes.antt =====
-- src/merkle.rs, what the nodes of a tree hash: leaves are hashes of 40 bytes, inner nodes of 64 bytes.
use keeper_bot.Base.{
  ℕ, zero, suc, ◌<◌, ◌^◌, ◌≡◌, refl, sym, ◌∙◌, ap, ◌≢◌, ◌⊎◌, inl, inr, Bool-cases, some, List, [],
  ◌∷◌, ◌++◌, map, Bytes, bytes_le, All, length, get_elem?, take, drop, take-append, drop-append,
  length-append, length-to_le_bytes, to_le_bytes, from_le_bytes, from_le_bytes-to_le_bytes,
  if◌then◌else◌, ◌==◌, Option-cases, arith,
}
use mathlib.Core.Path.{subst}
use keeper_bot.Merkle.{
  Hash, Entry, MerkleTree, get_last?, hash_leaf, hash_pair, next_level, build_levels, tree_of,
  leaf_of, build_merkle_tree,
}

append_inj :
    (n : ℕ) (a b c d : Bytes) → length a ≡ n → length b ≡ n → a ++ c ≡ b ++ d → (a ≡ b) × (c ≡ d)
append_inj n a b c d la lb e = (
  sym (take-append a c n la) ∙ ap (take n) e ∙ take-append b d n lb,
  sym (drop-append a c n la) ∙ ap (drop n) e ∙ drop-append b d n lb,
)

module _ (keccak256 : Bytes → Bytes) where
  -- Two inputs with one digest.
  pub record Collision : Type 0 where
    pub left : Bytes
    pub right : Bytes
    pub differ : left ≢ right
    pub same : keccak256 left ≡ keccak256 right

-- The bytes that `hash_leaf` and `hash_pair` feed to the hash.
abbrev pub leaf_input : Bytes → ℕ → Bytes
leaf_input pk pts = pk ++ to_le_bytes 8 pts

abbrev pub pair_input : Hash → Hash → Bytes
pair_input a b = if bytes_le a b then a ++ b else b ++ a

pub length-leaf_input : (pk : Bytes) (pts : ℕ) → length pk ≡ 32 → length (leaf_input pk pts) ≡ 40
length-leaf_input pk pts h =
    omega (arith, length-append pk (to_le_bytes 8 pts), length-to_le_bytes 8 pts)

pub length-pair_input : (a b : Hash) → length a ≡ 32 → length b ≡ 32 → length (pair_input a b) ≡ 64
length-pair_input a b la lb = ground (arith, length-append a b, length-append b a)

-- Equal leaf inputs stand for the same authority and amount.
pub leaf_input_inj :
    (pk pk' : Bytes) (pts pts' : ℕ)
    → length pk ≡ 32
    → length pk' ≡ 32
    → pts < 256 ^ 8
    → pts' < 256 ^ 8
    → leaf_input pk pts ≡ leaf_input pk' pts'
    → (pk ≡ pk') × (pts ≡ pts')
leaf_input_inj pk pk' pts pts' l l' b b' e =
    let (same_pk, same_tail) = append_inj 32 pk pk' _ _ l l' e in
    (
      same_pk,
      sym (from_le_bytes-to_le_bytes 8 pts b)
          ∙ ap from_le_bytes same_tail
          ∙ from_le_bytes-to_le_bytes 8 pts' b',
    )

-- Equal pair inputs hold the same two nodes, in one of the two orders.
pub pair_input_inj :
    (a b x y : Hash)
    → length a ≡ 32
    → length b ≡ 32
    → length x ≡ 32
    → length y ≡ 32
    → pair_input a b ≡ pair_input x y
    → (a ≡ x) ⊎ (a ≡ y)
pair_input_inj a b x y la lb lx ly e = ground (
  arith,
  append_inj 32 a x b y la lx,
  append_inj 32 a y b x la ly,
  append_inj 32 b x a y lb lx,
  append_inj 32 b y a x lb ly,
)

get_last?-cons :
    (level : List Hash) (above : List (List Hash)) {top : List Hash}
    → get_last? (level ∷ above) ≡ some top
    → (level ≡ top) ⊎ (get_last? above ≡ some top)
get_last?-cons level [] e = inl (ground arith)
get_last?-cons level (l ∷ ls) e = inr e

module _ (keccak256 : Bytes → Bytes) (entries : List Entry) where
  -- A hash that stands for entries: the leaf of one, or the parent of two such hashes.
  pub data IsNode : Hash → Type 0 where
    leaf :
        {h : Hash} (i : ℕ) (pk : Bytes) (pts : ℕ)
        → get_elem? entries i ≡ some (pk, pts)
        → h ≡ hash_leaf keccak256 pk pts
        → IsNode h
    inner : {h : Hash} (x y : Hash) → IsNode x → IsNode y → h ≡ hash_pair keccak256 x y → IsNode h

  leaves-IsNode :
      (es : List Entry)
      → ((i : ℕ) (pk : Bytes) (pts : ℕ)
          → get_elem? es i ≡ some (pk, pts)
          → (j : ℕ) × (get_elem? entries j ≡ some (pk, pts)))
      → All IsNode (map (leaf_of keccak256) es)
  leaves-IsNode [] among = tt
  leaves-IsNode ((pk, pts) ∷ es) among =
      let (j, at) = among 0 pk pts refl in
      (leaf j pk pts at refl, leaves-IsNode es (λ i. among (suc i)))

  next_level-IsNode :
      (level : List Hash) → All IsNode level → All IsNode (next_level keccak256 level)
  unfolding next_level
  next_level-IsNode [] h = tt
  next_level-IsNode (x ∷ []) h = h
  next_level-IsNode (x ∷ y ∷ rest) (hx, (hy, h)) = (inner x y hx hy refl, next_level-IsNode rest h)

  top-IsNode :
      (fuel : ℕ) (level : List Hash) (levels : List (List Hash)) (root : Hash) (rest : List Hash)
      → All IsNode level
      → build_levels keccak256 fuel level ≡ some levels
      → get_last? levels ≡ some (root ∷ rest)
      → IsNode root
  unfolding build_levels
  top-IsNode zero level levels root rest h built top = cc
  top-IsNode (suc fuel) level levels root rest h built top = elim (Bool-cases (length level == 1)) [
    | inl single ↦
        let e : level ≡ root ∷ rest = ground arith in
        let h' : All IsNode (root ∷ rest) = subst (All IsNode) e h in h'.0
    | inr several ↦ elim (Option-cases (build_levels keccak256 fuel (next_level keccak256 level))) [
      | inl stuck ↦ ground arith
      | inr (above, e) ↦
          let e' : level ∷ above ≡ levels = ground arith in
          elim (get_last?-cons level above (ap get_last? e' ∙ top)) [
            | inl here ↦ let h' : All IsNode (root ∷ rest) = subst (All IsNode) here h in h'.0
            | inr further ↦
                top-IsNode fuel (next_level keccak256 level) above root rest
                  (next_level-IsNode level h) e further
          ]
    ]
  ]

  tree_of-root :
      (levels : List (List Hash)) (tree : MerkleTree)
      → tree_of keccak256 entries levels ≡ some tree
      → (rest : List Hash) × (get_last? levels ≡ some (tree.root ∷ rest))
  unfolding tree_of
  tree_of-root levels tree e = elim (Option-cases (get_last? levels)) [
    | inl empty ↦ ground arith
    | inr (top, e') ↦ by_top top e'
  ]
    where
      by_top :
          (top : List Hash)
          → get_last? levels ≡ some top
          → (rest : List Hash) × (get_last? levels ≡ some (tree.root ∷ rest))
      by_top [] e' = ground arith
      by_top (root ∷ rest) e' = (rest, ground arith)

-- The root of a tree stands for its entries.
pub root-IsNode :
    (keccak256 : Bytes → Bytes) (entries : List Entry) (tree : MerkleTree)
    → build_merkle_tree keccak256 entries ≡ some tree
    → IsNode keccak256 entries tree.root
unfolding build_merkle_tree
root-IsNode keccak256 [] tree built = cc
root-IsNode keccak256 ((pk, pts) ∷ []) tree built = leaf 0 pk pts refl (ground arith)
root-IsNode keccak256 (e ∷ e' ∷ es) tree built =
    let entries = e ∷ e' ∷ es in
    let leaves = map (leaf_of keccak256) entries in
    elim (Option-cases (build_levels keccak256 (length leaves) leaves)) [
      | inl stuck ↦ ground arith
      | inr (levels, found) ↦
          let (rest, top) = tree_of-root keccak256 entries levels tree (ground arith) in
          top-IsNode keccak256 entries (length leaves) leaves levels tree.root rest
            (leaves-IsNode keccak256 entries entries (λ i pk pts at. (i, at))) found top
    ]

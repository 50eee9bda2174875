-- ===== src/Merkle/Soundness.antt =====
-- src/merkle.rs: which leaves verify against the root of a tree.
use keeper_bot.Base.{
  ℕ, zero, suc, ◌<◌, ◌^◌, ◌≡◌, refl, sym, ◌∙◌, ap, ◌⊎◌, inl, inr, Bool-cases, true, some, List, [],
  ◌∷◌, ◌++◌, foldl, Bytes, bytes_eq, bytes_eq_iff, All, length, get_elem?, arith,
}
use mathlib.Core.Path.{subst}
use keeper_bot.Merkle.{
  Hash, Entry, MerkleTree, hash_leaf, hash_pair, build_merkle_tree, verify_proof,
}
use keeper_bot.Merkle.Nodes.{
  Collision, leaf_input, pair_input, length-leaf_input, length-pair_input, leaf_input_inj,
  pair_input_inj, IsNode, leaf, inner, root-IsNode,
}

-- An entry as the types of the source bound it: a key of 32 bytes and a `u64`.
abbrev pub IsEntry : Entry → Type 0
IsEntry (pk, pts) = (length pk ≡ 32) × (pts < 256 ^ 8)

abbrev pub IsHash : Hash → Type 0
IsHash h = length h ≡ 32

IsEntry-at :
    (es : List Entry) (i : ℕ) {e : Entry} → All IsEntry es → get_elem? es i ≡ some e → IsEntry e
IsEntry-at [] i typed at = cc
IsEntry-at (e ∷ es) zero typed at = ground arith
IsEntry-at (e ∷ es) (suc i) typed at = IsEntry-at es i typed.1 at

module _ (keccak256 : Bytes → Bytes) (digest : (x : Bytes) → length (keccak256 x) ≡ 32) where
  hash_pair-IsHash : (a b : Hash) → IsHash (hash_pair keccak256 a b)
  unfolding hash_pair
  hash_pair-IsHash a b = ground (arith, digest (a ++ b), digest (b ++ a))

  hash_pair-input : (a b : Hash) → hash_pair keccak256 a b ≡ keccak256 (pair_input a b)
  unfolding hash_pair
  hash_pair-input a b = ground arith

  -- Equal digests have equal inputs, or are a collision.
  same_input : (x y : Bytes) → keccak256 x ≡ keccak256 y → (x ≡ y) ⊎ Collision keccak256
  same_input x y e = elim (Bool-cases (bytes_eq x y)) [
    | inl yes_eq ↦ inl ((bytes_eq_iff x y).0 yes_eq)
    | inr no_eq ↦
        inr
          (record { left = x; right = y; differ = λ p. ground (arith, bytes_eq_iff x y); same = e })
  ]

  module _ (entries : List Entry) (typed : All IsEntry entries) where
    IsNode-IsHash : (h : Hash) → IsNode keccak256 entries h → IsHash h
    unfolding hash_leaf
    IsNode-IsHash h (leaf i pk pts at e) = rw e (digest (leaf_input pk pts))
    IsNode-IsHash h (inner x y nx ny e) = rw e (hash_pair-IsHash x y)

    -- A child of a node is a node: the input of a leaf is shorter than that of a pair.
    hash_pair-IsNode :
        (a b h : Hash)
        → IsHash a
        → IsHash b
        → h ≡ hash_pair keccak256 a b
        → IsNode keccak256 entries h
        → IsNode keccak256 entries a ⊎ Collision keccak256
    unfolding hash_leaf
    hash_pair-IsNode a b h la lb same (leaf i pk pts at e) =
        let (l, _) = IsEntry-at entries i typed at in
        elim (same_input (leaf_input pk pts) (pair_input a b)
          (sym e ∙ same ∙ hash_pair-input a b)) [
            | inl equal ↦ absurd (
                omega
                  (arith, ap length equal, length-leaf_input pk pts l, length-pair_input a b la lb))
            | inr c ↦ inr c
          ]
    hash_pair-IsNode a b h la lb same (inner x y nx ny e) =
        elim (same_input (pair_input a b) (pair_input x y)
          (sym (hash_pair-input a b) ∙ sym same ∙ e ∙ hash_pair-input x y)) [
            | inl equal ↦
                elim (pair_input_inj a b x y la lb (IsNode-IsHash x nx) (IsNode-IsHash y ny)
                  equal) [ inl ax ↦ inl (rw ax nx) | inr ay ↦ inl (rw ay ny) ]
            | inr c ↦ inr c
          ]

    foldl-IsNode :
        (proof : List Hash) (current : Hash)
        → All IsHash proof
        → IsHash current
        → IsNode keccak256 entries (foldl (hash_pair keccak256) current proof)
        → IsNode keccak256 entries current ⊎ Collision keccak256
    foldl-IsNode [] current hashes l node = inl node
    foldl-IsNode (e ∷ proof) current (le, hashes) l node =
        elim (foldl-IsNode proof (hash_pair keccak256 current e) hashes (hash_pair-IsHash current e)
          node) [ inl up ↦ hash_pair-IsNode current e _ l le refl up | inr c ↦ inr c ]

    leaf-IsNode :
        (pk : Bytes) (pts : ℕ) (h : Hash)
        → IsEntry (pk, pts)
        → h ≡ hash_leaf keccak256 pk pts
        → IsNode keccak256 entries h
        → ((i : ℕ) × (get_elem? entries i ≡ some (pk, pts))) ⊎ Collision keccak256
    unfolding hash_leaf
    leaf-IsNode pk pts h (l, b) same (leaf i pk' pts' at e) =
        let (l', b') = IsEntry-at entries i typed at in
        elim (same_input (leaf_input pk' pts') (leaf_input pk pts) (sym e ∙ same)) [
          | inl equal ↦
              let (same_pk, same_pts) = leaf_input_inj pk' pk pts' pts l' l b' b equal in
              inl (i, ground (arith, same_pk, same_pts))
          | inr c ↦ inr c
        ]
    leaf-IsNode pk pts h (l, b) same (inner x y nx ny e) =
        elim (same_input (leaf_input pk pts) (pair_input x y)
          (sym same ∙ e ∙ hash_pair-input x y)) [
            | inl equal ↦ absurd (
                omega (
                  arith,
                  ap length equal,
                  length-leaf_input pk pts l,
                  length-pair_input x y (IsNode-IsHash x nx) (IsNode-IsHash y ny),
                ))
            | inr c ↦ inr c
          ]

-- If the digests have 32 bytes and a proof of such hashes is accepted for an authority and an
-- amount against the root of a tree, then the pair is one of the entries the tree was built from,
-- or two inputs with one digest are found.
pub verify_proof_sound :
    (keccak256 : Bytes → Bytes) (entries : List Entry) (tree : MerkleTree) (pk : Bytes) (pts : ℕ)
    (proof : List Hash)
    → ((x : Bytes) → length (keccak256 x) ≡ 32)
    → All IsEntry entries
    → IsEntry (pk, pts)
    → All IsHash proof
    → build_merkle_tree keccak256 entries ≡ some tree
    → verify_proof keccak256 (hash_leaf keccak256 pk pts) proof tree.root ≡ true
    → ((i : ℕ) × (get_elem? entries i ≡ some (pk, pts))) ⊎ Collision keccak256
unfolding verify_proof hash_leaf
verify_proof_sound keccak256 entries tree pk pts proof digest typed entry hashes built accepted =
    let h = hash_leaf keccak256 pk pts in
    let reached = (bytes_eq_iff (foldl (hash_pair keccak256) h proof) tree.root).0 accepted in
    let node =
      subst (IsNode keccak256 entries) (sym reached) (root-IsNode keccak256 entries tree built) in
    elim (foldl-IsNode keccak256 digest entries typed proof h hashes (digest (leaf_input pk pts))
      node) [
        | inl leaf_node ↦ leaf-IsNode keccak256 digest entries typed pk pts h entry refl leaf_node
        | inr c ↦ inr c
      ]

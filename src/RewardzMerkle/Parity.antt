-- ===== src/RewardzMerkle/Parity.antt =====
-- src/rewardz_merkle.rs beside src/merkle.rs.
use mathlib.Core.Option
use keeper_bot.Base.{
  ℕ, zero, suc, ◌+◌, ◌/◌, ◌≡◌, refl, ◌∙◌, ap, false, Option, none, some, List, [], ◌∷◌, map, Bytes,
  ok, length, arith, ◌⊎◌, inl, inr,
}
use keeper_bot.Base.Maps.{HashMap, insert}
use keeper_bot.Merkle
use keeper_bot.Merkle.{Hash, Entry, MerkleTree, get_last?, drop_last, sibling_idx}
use keeper_bot.Merkle.Proofs.{build_merkle_tree-some}
use keeper_bot.RewardzMerkle.{
  RewardzMerkleTree, proof_at, insert_proofs, hash_rewardz_leaf, next_level, build_levels, leaf_of,
  tree_of, tree_from, build_unchecked, build_rewardz_tree,
}

proof_at-eq :
    (levels : List (List Hash)) (idx : ℕ) → proof_at levels idx ≡ Merkle.proof_at levels idx
unfolding proof_at Merkle.proof_at
proof_at-eq [] idx = refl
proof_at-eq (level ∷ levels) idx = ground (arith, proof_at-eq levels (idx / 2))

insert_proofs-eq :
    (levels : List (List Hash)) (entries : List Entry) (i : ℕ) (m : HashMap (List Hash))
    → insert_proofs levels entries i m ≡ Merkle.insert_proofs levels entries i m
unfolding insert_proofs Merkle.insert_proofs
insert_proofs-eq levels [] i m = refl
insert_proofs-eq levels ((pk, _) ∷ es) i m =
    insert_proofs-eq levels es (i + 1) _
    ∙ ap (λ p. Merkle.insert_proofs levels es (i + 1) (insert pk p m)) (proof_at-eq levels i)

-- The same tree under the type of the rewardz rail.
abbrev pub as_rewardz : MerkleTree → RewardzMerkleTree
as_rewardz t = record { root = t.root; proofs = t.proofs }

module _ (keccak256 : Bytes → Bytes) where
  next_level-eq :
      (level : List Hash) → next_level keccak256 level ≡ Merkle.next_level keccak256 level
  unfolding next_level Merkle.next_level
  next_level-eq [] = refl
  next_level-eq (x ∷ []) = refl
  next_level-eq (x ∷ y ∷ rest) = ap (◌∷◌ (Merkle.hash_pair keccak256 x y)) (next_level-eq rest)

  build_levels-eq :
      (fuel : ℕ) (level : List Hash)
      → build_levels keccak256 fuel level ≡ Merkle.build_levels keccak256 fuel level
  unfolding build_levels Merkle.build_levels
  build_levels-eq zero level = refl
  build_levels-eq (suc fuel) level =
      rw (next_level-eq level, build_levels-eq fuel (Merkle.next_level keccak256 level)) refl

  tree_of-eq :
      (entries : List Entry) (levels : List (List Hash)) (t : MerkleTree)
      → Merkle.tree_of keccak256 entries levels ≡ some t
      → tree_of keccak256 entries levels ≡ ok (as_rewardz t)
  unfolding tree_of Merkle.tree_of
  tree_of-eq entries levels t e =
      ground (arith, e, insert_proofs-eq (drop_last levels) entries 0 [])

  tree_from-eq :
      (entries : List Entry) (levels : Option (List (List Hash))) (t : MerkleTree)
      → Option.bind levels (Merkle.tree_of keccak256 entries) ≡ some t
      → tree_from keccak256 entries levels ≡ ok (some (as_rewardz t))
  unfolding Option.bind
  tree_from-eq entries none t e = absurd (ground (arith, e))
  tree_from-eq entries (some levels) t e = rw (tree_of-eq entries levels t e) refl

  build_unchecked-eq :
      (entries : List Entry) (t : MerkleTree)
      → Merkle.build_merkle_tree keccak256 entries ≡ some t
      → build_unchecked keccak256 entries ≡ ok (some (as_rewardz t))
  unfolding build_unchecked Merkle.build_merkle_tree hash_rewardz_leaf
  build_unchecked-eq [] t e = absurd (ground (arith, e))
  build_unchecked-eq ((pk, amount) ∷ []) t e = ground (arith, e)
  build_unchecked-eq (e ∷ e' ∷ es) t built =
      let leaves = map (leaf_of keccak256) (e ∷ e' ∷ es) in
      tree_from-eq (e ∷ e' ∷ es) (build_levels keccak256 (length leaves) leaves) t (
        ap (λ levels. Option.bind levels (Merkle.tree_of keccak256 (e ∷ e' ∷ es)))
          (build_levels-eq (length leaves) leaves)
        ∙ built)

  pub build_rewardz_tree-built :
      (entries : List Entry) (t : MerkleTree)
      → Merkle.build_merkle_tree keccak256 entries ≡ some t
      → build_rewardz_tree keccak256 false entries ≡ ok (some (as_rewardz t))
  unfolding build_rewardz_tree Merkle.build_merkle_tree
  build_rewardz_tree-built [] t built = absurd (ground (arith, built))
  build_rewardz_tree-built (e ∷ es) t built = build_unchecked-eq (e ∷ es) t built

  -- In a release build no call panics: from no entries there is no tree, and from any others the
  -- call returns a tree, which is the points tree of the same entries.
  pub build_rewardz_tree_release :
      (entries : List Entry)
      → ((entries ≡ [])
          × (build_rewardz_tree keccak256 false entries ≡ ok none)
          × (Merkle.build_merkle_tree keccak256 entries ≡ none))
        ⊎ ((t : MerkleTree) × (Merkle.build_merkle_tree keccak256 entries ≡ some t)
            × (build_rewardz_tree keccak256 false entries ≡ ok (some (as_rewardz t))))
  unfolding build_rewardz_tree Merkle.build_merkle_tree
  build_rewardz_tree_release [] = inl (refl, refl, refl)
  build_rewardz_tree_release (e ∷ es) =
      let (t, built) = build_merkle_tree-some keccak256 e es in
      inr (t, built, build_rewardz_tree-built (e ∷ es) t built)

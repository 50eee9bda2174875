-- ===== src/Merkle/Levels.antt =====
-- src/merkle.rs: the levels of a tree and the loop that builds them.
use keeper_bot.Base.{
  ℕ, zero, suc, ◌+◌, ◌/◌, ◌≤◌, ◌<◌, ◌≡◌, inl, inr, Bool-cases, Option, none, some, List, [], ◌∷◌,
  Bytes, length, get_elem?, ◌==◌, arith,
}
use keeper_bot.Merkle.{Hash, sibling_idx, hash_pair, next_level, build_levels}
use keeper_bot.Merkle.Order.{hash_pair_comm}

module _ (keccak256 : Bytes → Bytes) where
  -- A level has half as many nodes as the one below, rounded up.
  pub length-next_level :
      (level : List Hash) → length (next_level keccak256 level) ≡ (length level + 1) / 2
  unfolding next_level
  length-next_level [] = omega arith
  length-next_level (x ∷ []) = omega arith
  length-next_level (x ∷ y ∷ rest) = omega (arith, length-next_level rest)

  -- The parent of the node at `i`: its hash with its sibling, or itself without one.
  abbrev pub parent : Hash → Option Hash → Hash
  parent h none = h
  parent h (some s) = hash_pair keccak256 h s

  pub get_elem?-next_level :
      (level : List Hash) (i : ℕ) (h : Hash)
      → get_elem? level i ≡ some h
      → get_elem? (next_level keccak256 level) (i / 2)
        ≡ some (parent h (get_elem? level (sibling_idx i)))
  unfolding next_level
  get_elem?-next_level [] i h e = cc
  get_elem?-next_level (x ∷ []) zero h e = e
  get_elem?-next_level (x ∷ []) (suc i) h e = cc
  get_elem?-next_level (x ∷ y ∷ rest) zero h e = cc
  get_elem?-next_level (x ∷ y ∷ rest) (suc zero) h e = cc (hash_pair_comm keccak256 x y)
  get_elem?-next_level (x ∷ y ∷ rest) (suc (suc i)) h e =
      let half : suc (suc i) / 2 ≡ suc (i / 2) = omega arith in
      let next : sibling_idx (suc (suc i)) ≡ suc (suc (sibling_idx i)) = ground arith in
      rw (half, next) (get_elem?-next_level rest i h e)

  -- With one round of fuel for each node, the loop of `build_merkle_tree` ends.
  pub build_levels_total :
      (fuel : ℕ) (level : List Hash)
      → 0 < length level
      → length level ≤ fuel
      → (levels : List (List Hash)) × (build_levels keccak256 fuel level ≡ some levels)
  unfolding build_levels
  build_levels_total zero level pos fits = absurd (omega arith)
  build_levels_total (suc fuel) level pos fits = elim (Bool-cases (length level == 1)) [
    | inl single ↦ (level ∷ [], rw single)
    | inr several ↦
        let smaller = length-next_level level in
        let (levels, e) =
          build_levels_total fuel (next_level keccak256 level) (ground arith) (ground arith) in
        (level ∷ levels, rw (several, e))
  ]

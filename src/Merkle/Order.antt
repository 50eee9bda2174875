-- ===== src/Merkle/Order.antt =====
-- src/merkle.rs: the order of the arguments of `hash_pair`.
use keeper_bot.Base.{
  ◌≡◌, refl, inl, inr, Bool-cases, Bytes, bytes_le, bytes_le_total, bytes_le_antisymm, arith,
}
use keeper_bot.Merkle.{Hash, hash_pair}

module _ (keccak256 : Bytes → Bytes) where
  -- Hashing two nodes gives the same parent in both orders.
  pub hash_pair_comm : (a b : Hash) → hash_pair keccak256 a b ≡ hash_pair keccak256 b a
  unfolding hash_pair
  hash_pair_comm a b = elim (Bool-cases (bytes_le a b)) [
    | inl ab ↦ elim (Bool-cases (bytes_le b a)) [
      | inl ba ↦ rw (bytes_le_antisymm a b ab ba) refl
      | inr ba ↦ rw (ab, ba) refl
    ]
    | inr ab ↦ elim (bytes_le_total a b) [ inl wrong ↦ ground arith | inr ba ↦ rw (ab, ba) refl ]
  ]

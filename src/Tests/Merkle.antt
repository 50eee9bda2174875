-- ===== src/Tests/Merkle.antt =====
-- The theorems on the trees at small inputs.
use keeper_bot.Base.{
  none, ◌⊎◌, ℕ, ◌≡◌, refl, ◌≢◌, ◌⊎◌, true, false, some, List, [], ◌∷◌, Bytes, get_elem?, All,
  to_le_bytes, from_le_bytes, String, ok, err, bytes_eq, bytes_le, arith, length-to_le_bytes,
}
use mathlib.Core.Option
use keeper_bot.Merkle.{
  MerkleTree, build_merkle_tree, verify_proof, hash_leaf, hash_pair, build_levels, tree_of,
  next_level, insert_proofs, proof_at,
}
use keeper_bot.Base.Maps.{insert}
use keeper_bot.Merkle.Levels.{build_levels_total}
use keeper_bot.Merkle.Nodes.{Collision}
use keeper_bot.Merkle.Proofs.{DistinctKeys, Provable, build_merkle_tree-Provable}
use keeper_bot.Merkle.Soundness.{IsEntry, IsHash, verify_proof_sound}
use keeper_bot.RewardzMerkle.{build_rewardz_tree}
use keeper_bot.RewardzMerkle.Parity.{as_rewardz, build_rewardz_tree_release}
use keeper_bot.RewardzMerkle.Guards.{Ascending, build_rewardz_tree_debug}
use keeper_bot.Tests.Samples.{toy_digest, length-toy_digest, alice, bob, two_entries}

alice_not_bob : alice ≢ bob
unfolding to_le_bytes
alice_not_bob e = absurd (ground arith)

pub two_entries-DistinctKeys : DistinctKeys two_entries
two_entries-DistinctKeys = ((alice_not_bob, tt), (tt, tt))

build_merkle_tree-Provable_example : Provable toy_digest two_entries bob 7
build_merkle_tree-Provable_example =
    build_merkle_tree-Provable toy_digest two_entries 1 bob 7 two_entries-DistinctKeys refl

abbrev pub leaf_a : Bytes
leaf_a = hash_leaf toy_digest alice 5

abbrev pub leaf_b : Bytes
leaf_b = hash_leaf toy_digest bob 7

abbrev pub two_tree : MerkleTree
two_tree = record {
  root = hash_pair toy_digest leaf_a leaf_b;
  proofs = (alice, leaf_b ∷ []) ∷ (bob, leaf_a ∷ []) ∷ [];
}

pub two_tree-built : build_merkle_tree toy_digest two_entries ≡ some two_tree
unfolding build_merkle_tree build_levels Option.bind tree_of next_level insert_proofs proof_at
    insert bytes_eq to_le_bytes
two_tree-built = refl

bob-accepted : verify_proof toy_digest leaf_b (leaf_a ∷ []) two_tree.root ≡ true
unfolding verify_proof hash_pair hash_leaf bytes_le bytes_eq to_le_bytes from_le_bytes
bob-accepted = refl

leaf_a-IsHash : IsHash leaf_a
unfolding hash_leaf
leaf_a-IsHash = length-toy_digest _

bob-IsEntry : IsEntry (bob, 7)
bob-IsEntry = (length-to_le_bytes 32 2, omega arith)

two_entries-IsEntry : All IsEntry two_entries
two_entries-IsEntry = ((length-to_le_bytes 32 1, omega arith), (bob-IsEntry, tt))

verify_proof_sound_example :
    ((i : ℕ) × (get_elem? two_entries i ≡ some (bob, 7))) ⊎ Collision toy_digest
verify_proof_sound_example =
    verify_proof_sound toy_digest two_entries two_tree bob 7 (leaf_a ∷ []) length-toy_digest
      two_entries-IsEntry bob-IsEntry (leaf_a-IsHash, tt) two_tree-built bob-accepted

build_rewardz_tree_debug_example :
    (DistinctKeys two_entries
      × Ascending two_entries
      × (build_rewardz_tree toy_digest true two_entries
          ≡ build_rewardz_tree toy_digest false two_entries))
    ⊎ (¬ (DistinctKeys two_entries × Ascending two_entries)
        × ((message : String) × (build_rewardz_tree toy_digest true two_entries ≡ err message)))
build_rewardz_tree_debug_example = build_rewardz_tree_debug toy_digest two_entries

build_rewardz_tree_release_example :
    ((two_entries ≡ [])
      × (build_rewardz_tree toy_digest false two_entries ≡ ok none)
      × (build_merkle_tree toy_digest two_entries ≡ none))
    ⊎ ((t : MerkleTree) × (build_merkle_tree toy_digest two_entries ≡ some t)
        × (build_rewardz_tree toy_digest false two_entries ≡ ok (some (as_rewardz t))))
build_rewardz_tree_release_example = build_rewardz_tree_release toy_digest two_entries

build_levels_total_example :
    (levels : List (List Bytes)) × (build_levels toy_digest 2 (alice ∷ bob ∷ []) ≡ some levels)
build_levels_total_example =
    build_levels_total toy_digest 2 (alice ∷ bob ∷ []) (omega arith) (omega arith)

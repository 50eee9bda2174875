-- ===== src/RewardzMerkle.antt =====
-- src/rewardz_merkle.rs: the tree over (authority, cumulative amount) entries. It shares the
-- hashing of src/merkle.rs and has loops of its own.
pub mod Parity
pub mod Guards
use mathlib.Core.Option
use keeper_bot.Base.{
  ℕ, zero, suc, ◌+◌, ◌-◌, ◌/◌, ◌%◌, Bool, true, false, not, ◌&&◌, ◌||◌, Option, none, some, List,
  [], ◌∷◌, map, ◌==◌, if◌then◌else◌, length, get_elem?, String, Bytes, bytes_eq, bytes_le, Result,
  ok, err, ◌>>=◌, ◌>>◌,
}
use keeper_bot.Base.Maps.{HashMap, insert}
use keeper_bot.Merkle.{Hash, Entry, get_last?, drop_last, hash_leaf, hash_pair, verify_proof}

pub record RewardzMerkleTree : Type 0 where
  pub root : Hash
  pub proofs : HashMap (List Hash)

-- `entries.iter().all(|(pk, _)| seen.insert(*pk))`, with `seen` as the list of its members.
abbrev contains : List Bytes → Bytes → Bool
contains [] pk = false
contains (x ∷ seen) pk = bytes_eq x pk || contains seen pk

unfoldable pub no_duplicates : List Bytes → List Entry → Bool
no_duplicates seen [] = true
no_duplicates seen ((pk, _) ∷ es) = not (contains seen pk) && no_duplicates (pk ∷ seen) es

-- `entries.windows(2).all(|w| w[0].0.to_bytes() <= w[1].0.to_bytes())`.
unfoldable pub is_sorted : List Entry → Bool
is_sorted [] = true
is_sorted (e ∷ []) = true
is_sorted (e ∷ e' ∷ es) = bytes_le e.0 e'.0 && is_sorted (e' ∷ es)

-- `debug_assert!`: a panic in a build with debug assertions, nothing in a release build.
abbrev pub debug_assert : Bool → Bool → String → Result (Unit {0})
debug_assert debug condition message =
    if debug then (if condition then ok tt else err message) else ok tt

abbrev pub sibling_of : ℕ → ℕ
sibling_of idx = if idx % 2 == 0 then idx + 1 else idx - 1

unfoldable pub proof_at : List (List Hash) → ℕ → List Hash
proof_at [] idx = []
proof_at (level ∷ levels) idx =
    let rest = proof_at levels (idx / 2) in
    elim (get_elem? level (sibling_of idx)) [ some sibling ↦ sibling ∷ rest | none ↦ rest ]

unfoldable pub insert_proofs :
    List (List Hash) → List Entry → ℕ → HashMap (List Hash) → HashMap (List Hash)
insert_proofs levels [] leaf_idx proofs = proofs
insert_proofs levels ((pk, _) ∷ entries) leaf_idx proofs =
    insert_proofs levels entries (leaf_idx + 1) (insert pk (proof_at levels leaf_idx) proofs)

module _ (keccak256 : Bytes → Bytes) where
  unfoldable pub hash_rewardz_leaf : Bytes → ℕ → Hash
  hash_rewardz_leaf authority cumulative_amount = hash_leaf keccak256 authority cumulative_amount

  unfoldable pub next_level : List Hash → List Hash
  next_level [] = []
  next_level (x ∷ []) = x ∷ []
  next_level (x ∷ y ∷ rest) = hash_pair keccak256 x y ∷ next_level rest

  unfoldable pub build_levels : ℕ → List Hash → Option (List (List Hash))
  build_levels zero prev = none
  build_levels (suc fuel) prev =
      let more = Option.map (λ levels. prev ∷ levels) (build_levels fuel (next_level prev)) in
      if length prev == 1 then some (prev ∷ []) else more

  abbrev pub leaf_of : Entry → Hash
  leaf_of (pk, amount) = hash_rewardz_leaf pk amount

  -- `levels.last().unwrap()[0]` panics where there is no level, or an empty one.
  unfoldable pub tree_of : List Entry → List (List Hash) → Result RewardzMerkleTree
  tree_of entries levels = elim (get_last? levels) [
    | some (root ∷ _) ↦
        ok (record { root = root; proofs = insert_proofs (drop_last levels) entries 0 [] })
    | some [] ↦ err "index out of bounds"
    | none ↦ err "called `Option::unwrap()` on a `None` value"
  ]

  -- The end of the function, with the levels that its loop leaves.
  abbrev pub tree_from : List Entry → Option (List (List Hash)) → Result (Option RewardzMerkleTree)
  tree_from entries (some levels) = do tree ← tree_of entries levels; ok (some tree)
  tree_from entries none = err "out of fuel"

  -- The part below the assertions.
  unfoldable pub build_unchecked : List Entry → Result (Option RewardzMerkleTree)
  unfolding tree_of build_levels
  build_unchecked [] = ok none
  build_unchecked ((pk, amount) ∷ []) =
      ok (some (record { root = hash_rewardz_leaf pk amount; proofs = insert pk [] [] }))
  build_unchecked (e ∷ e' ∷ es) =
      let leaves = map leaf_of (e ∷ e' ∷ es) in
      tree_from (e ∷ e' ∷ es) (build_levels (length leaves) leaves)

  -- `debug` says whether the build has debug assertions. An empty input returns before them.
  unfoldable pub build_rewardz_tree : Bool → List Entry → Result (Option RewardzMerkleTree)
  unfolding build_unchecked no_duplicates is_sorted
  build_rewardz_tree debug [] = ok none
  build_rewardz_tree debug (e ∷ es) = do
    debug_assert debug (no_duplicates [] (e ∷ es)) "duplicate authorities in input"
    debug_assert debug (is_sorted (e ∷ es)) "input not sorted by authority bytes"
    build_unchecked (e ∷ es)

  unfoldable pub verify_rewardz_proof : Hash → List Hash → Hash → Bool
  verify_rewardz_proof leaf proof root = verify_proof keccak256 leaf proof root

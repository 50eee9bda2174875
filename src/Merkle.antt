-- ===== src/Merkle.antt =====
-- src/merkle.rs: the Merkle tree over (authority, points) entries. Keccak-256 comes from the sha3
-- crate and is a parameter of every definition that hashes.
mod Order
pub mod Levels
pub mod Proofs
pub mod Nodes
pub mod Soundness
use keeper_bot.Base.{
  ℕ, zero, suc, ◌+◌, ◌-◌, ◌/◌, ◌%◌, Bool, Option, none, some, List, [], ◌∷◌, ◌++◌, map, foldl, ◌==◌,
  if◌then◌else◌, length, get_elem?, Bytes, bytes_eq, bytes_le, to_le_bytes,
}
use keeper_bot.Base.Maps.{HashMap, insert}
use mathlib.Core.Option

-- `[u8; 32]`.
abbrev pub Hash : Type 0
Hash = Bytes

abbrev pub Entry : Type 0
Entry = Bytes × ℕ

pub record MerkleTree : Type 0 where
  pub root : Hash
  pub proofs : HashMap (List Hash)

-- `levels.last()`.
abbrev pub get_last? {ℓ} : {A : Type ℓ} → List A → Option A
get_last? [] = none
get_last? (x ∷ []) = some x
get_last? (x ∷ y ∷ xs) = get_last? (y ∷ xs)

-- `levels[..levels.len() - 1]`.
abbrev pub drop_last {ℓ} : {A : Type ℓ} → List A → List A
drop_last [] = []
drop_last (x ∷ []) = []
drop_last (x ∷ y ∷ xs) = x ∷ drop_last (y ∷ xs)

-- `let sibling_idx = if idx % 2 == 0 { idx + 1 } else { idx - 1 };`
abbrev pub sibling_idx : ℕ → ℕ
sibling_idx idx = if idx % 2 == 0 then idx + 1 else idx - 1

-- The walk from a leaf to the root: `proof.push(level[sibling_idx])` where the index is in range.
unfoldable pub proof_at : List (List Hash) → ℕ → List Hash
proof_at [] idx = []
proof_at (level ∷ levels) idx =
    let rest = proof_at levels (idx / 2) in
    elim (get_elem? level (sibling_idx idx)) [ some sibling ↦ sibling ∷ rest | none ↦ rest ]

-- `for (leaf_idx, (pk, _)) in entries.iter().enumerate()`, from `leaf_idx` on.
unfoldable pub insert_proofs :
    List (List Hash) → List Entry → ℕ → HashMap (List Hash) → HashMap (List Hash)
insert_proofs levels [] leaf_idx proofs = proofs
insert_proofs levels ((pk, _) ∷ entries) leaf_idx proofs =
    insert_proofs levels entries (leaf_idx + 1) (insert pk (proof_at levels leaf_idx) proofs)

module _ (keccak256 : Bytes → Bytes) where
  unfoldable pub hash_leaf : Bytes → ℕ → Hash
  hash_leaf authority points = keccak256 (authority ++ to_le_bytes 8 points)

  unfoldable pub hash_pair : Hash → Hash → Hash
  hash_pair a b = if bytes_le a b then keccak256 (a ++ b) else keccak256 (b ++ a)

  -- One round of `while i < len`: pairs are hashed, an odd last node is promoted.
  unfoldable pub next_level : List Hash → List Hash
  next_level [] = []
  next_level (x ∷ []) = x ∷ []
  next_level (x ∷ y ∷ rest) = hash_pair x y ∷ next_level rest

  -- The `loop` that pushes levels until one has a single node. `none` is a loop that has not ended
  -- within the fuel.
  unfoldable pub build_levels : ℕ → List Hash → Option (List (List Hash))
  build_levels zero prev = none
  build_levels (suc fuel) prev =
      let more = Option.map (λ levels. prev ∷ levels) (build_levels fuel (next_level prev)) in
      if length prev == 1 then some (prev ∷ []) else more

  abbrev pub leaf_of : Entry → Hash
  leaf_of (pk, pts) = hash_leaf pk pts

  -- `levels.last().unwrap()[0]`, and the proofs. `none` is a panic.
  unfoldable pub tree_of : List Entry → List (List Hash) → Option MerkleTree
  tree_of entries levels = elim (get_last? levels) [
    | some (root ∷ _) ↦
        some (record { root = root; proofs = insert_proofs (drop_last levels) entries 0 [] })
    | _ ↦ none
  ]

  -- `Some` and `None` of the source are `some` and `none`; fuel for one round a leaf is enough.
  unfoldable pub build_merkle_tree : List Entry → Option MerkleTree
  unfolding tree_of build_levels Option.bind
  build_merkle_tree [] = none
  build_merkle_tree ((pk, pts) ∷ []) =
      some (record { root = hash_leaf pk pts; proofs = insert pk [] [] })
  build_merkle_tree (e ∷ e' ∷ es) =
      let leaves = map leaf_of (e ∷ e' ∷ es) in
      Option.bind (build_levels (length leaves) leaves) (tree_of (e ∷ e' ∷ es))

  unfoldable pub verify_proof : Hash → List Hash → Hash → Bool
  verify_proof leaf proof root = bytes_eq (foldl hash_pair leaf proof) root

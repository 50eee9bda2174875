-- ===== src/RewardzMerkle/Guards.antt =====
-- src/rewardz_merkle.rs: the debug assertions of `build_rewardz_tree`, and the proofs of the tree.
use keeper_bot.Base.{
  ℕ, ◌≡◌, refl, ◌≢◌, ◌↔◌, true, false, some, List, [], ◌∷◌, get_elem?, String, Bytes, bytes_eq_iff,
  bytes_le, ok, err, arith, All, Bool-cases, inl, inr, ◌⊎◌,
}
use keeper_bot.Base.Maps.{lookup}
use keeper_bot.Merkle.{Hash, Entry}
use keeper_bot.Merkle.Proofs.{DistinctKeys, build_merkle_tree-Provable}
use keeper_bot.RewardzMerkle.{
  RewardzMerkleTree, contains, no_duplicates, is_sorted, hash_rewardz_leaf, build_rewardz_tree,
  verify_rewardz_proof,
}
use keeper_bot.RewardzMerkle.Parity.{as_rewardz, build_rewardz_tree-built}

Unseen : List Bytes → List Entry → Type 0
Unseen seen = All (λ e. contains seen e.0 ≡ false)

Unseen-cons :
    (pk : Bytes) (seen : List Bytes) (es : List Entry)
    → All (λ e. pk ≢ e.0) es
    → Unseen seen es
    → Unseen (pk ∷ seen) es
unfolding Unseen
Unseen-cons pk seen [] ne un = tt
Unseen-cons pk seen (e ∷ es) (n, ne) (u, un) =
    (ground (arith, bytes_eq_iff pk e.0), Unseen-cons pk seen es ne un)

Unseen-uncons :
    (pk : Bytes) (seen : List Bytes) (es : List Entry)
    → Unseen (pk ∷ seen) es
    → All (λ e. pk ≢ e.0) es × Unseen seen es
unfolding Unseen
Unseen-uncons pk seen [] un = (tt, tt)
Unseen-uncons pk seen (e ∷ es) (u, un) =
    let (ne, rest) = Unseen-uncons pk seen es un in
    ((ground (arith, bytes_eq_iff pk e.0), ne), (ground arith, rest))

no_duplicates_complete :
    (seen : List Bytes) (es : List Entry)
    → DistinctKeys es
    → Unseen seen es
    → no_duplicates seen es ≡ true
unfolding no_duplicates Unseen
no_duplicates_complete seen [] d un = refl
no_duplicates_complete seen ((pk, _) ∷ es) (ne, d) (u, un) =
    ground (arith, no_duplicates_complete (pk ∷ seen) es d (Unseen-cons pk seen es ne un))

no_duplicates_sound :
    (seen : List Bytes) (es : List Entry)
    → no_duplicates seen es ≡ true
    → DistinctKeys es × Unseen seen es
unfolding no_duplicates Unseen
no_duplicates_sound seen [] h = (tt, tt)
no_duplicates_sound seen ((pk, _) ∷ es) h =
    let (d, un) = no_duplicates_sound (pk ∷ seen) es (ground arith) in
    let (ne, rest) = Unseen-uncons pk seen es un in ((ne, d), (ground arith, rest))

all-Unseen : (es : List Entry) → Unseen [] es
unfolding Unseen
all-Unseen [] = tt
all-Unseen (e ∷ es) = (refl, all-Unseen es)

-- Each entry's authority is at most the next one's in the order of byte arrays.
abbrev pub Ascending : List Entry → Type 0
Ascending [] = Unit
Ascending (e ∷ []) = Unit
Ascending (e ∷ e' ∷ es) = (bytes_le e.0 e'.0 ≡ true) × Ascending (e' ∷ es)

is_sorted_iff : (es : List Entry) → (is_sorted es ≡ true) ↔ Ascending es
unfolding is_sorted
is_sorted_iff [] = (λ h. tt, λ h. refl)
is_sorted_iff (e ∷ []) = (λ h. tt, λ h. refl)
is_sorted_iff (e ∷ e' ∷ es) = ground (arith, is_sorted_iff (e' ∷ es))

module _ (keccak256 : Bytes → Bytes) where
  -- In a debug build either the authorities are distinct and ascending, and the call returns the
  -- same tree as in a release build, or they are not, and it panics.
  pub build_rewardz_tree_debug :
      (entries : List Entry)
      → (DistinctKeys entries
          × Ascending entries
          × (build_rewardz_tree keccak256 true entries
              ≡ build_rewardz_tree keccak256 false entries))
        ⊎ (¬ (DistinctKeys entries × Ascending entries)
            × ((message : String) × (build_rewardz_tree keccak256 true entries ≡ err message)))
  unfolding build_rewardz_tree
  build_rewardz_tree_debug [] = inl (tt, tt, refl)
  build_rewardz_tree_debug (e ∷ es) = elim (Bool-cases (no_duplicates [] (e ∷ es))) [
    | inr dup ↦ inr (
      λ (d, _).
          absurd (ground (arith, dup, no_duplicates_complete [] (e ∷ es) d (all-Unseen (e ∷ es)))),
      ("duplicate authorities in input", rw dup refl),
    )
    | inl fresh ↦ elim (Bool-cases (is_sorted (e ∷ es))) [
      | inr unsorted ↦ inr (
        λ (_, a). absurd (ground (arith, unsorted, (is_sorted_iff (e ∷ es)).1 a)),
        ("input not sorted by authority bytes", rw (fresh, unsorted) refl),
      )
      | inl sorted ↦ inl (
        (no_duplicates_sound [] (e ∷ es) fresh).0,
        (is_sorted_iff (e ∷ es)).0 sorted,
        rw (fresh, sorted) refl,
      )
    ]
  ]

  -- What the claim path needs of a rewardz tree, for one entry.
  pub record Claimable (entries : List Entry) (pk : Bytes) (amount : ℕ) : Type 0 where
    pub tree : RewardzMerkleTree
    pub proof : List Hash
    pub built : build_rewardz_tree keccak256 false entries ≡ ok (some tree)
    pub found : lookup pk tree.proofs ≡ some proof
    pub accepted :
        verify_rewardz_proof keccak256 (hash_rewardz_leaf keccak256 pk amount) proof tree.root
        ≡ true

  -- From distinct authorities a release build makes a tree that holds, for each entry, a proof
  -- with which the entry's leaf verifies.
  pub build_rewardz_tree-Claimable :
      (entries : List Entry) (i : ℕ) (pk : Bytes) (amount : ℕ)
      → DistinctKeys entries
      → get_elem? entries i ≡ some (pk, amount)
      → Claimable entries pk amount
  unfolding verify_rewardz_proof hash_rewardz_leaf
  build_rewardz_tree-Claimable entries i pk amount d at =
      let p = build_merkle_tree-Provable keccak256 entries i pk amount d at in
      record {
        tree = as_rewardz p.tree;
        proof = p.proof;
        built = build_rewardz_tree-built keccak256 entries p.tree p.built;
        found = p.found;
        accepted = p.accepted;
      }

-- ===== src/Merkle/Proofs.antt =====
-- src/merkle.rs: the proofs that `build_merkle_tree` stores, under `verify_proof`.
use keeper_bot.Base.{
  ℕ, zero, suc, ◌+◌, ◌/◌, ◌≡◌, refl, ◌∙◌, ap, ◌≢◌, inl, inr, Bool-cases, true, some, List, [], ◌∷◌,
  map, foldl, Bytes, bytes_eq_refl, bytes_eq_iff, All, length, get_elem?, get_elem?-map, ◌==◌,
  Option-cases, arith,
}
use mathlib.Core.Option
use keeper_bot.Base.Maps.{HashMap, lookup, insert, lookup-insert}
use keeper_bot.Merkle.{
  Hash, Entry, MerkleTree, get_last?, drop_last, sibling_idx, proof_at, insert_proofs, hash_leaf,
  hash_pair, next_level, build_levels, tree_of, leaf_of, build_merkle_tree, verify_proof,
}
use keeper_bot.Merkle.Levels.{parent, get_elem?-next_level, build_levels_total}

-- No two entries have the same key.
abbrev pub DistinctKeys : List Entry → Type 0
DistinctKeys [] = Unit
DistinctKeys (e ∷ es) = All (λ e'. e.0 ≢ e'.0) es × DistinctKeys es

module _ (levels : List (List Hash)) where
  insert_proofs_absent :
      (pk : Bytes) (entries : List Entry) (i : ℕ) (m : HashMap (List Hash))
      → All (λ e. pk ≢ e.0) entries
      → lookup pk (insert_proofs levels entries i m) ≡ lookup pk m
  unfolding insert_proofs
  insert_proofs_absent pk [] i m away = refl
  insert_proofs_absent pk ((j, pts) ∷ es) i m (ne, away) =
      insert_proofs_absent pk es (i + 1) _ away
      ∙ lookup-insert j pk (proof_at levels i) m
      ∙ ground (arith, bytes_eq_iff j pk)

  -- With distinct keys, the map holds for each key the proof of its position.
  pub lookup-insert_proofs :
      (entries : List Entry) (i k j : ℕ) (m : HashMap (List Hash)) {pk : Bytes} {pts : ℕ}
      → DistinctKeys entries
      → get_elem? entries k ≡ some (pk, pts)
      → i + k ≡ j
      → lookup pk (insert_proofs levels entries i m) ≡ some (proof_at levels j)
  unfolding insert_proofs
  lookup-insert_proofs [] i k j m d at s = cc
  lookup-insert_proofs ((pk', pts') ∷ es) i zero j m {pk} (away, d) at s =
      let same : pk' ≡ pk = ground arith in
      let here : i ≡ j = omega arith in
      rw (← same, ← here)
        (insert_proofs_absent pk' es (i + 1) _ away
          ∙ lookup-insert pk' pk' (proof_at levels i) m
          ∙ ground (arith, bytes_eq_refl pk'))
  lookup-insert_proofs ((pk', pts') ∷ es) i (suc k) j m (away, d) at s =
      lookup-insert_proofs es (i + 1) k j _ d at (omega arith)

module _ (keccak256 : Bytes → Bytes) where
  -- Folding the proof of a node over the node leads to the single node of the last level.
  record Climbs (levels : List (List Hash)) (i : ℕ) (h : Hash) : Type 0 where
    root : Hash
    top : get_last? levels ≡ some (root ∷ [])
    climbs : foldl (hash_pair keccak256) h (proof_at (drop_last levels) i) ≡ root

  Climbs-single :
      (level : List Hash) (i : ℕ) (h : Hash)
      → length level ≡ 1
      → get_elem? level i ≡ some h
      → Climbs (level ∷ []) i h
  unfolding proof_at
  Climbs-single [] i h one at = cc
  Climbs-single (x ∷ []) zero h one at = record { root = x; top = refl; climbs = ground arith }
  Climbs-single (x ∷ []) (suc i) h one at = cc
  Climbs-single (x ∷ y ∷ rest) i h one at = absurd (omega arith)

  Climbs-cons :
      (level : List Hash) (levels : List (List Hash)) (i : ℕ) (h : Hash)
      → Climbs levels (i / 2) (parent keccak256 h (get_elem? level (sibling_idx i)))
      → Climbs (level ∷ levels) i h
  unfolding proof_at
  Climbs-cons level [] i h c = ground (arith, c.top)
  Climbs-cons level (l ∷ ls) i h c = record {
    root = c.root;
    top = c.top;
    climbs = ground (arith, c.climbs);
  }

  build_levels-Climbs :
      (fuel : ℕ) (level : List Hash) (i : ℕ) (h : Hash) (levels : List (List Hash))
      → build_levels keccak256 fuel level ≡ some levels
      → get_elem? level i ≡ some h
      → Climbs levels i h
  unfolding build_levels
  build_levels-Climbs zero level i h levels built at = cc
  build_levels-Climbs (suc fuel) level i h levels built at = elim (Bool-cases (length level == 1)) [
    | inl single ↦
        let e : levels ≡ level ∷ [] = ground arith in
        rw e (Climbs-single level i h (ground arith) at)
    | inr several ↦ elim (Option-cases (build_levels keccak256 fuel (next_level keccak256 level))) [
      | inl stuck ↦ ground arith
      | inr (above, e) ↦
          let e' : levels ≡ level ∷ above = ground arith in
          rw e' (
            Climbs-cons level above i h (
              build_levels-Climbs fuel (next_level keccak256 level) (i / 2) _ above e
                (get_elem?-next_level keccak256 level i h at)))
    ]
  ]

  tree_of-some :
      (entries : List Entry) (levels : List (List Hash)) (root : Hash)
      → get_last? levels ≡ some (root ∷ [])
      → tree_of keccak256 entries levels
        ≡ some (record { root = root; proofs = insert_proofs (drop_last levels) entries 0 [] })
  unfolding tree_of
  tree_of-some entries levels root top = rw (top, tree_of)

  -- What a caller needs of a tree: for the entry, a proof in the map that the verifier accepts.
  pub record Provable (entries : List Entry) (pk : Bytes) (pts : ℕ) : Type 0 where
    pub tree : MerkleTree
    pub proof : List Hash
    pub built : build_merkle_tree keccak256 entries ≡ some tree
    pub found : lookup pk tree.proofs ≡ some proof
    pub accepted : verify_proof keccak256 (hash_leaf keccak256 pk pts) proof tree.root ≡ true

  -- From a non-empty list of entries with distinct keys a tree is built, and for each entry it
  -- holds a proof with which the leaf of that entry verifies against the root.
  pub build_merkle_tree-Provable :
      (entries : List Entry) (i : ℕ) (pk : Bytes) (pts : ℕ)
      → DistinctKeys entries
      → get_elem? entries i ≡ some (pk, pts)
      → Provable entries pk pts
  unfolding build_merkle_tree verify_proof
  build_merkle_tree-Provable [] i pk pts d at = cc
  build_merkle_tree-Provable ((pk', pts') ∷ []) (suc i) pk pts d at = cc
  build_merkle_tree-Provable ((pk', pts') ∷ []) zero pk pts d at = record {
    tree = record { root = hash_leaf keccak256 pk' pts'; proofs = insert pk' [] [] };
    proof = [];
    built = refl;
    found = lookup-insert pk' pk [] [] ∙ ground (arith, bytes_eq_iff pk' pk);
    accepted =
        ground (arith, bytes_eq_iff (hash_leaf keccak256 pk pts) (hash_leaf keccak256 pk' pts'));
  }
  build_merkle_tree-Provable (e ∷ e' ∷ es) i pk pts d at =
      let entries = e ∷ e' ∷ es in
      let leaves = map (leaf_of keccak256) entries in
      let (levels, built) =
        build_levels_total keccak256 (length leaves) leaves (omega arith) (omega arith) in
      let leaf_at =
        get_elem?-map (leaf_of keccak256) entries i ∙ ap (Option.map (leaf_of keccak256)) at in
      let climb = build_levels-Climbs (length leaves) leaves i _ levels built leaf_at in
      record {
        tree = record { root = climb.root; proofs = insert_proofs (drop_last levels) entries 0 [] };
        proof = proof_at (drop_last levels) i;
        built = rw built (tree_of-some entries levels climb.root climb.top);
        found = lookup-insert_proofs (drop_last levels) entries 0 i i [] d at (omega arith);
        accepted = rw climb.climbs (bytes_eq_refl climb.root);
      }

  -- A list with an entry has a tree.
  pub build_merkle_tree-some :
      (e : Entry) (es : List Entry)
      → (t : MerkleTree) × (build_merkle_tree keccak256 (e ∷ es) ≡ some t)
  unfolding build_merkle_tree
  build_merkle_tree-some (pk, pts) [] = (_, refl)
  build_merkle_tree-some e (e' ∷ es) =
      let entries = e ∷ e' ∷ es in
      let leaves = map (leaf_of keccak256) entries in
      let (levels, built) =
        build_levels_total keccak256 (length leaves) leaves (omega arith) (omega arith) in
      let climb = build_levels-Climbs (length leaves) leaves 0 _ levels built refl in
      (
        record { root = climb.root; proofs = insert_proofs (drop_last levels) entries 0 [] },
        rw built (tree_of-some entries levels climb.root climb.top),
      )

-- ===== src/Api/RewardzProof/Served.antt =====
-- src/api.rs, `get_rewardz_proof`: what a served proof is good for.
use keeper_bot.Base.{
  ℕ, zero, suc, ◌≡◌, refl, sym, ap, ◌∙◌, ◌≢◌, ◌⊎◌, inl, inr, ℤ, true, false, Option, none, some,
  List, [], ◌∷◌, map, get_elem?, Bytes, bytes_eq, bytes_eq_iff, ok, arith, Bool-cases,
}
use keeper_bot.Base.Maps.{HashMap, lookup, insert, lookup-insert}
use keeper_bot.Merkle.{Hash, Entry}
use keeper_bot.Merkle.Proofs.{DistinctKeys}
use keeper_bot.RewardzMerkle.{
  RewardzMerkleTree, build_rewardz_tree, verify_rewardz_proof, hash_rewardz_leaf,
}
use keeper_bot.RewardzMerkle.Guards.{build_rewardz_tree-Claimable}
use keeper_bot.Chain.{Pubkey}
use keeper_bot.Api.{json}
use keeper_bot.Api.RewardzProof.{
  RewardzProofResponse, prefixed_hex, amounts_of, answer_leaf, answer_tree,
}

-- An amount in the map is that of an entry, or was there before.
lookup-amounts_of :
    (target : Pubkey) (entries : List Entry) (m : HashMap ℕ) (amount : ℕ)
    → lookup target (amounts_of entries m) ≡ some amount
    → ((i : ℕ) × (get_elem? entries i ≡ some (target, amount))) ⊎ (lookup target m ≡ some amount)
unfolding amounts_of
lookup-amounts_of target [] m amount e = inr e
lookup-amounts_of target ((pk, a) ∷ es) m amount e =
    elim (lookup-amounts_of target es (insert pk a m) amount e) [
      | inl (i, at) ↦ inl (suc i, at)
      | inr inserted ↦ elim (Bool-cases (bytes_eq pk target)) [
        | inl same ↦ inl (
          zero,
          ground (arith, lookup-insert pk target a m, inserted, same, bytes_eq_iff pk target),
        )
        | inr other ↦ inr (ground (arith, lookup-insert pk target a m, inserted, other))
      ]
    ]

lookup_empty : (target : Pubkey) (amount : ℕ) → lookup {V = ℕ} target [] ≢ some amount
unfolding lookup
lookup_empty target amount e = absurd (ground (arith, e))

-- The response carries the entry's amount and a proof, in hex, that verifies against the root.
pub record Redeemable (keccak256 : Bytes → Bytes) (entries : List Entry) (target : Pubkey)
    (root : Hash) (epoch : ℕ) (r : RewardzProofResponse) : Type 0 where
  pub index : ℕ
  pub entry : get_elem? entries index ≡ some (target, r.cumulative_amount)
  pub proof : List Hash
  pub proof_hex : r.proof ≡ map prefixed_hex proof
  pub root_hex : r.root ≡ prefixed_hex root
  pub same_epoch : r.epoch ≡ epoch
  pub accepted :
      verify_rewardz_proof keccak256
        (hash_rewardz_leaf keccak256 target r.cumulative_amount)
        proof
        root
      ≡ true

answer_leaf-parts :
    (root : Hash) (epoch : ℕ) (valid_until : ℤ) (amount : Option ℕ) (proof : Option (List Hash))
    (r : RewardzProofResponse)
    → answer_leaf root epoch valid_until amount proof ≡ json r
    → (amount ≡ some r.cumulative_amount)
      × ((p : List Hash) × (proof ≡ some p)
          × (r.proof ≡ map prefixed_hex p)
          × (r.root ≡ prefixed_hex root)
          × (r.epoch ≡ epoch))
unfolding answer_leaf
answer_leaf-parts root epoch valid_until (some a) (some p) r e =
    (ground (arith, e), (p, refl, ground (arith, e), ground (arith, e), ground (arith, e)))
answer_leaf-parts root epoch valid_until (some a) none r e = absurd (ground (arith, e))
answer_leaf-parts root epoch valid_until none proof r e = absurd (ground (arith, e))

-- If the entries have distinct authorities, a proof is served only where the rebuilt tree has the
-- root on the chain, and then the amount is that of an entry of the authority and the served proof
-- verifies for it against the root on the chain.
pub answer_tree-Redeemable :
    (keccak256 : Bytes → Bytes) (target : Pubkey) (root : Hash) (epoch : ℕ) (valid_until : ℤ)
    (entries : List Entry) (tree : Option RewardzMerkleTree) (r : RewardzProofResponse)
    → DistinctKeys entries
    → build_rewardz_tree keccak256 false entries ≡ ok tree
    → answer_tree target root epoch valid_until entries tree ≡ json r
    → Redeemable keccak256 entries target root epoch r
unfolding answer_tree
answer_tree-Redeemable keccak256 target root epoch valid_until entries none r d built e =
    absurd (ground (arith, e))
answer_tree-Redeemable keccak256 target root epoch valid_until entries (some tree) r d built e =
    let same : tree.root ≡ root = ground (arith, e, bytes_eq_iff tree.root root) in
    let leaf : answer_leaf root epoch valid_until (lookup target (amounts_of entries []))
          (lookup target tree.proofs)
        ≡ json r =
      ground (arith, e) in
    let (amount, (p, found, proof_hex, root_hex, same_epoch)) =
      answer_leaf-parts root epoch valid_until _ _ r leaf in
    elim (lookup-amounts_of target entries [] r.cumulative_amount amount) [
      | inr absent ↦ absurd (lookup_empty target r.cumulative_amount absent)
      | inl (i, at) ↦
          let c =
            build_rewardz_tree-Claimable keccak256 entries i target r.cumulative_amount d at in
          let same_tree : c.tree ≡ tree = ground (arith, c.built, built) in
          let same_proof : c.proof ≡ p = ground (arith, c.found, found, same_tree) in
          record {
            index = i;
            entry = at;
            proof = p;
            proof_hex = proof_hex;
            root_hex = root_hex;
            same_epoch = same_epoch;
            accepted =
                ap
                  (λ q.
                    verify_rewardz_proof keccak256
                      (hash_rewardz_leaf keccak256 target r.cumulative_amount) q root)
                  (sym same_proof)
                ∙ ap
                    (λ h.
                      verify_rewardz_proof keccak256
                        (hash_rewardz_leaf keccak256 target r.cumulative_amount) c.proof h)
                    (sym (ap (λ t. t.root) same_tree ∙ same))
                ∙ c.accepted;
          }
    ]

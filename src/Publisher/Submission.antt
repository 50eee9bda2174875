-- ===== src/Publisher/Submission.antt =====
-- src/publisher.rs: what the points publisher submits.
use keeper_bot.Base.{
  ℕ, ◌+◌, ◌%◌, ◌<◌, ◌^◌, ◌≡◌, refl, sym, ◌∙◌, ap, ◌⊎◌, inl, inr, some, List, [], ◌∷◌, ◌++◌, Bytes,
  to_le_bytes, from_le_bytes, length, take, drop, length-append, take-append, drop-append,
  drop-drop, length-to_le_bytes, from_le_bytes-to_le_bytes, ok, arith, Option-cases,
}
use keeper_bot.Merkle.{Hash, Entry, MerkleTree, build_merkle_tree}
use keeper_bot.Chain.{Pubkey, Transaction, Rpc, Sdk, Session}
use keeper_bot.Chain.Submits.{
  AtMostOne, Quiet-pure, Quiet-attempt, Quiet-bind, AtMostOne-if, AtMostOne-weaken, AtMostOne-Quiet,
  AtMostOne-bind-Quiet, AtMostOne-bind_then, send_instruction-AtMostOne,
}
use keeper_bot.Db.{Pg, get_users_with_points}
use keeper_bot.Db.Statements.{run_sql-Quiet}
use keeper_bot.Publisher.{
  is_empty, total_issued, set_point_root_data, entries_of, set_point_root_ix, publish_entries,
  publish_root, publisher_tick,
}

-- The parts of the instruction data, as the on-chain program reads them: a byte for the
-- instruction, 32 bytes of root, 8 bytes of epoch and 16 bytes of total, 57 in all.
set_point_root_data_parts :
    (root : Hash) (epoch total : ℕ)
    → length root ≡ 32
    → epoch < 256 ^ 8
    → total < 256 ^ 16
    → (length (set_point_root_data root epoch total) ≡ 57)
      × (take 32 (drop 1 (set_point_root_data root epoch total)) ≡ root)
      × (from_le_bytes (take 8 (drop 33 (set_point_root_data root epoch total))) ≡ epoch)
      × (from_le_bytes (drop 41 (set_point_root_data root epoch total)) ≡ total)
unfolding set_point_root_data
set_point_root_data_parts root epoch total l e t =
    let epoch_le = to_le_bytes 8 epoch in
    let total_le = to_le_bytes 16 total in
    let past_root = drop-append root (epoch_le ++ total_le) 32 l in
    let past_epoch = drop-append epoch_le total_le 8 (length-to_le_bytes 8 epoch) in
    (
      omega (
        arith,
        length-append root (epoch_le ++ total_le),
        length-append epoch_le total_le,
        length-to_le_bytes 8 epoch,
        length-to_le_bytes 16 total,
      ),
      take-append root (epoch_le ++ total_le) 32 l,
      ap (λ b. from_le_bytes (take 8 b)) past_root
          ∙ ap from_le_bytes (take-append epoch_le total_le 8 (length-to_le_bytes 8 epoch))
          ∙ from_le_bytes-to_le_bytes 8 epoch e,
      ap from_le_bytes (sym (drop-drop 32 8 40 (root ++ (epoch_le ++ total_le)) refl))
          ∙ ap (λ b. from_le_bytes (drop 8 b)) past_root
          ∙ ap from_le_bytes past_epoch
          ∙ from_le_bytes-to_le_bytes 16 total t,
    )

module _ (sdk : Sdk) (keccak256 : Bytes → Bytes) {World : Type 0} (rpc : Rpc World) (pg : Pg World)
    (keypair program_id : Pubkey) (epoch : ℕ) where
  -- The one instruction carries the epoch, and the root and the total of the same entries.
  abbrev pub IsPointRoot : Transaction → Type 0
  IsPointRoot tx =
      (entries : List Entry) × (tree : MerkleTree) × (build_merkle_tree keccak256 entries
        ≡ some tree)
      × (tx.instructions
          ≡ set_point_root_ix sdk keypair program_id tree.root epoch (total_issued entries) ∷ [])

  publish_entries-AtMostOne :
      (entries : List Entry)
      → AtMostOne IsPointRoot
          (publish_entries sdk keccak256 rpc pg keypair program_id epoch entries)
  unfolding publish_entries
  publish_entries-AtMostOne entries = elim (Option-cases (build_merkle_tree keccak256 entries)) [
    | inl e ↦ rw e (record { at = λ s. inl refl })
    | inr (tree, e) ↦ rw e (
        AtMostOne-bind_then _ _
          (AtMostOne-weaken _ (λ tx p. (entries, tree, e, p))
            (send_instruction-AtMostOne rpc keypair _))
          λ sig. Quiet-bind _ _ (Quiet-attempt _ (run_sql-Quiet pg _)) λ saved. Quiet-pure tt)
  ]

  pub publish_root-AtMostOne :
      AtMostOne IsPointRoot (publish_root sdk keccak256 rpc pg keypair program_id epoch)
  unfolding publish_root
  publish_root-AtMostOne =
      AtMostOne-bind-Quiet _ _ (run_sql-Quiet pg get_users_with_points) λ users.
        AtMostOne-if (is_empty users) _ _ (AtMostOne-Quiet _ (Quiet-pure tt)) (
          AtMostOne-if (is_empty (entries_of sdk users)) _ _ (AtMostOne-Quiet _ (Quiet-pure tt))
            (publish_entries-AtMostOne (entries_of sdk users)))

-- Whatever the cluster and the database answer, a turn of the publisher's loop after epoch `last`
-- ends with the next epoch, wrapped at 2^64, and submits nothing or exactly one transaction, which
-- sets the root of a tree for that epoch with the total of the entries of the tree.
pub publisher_tick_one_transaction :
    (sdk : Sdk) (keccak256 : Bytes → Bytes) {World : Type 0} (rpc : Rpc World) (pg : Pg World)
    (keypair program_id : Pubkey) (last : ℕ) (s : Session World)
    → ((publisher_tick sdk keccak256 rpc pg keypair program_id last s).0 ≡ ok ((last + 1) % 2 ^ 64))
      × (((publisher_tick sdk keccak256 rpc pg keypair program_id last s).1.sent ≡ s.sent)
          ⊎ ((tx : Transaction) × ((publisher_tick sdk keccak256 rpc pg keypair program_id last
                  s).1.sent
                ≡ s.sent ++ tx ∷ [])
              × IsPointRoot sdk keccak256 rpc pg keypair program_id ((last + 1) % 2 ^ 64) tx))
unfolding publisher_tick
publisher_tick_one_transaction sdk keccak256 rpc pg keypair program_id last s = (
  refl,
  (publish_root-AtMostOne sdk keccak256 rpc pg keypair program_id ((last + 1) % 2 ^ 64)).at s,
)

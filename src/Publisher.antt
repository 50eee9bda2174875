-- ===== src/Publisher.antt =====
-- src/publisher.rs: the cron that publishes the Merkle root of the points. The u128 total wraps as
-- in a release build, which is what the repository's Dockerfile makes.
pub mod Submission
use mathlib.Core.Option
use keeper_bot.Base.{
  ℕ, zero, suc, ◌+◌, ◌-◌, ◌%◌, ◌^◌, ℤ, pos, as_u64, as_i64, leb_ℤ, Bool, Option, none, some, List,
  [], ◌∷◌, ◌++◌, if◌then◌else◌, leb, length, take, drop, Bytes, to_le_bytes, from_le_bytes, codes,
  String, Result, ok, err, ok_or,
}
use keeper_bot.Base.Maps.{HashMap, lookup}
use keeper_bot.Merkle.{Hash, Entry, MerkleTree, build_merkle_tree}
use keeper_bot.Chain.{
  Pubkey, meta, readonly_meta, Instruction, Rpc, Sdk, Session, Io, pure, lift, attempt, ask, ◌>>=◌,
  ◌>>◌, send_instruction,
}
use keeper_bot.GameLoop.{system_program_id}
use keeper_bot.Db.{Pg, run_sql, UserPointsRow, get_users_with_points, save_merkle_proofs}

abbrev point_root_seed : Bytes
point_root_seed = codes "point_root"

abbrev config_seed : Bytes
config_seed = codes "config"

abbrev set_point_root_discriminator : ℕ
set_point_root_discriminator = 15

-- `is_empty`.
abbrev pub is_empty {ℓ} : {A : Type ℓ} → List A → Bool
is_empty [] = Bool.true
is_empty (_ ∷ _) = Bool.false

-- `entries.iter().map(|(_, pts)| *pts as u128).sum()`.
unfoldable pub total_issued : List Entry → ℕ
total_issued [] = 0
total_issued ((_, pts) ∷ es) = (pts + total_issued es) % 2 ^ 128

unfoldable pub set_point_root_data : Hash → ℕ → ℕ → Bytes
set_point_root_data root epoch total =
    set_point_root_discriminator ∷ root ++ (to_le_bytes 8 epoch ++ to_le_bytes 16 total)

module _ (sdk : Sdk) where
  open sdk use {find_program_address, from_str, to_string}

  -- `users.iter().filter_map(..)`: rows with a malformed wallet or no points are dropped.
  unfoldable pub entries_of : List UserPointsRow → List Entry
  entries_of [] = []
  entries_of (u ∷ us) =
      let rest = entries_of us in
      elim (from_str u.wallet_address) [
        | none ↦ rest
        | some pk ↦
            if leb_ℤ u.total_points (pos 0) then rest else (pk, as_u64 u.total_points) ∷ rest
      ]

  -- `entries.iter().filter_map(..)`: the rows for the database.
  unfoldable pub proofs_for_db : HashMap (List Hash) → List Entry → List (String × ℤ × List Bytes)
  proofs_for_db proofs [] = []
  proofs_for_db proofs ((pk, pts) ∷ es) =
      let rest = proofs_for_db proofs es in
      elim (lookup pk proofs) [
        | some proof ↦ (to_string pk, as_i64 pts, proof) ∷ rest
        | none ↦ rest
      ]

  abbrev pub point_root_pda : Pubkey → Pubkey
  point_root_pda program_id = find_program_address (point_root_seed ∷ []) program_id

  abbrev pub set_point_root_ix : Pubkey → Pubkey → Hash → ℕ → ℕ → Instruction
  set_point_root_ix keypair program_id root epoch total = record {
    program_id = program_id;
    accounts =
        meta keypair Bool.true
        ∷ readonly_meta (find_program_address (config_seed ∷ []) program_id) Bool.false
        ∷ meta (point_root_pda program_id) Bool.false
        ∷ readonly_meta system_program_id Bool.false
        ∷ [];
    payload = set_point_root_data root epoch total;
  }

  -- `data[66..74]`, where the account has it.
  unfoldable pub parse_point_root_epoch : Bytes → Option ℕ
  parse_point_root_epoch bytes =
      if leb 74 (length bytes) then some (from_le_bytes (take 8 (drop 66 bytes))) else none

  module _ (keccak256 : Bytes → Bytes) {World : Type 0} (rpc : Rpc World) (pg : Pg World) where
    -- Steps 3 to 8: the tree, the transaction, and the proofs, whose failure is only logged.
    unfoldable pub publish_entries : Pubkey → Pubkey → ℕ → List Entry → Io World Unit
    publish_entries keypair program_id epoch entries = do
      tree ←
          lift
            (ok_or (build_merkle_tree keccak256 entries) "Failed to build Merkle tree (no entries)")
      send_instruction rpc keypair
          (set_point_root_ix keypair program_id tree.root epoch (total_issued entries))
      attempt (
          run_sql pg
            (save_merkle_proofs (as_i64 epoch) tree.root (proofs_for_db tree.proofs entries)))
      pure tt

    unfoldable pub publish_root : Pubkey → Pubkey → ℕ → Io World Unit
    publish_root keypair program_id epoch = do
      users ← run_sql pg get_users_with_points
      if is_empty users
          then pure tt
          else if is_empty (entries_of users)
          then pure tt
          else publish_entries keypair program_id epoch (entries_of users)

    unfoldable pub load_current_epoch : Pubkey → Io World (Option ℕ)
    unfolding parse_point_root_epoch
    load_current_epoch program_id = do
      answer ← attempt (ask (rpc.get_account (point_root_pda program_id)))
      elim answer [ ok account ↦ pure (parse_point_root_epoch account) | err e ↦ pure none ]

    -- What the cron does before its loop.
    unfoldable pub initial_epoch : Pubkey → Io World ℕ
    initial_epoch program_id = do
      loaded ← load_current_epoch program_id
      pure (elim loaded [ some e ↦ e | none ↦ 0 ])

    -- One turn of the loop of `start_publisher_cron`, from the epoch of the last turn to this one's.
    unfoldable pub publisher_tick : Pubkey → Pubkey → ℕ → Io World ℕ
    publisher_tick keypair program_id last =
        let epoch = (last + 1) % 2 ^ 64 in
        do attempt (publish_root keypair program_id epoch); pure epoch

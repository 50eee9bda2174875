-- ===== src/RewardzPublisher.antt =====
-- src/rewardz_publisher.rs: the cron that publishes the Merkle root of the rewardz rail. Layouts,
-- seeds and instruction codes are those of the rewardz-mvp-api crate, a parameter; so are the values
-- of the environment. Builds are release builds: assertions are off and the u128 total wraps.
pub mod Payload
pub mod Submission
pub mod Guards
use mathlib.Core.Option
use keeper_bot.Base.{
  ℕ, zero, suc, ◌+◌, ◌%◌, ◌^◌, min, ℤ, pos, as_u64, as_i64, leb_ℤ, Bool, true, false, ◌||◌, Option,
  none, some, List, [], ◌∷◌, ◌++◌, map, if◌then◌else◌, ltb, leb, length, Bytes, to_le_bytes, String,
  str_eq, Result, ok, err, ok_or,
}
use keeper_bot.Merkle.{Hash, Entry}
use keeper_bot.RewardzMerkle.{RewardzMerkleTree, build_rewardz_tree}
use keeper_bot.Chain.{
  Pubkey, meta, readonly_meta, Instruction, Signature, Rpc, Sdk, Session, Io, pure, lift, attempt,
  ask, ◌>>=◌, ◌>>◌, send_instruction,
}
use keeper_bot.GameLoop.{system_program_id}
use keeper_bot.LeagueConfig.{LeagueConfig, load_league_config}
use keeper_bot.Db.{
  Pg, run_sql, RewardzEarningsRow, select_now, get_rewardz_earnings_grouped,
  record_rewardz_root_publish,
}

-- The names of `rewardz_mvp_api` that the file uses.
pub record RewardzApi : Type 0 where
  pub config_seed : Bytes
  pub rewardz_root_seed : Bytes
  pub ix_set_rewardz_root : ℕ
  pub rewardz_root_len : ℕ
  pub off_epoch : ℕ
  pub rewardz_deny_list_max : ℕ
  pub rroot_read_root : Bytes → Bytes
  pub rroot_read_u64 : Bytes → ℕ → ℕ
  pub rroot_read_deny_list_len : Bytes → ℕ
  pub rroot_read_deny_entry : Bytes → ℕ → Option Bytes

-- The environment variables that a publish reads.
pub record RewardzEnv : Type 0 where
  pub solana_network : Option String
  pub rewardz_publisher_dry_run : Option String

unfoldable pub is_dry_run : RewardzEnv → Bool
is_dry_run env = elim env.rewardz_publisher_dry_run [
  | some v ↦ str_eq v "1" || str_eq v "true"
  | none ↦ false
]

-- `entries.iter().map(|(_, amt)| *amt as u128).sum()`.
unfoldable pub total_of : List Entry → ℕ
total_of [] = 0
total_of ((_, amt) ∷ es) = (amt + total_of es) % 2 ^ 128

-- The bytes of the deny list, one entry after the other.
unfoldable pub concat_entries : List Bytes → Bytes
concat_entries [] = []
concat_entries (entry ∷ entries) = entry ++ concat_entries entries

-- The root of the tree, or 32 zero bytes where there is none.
abbrev pub root_or_zero : Option RewardzMerkleTree → Hash
root_or_zero (some t) = t.root
root_or_zero none = to_le_bytes 32 0

module _ (api : RewardzApi) where
  unfoldable pub set_rewardz_root_data : Hash → ℕ → ℕ → List Bytes → Bytes
  set_rewardz_root_data root epoch total deny_list =
      api.ix_set_rewardz_root ∷ root
      ++ (to_le_bytes 8 epoch
          ++ (to_le_bytes 16 total ++ (length deny_list % 2 ^ 8 ∷ concat_entries deny_list)))

  -- `for i in 0..live`, from `i` on.
  unfoldable pub deny_entries_from : Bytes → ℕ → ℕ → List Bytes
  deny_entries_from bytes i zero = []
  deny_entries_from bytes i (suc n) =
      let rest = deny_entries_from bytes (i + 1) n in
      elim (api.rroot_read_deny_entry bytes (i % 2 ^ 8)) [ some entry ↦ entry ∷ rest | none ↦ rest ]

  -- What `read_on_chain_deny_list` makes of the account.
  unfoldable pub deny_list_of : Option Bytes → List Bytes
  unfolding deny_entries_from
  deny_list_of none = []
  deny_list_of (some bytes) =
      let live = min (api.rroot_read_deny_list_len bytes) api.rewardz_deny_list_max in
      if ltb (length bytes) api.rewardz_root_len then [] else deny_entries_from bytes 0 live

  -- What `load_current_epoch` makes of the account.
  unfoldable pub epoch_of : Option Bytes → Option ℕ
  epoch_of none = none
  epoch_of (some bytes) =
      if ltb (length bytes) api.rewardz_root_len
      then none
      else some (api.rroot_read_u64 bytes api.off_epoch)

  -- What `read_onchain_rewardz_root` makes of the account.
  unfoldable pub root_and_epoch_of : Option Bytes → Option (Hash × ℕ)
  root_and_epoch_of none = none
  root_and_epoch_of (some bytes) =
      if ltb (length bytes) api.rewardz_root_len
      then none
      else some (api.rroot_read_root bytes, api.rroot_read_u64 bytes api.off_epoch)

  module _ (sdk : Sdk) where
    open sdk use {find_program_address, from_str, to_string}

    abbrev pub rewardz_root_pda : Pubkey → Pubkey
    rewardz_root_pda program_id = find_program_address (api.rewardz_root_seed ∷ []) program_id

    -- `rows.iter().filter_map(..)`: rows with a malformed authority or no amount are dropped.
    unfoldable pub entries_of : List RewardzEarningsRow → List Entry
    entries_of [] = []
    entries_of (r ∷ rows) =
        let rest = entries_of rows in
        elim (from_str r.protocol_authority) [
          | none ↦ rest
          | some pk ↦
              if leb_ℤ r.cumulative_amount (pos 0)
              then rest
              else (pk, as_u64 r.cumulative_amount) ∷ rest
        ]

    abbrev pub set_rewardz_root_ix : Pubkey → Pubkey → Hash → ℕ → ℕ → List Bytes → Instruction
    set_rewardz_root_ix keypair program_id root epoch total deny_list = record {
      program_id = program_id;
      accounts =
          meta keypair true
          ∷ readonly_meta (find_program_address (api.config_seed ∷ []) program_id) false
          ∷ meta (rewardz_root_pda program_id) false
          ∷ readonly_meta system_program_id false
          ∷ [];
      payload = set_rewardz_root_data root epoch total deny_list;
    }

    module _ (keccak256 : Bytes → Bytes) (env : RewardzEnv) {World : Type 0} (rpc : Rpc World)
        (pg : Pg World) where
      unfoldable pub read_on_chain_deny_list : Pubkey → Io World (List Bytes)
      read_on_chain_deny_list pda = do
        account ← ask (rpc.get_account_with_commitment pda)
        pure (deny_list_of account)

      unfoldable pub load_current_epoch : Pubkey → Io World (Option ℕ)
      load_current_epoch program_id = do
        account ← ask (rpc.get_account_with_commitment (rewardz_root_pda program_id))
        pure (epoch_of account)

      unfoldable pub read_onchain_rewardz_root : Pubkey → Io World (Option (Hash × ℕ))
      read_onchain_rewardz_root program_id = do
        account ← ask (rpc.get_account_with_commitment (rewardz_root_pda program_id))
        pure (root_and_epoch_of account)

      -- Steps 4 and 5: the transaction, and the records, whose failure is only logged.
      unfoldable pub submit_root : Pubkey → Pubkey → ℕ → Hash → List Entry → ℕ → Io World Unit
      submit_root keypair program_id epoch root entries cutoff = do
        deny_list ← read_on_chain_deny_list (rewardz_root_pda program_id)
        sig ←
            send_instruction rpc keypair
              (set_rewardz_root_ix keypair program_id root epoch (total_of entries) deny_list)
        attempt (
            run_sql pg (
              record_rewardz_root_publish (as_i64 epoch) root sig (total_of entries)
                (map (λ (pk, _). to_string pk) entries) cutoff))
        pure tt

      -- Steps 2, 3 and 6: the cap, the tree and the dry run.
      unfoldable pub publish_rows :
          Pubkey → Pubkey → ℕ → LeagueConfig → List RewardzEarningsRow → ℕ → Io World Unit
      publish_rows keypair program_id epoch cfg rows cutoff =
          if ltb cfg.max_rewardz_per_epoch (total_of (entries_of rows))
          then lift (err "cumulative rewardz total exceeds per-epoch cap")
          else do
            tree ← lift (build_rewardz_tree keccak256 false (entries_of rows))
            if is_dry_run env
                then pure tt
                else submit_root keypair program_id epoch (root_or_zero tree) (entries_of rows)
                    cutoff

      -- `cfg` is what `load_league_config`, the first call of the source, returns; it may panic.
      unfoldable pub publish_rewardz_root : Pubkey → Pubkey → ℕ → LeagueConfig → Io World Unit
      publish_rewardz_root keypair program_id epoch cfg = do
        cutoff ← run_sql pg select_now
        rows ← run_sql pg get_rewardz_earnings_grouped
        publish_rows keypair program_id epoch cfg rows cutoff

      -- The end of a turn: the next epoch is published, and a failure is only logged. A panic on an
      -- unknown network is not caught and is the error of the turn.
      unfoldable pub publish_next : Pubkey → Pubkey → ℕ → ℕ → Io World ℕ
      publish_next keypair program_id current last_known_epoch = do
        cfg ← lift (load_league_config env.solana_network)
        attempt (publish_rewardz_root keypair program_id ((current + 1) % 2 ^ 64) cfg)
        pure last_known_epoch

      -- The `match` on the epoch that was read.
      unfoldable pub tick_on : Pubkey → Pubkey → ℕ → Result (Option ℕ) → Io World ℕ
      tick_on keypair program_id last_known_epoch (ok (some e)) =
          publish_next keypair program_id e e
      tick_on keypair program_id last_known_epoch (ok none) =
          if ltb 0 last_known_epoch
          then pure last_known_epoch
          else publish_next keypair program_id 0 last_known_epoch
      tick_on keypair program_id last_known_epoch (err e) = pure last_known_epoch

      -- One turn of the loop, from one `last_known_epoch` to the next.
      unfoldable pub rewardz_publisher_tick : Pubkey → Pubkey → ℕ → Io World ℕ
      rewardz_publisher_tick keypair program_id last_known_epoch = do
        answer ← attempt (load_current_epoch program_id)
        tick_on keypair program_id last_known_epoch answer

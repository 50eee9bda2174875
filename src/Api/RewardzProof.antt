-- ===== src/Api/RewardzProof.antt =====
-- src/api.rs: the handler of GET /rewardz/proof/:authority. The text of the time until which a proof
-- is valid is left as its number of seconds.
pub mod Served
use mathlib.Core.Option
use keeper_bot.Base.{
  ℕ, ℤ, ◌+ℤ◌, Bool, true, false, not, Option, none, some, List, [], ◌∷◌, map, if◌then◌else◌, Bytes,
  bytes_eq, to_le_bytes, String, Result, ok, err,
}
use keeper_bot.Base.Maps.{HashMap, lookup, insert}
use keeper_bot.Hex
use keeper_bot.Merkle.{Hash, Entry}
use keeper_bot.RewardzMerkle.{RewardzMerkleTree, build_rewardz_tree}
use keeper_bot.Chain.{Pubkey, Rpc, Sdk, Session, Io, pure, lift, attempt, ◌>>=◌}
use keeper_bot.Db.{Pg, run_sql, RewardzEarningsRow, get_rewardz_earnings_grouped}
use keeper_bot.RewardzPublisher.{RewardzApi, RewardzEnv, entries_of, read_onchain_rewardz_root}
use keeper_bot.Api.{Response, json, error}

pub record RewardzProofResponse : Type 0 where
  pub cumulative_amount : ℕ
  pub epoch : ℕ
  pub proof : List Bytes
  pub root : Bytes
  pub valid_until : ℤ

-- `format!("0x{}", hex::encode(h))`.
abbrev pub prefixed_hex : Hash → Bytes
prefixed_hex h = 48 ∷ 120 ∷ Hex.encode h

-- `entries.into_iter().collect()` into a map: a later entry replaces an earlier one.
unfoldable pub amounts_of : List Entry → HashMap ℕ → HashMap ℕ
amounts_of [] amounts = amounts
amounts_of ((pk, amount) ∷ es) amounts = amounts_of es (insert pk amount amounts)

-- Steps 6 and 7.
unfoldable pub answer_leaf :
    Hash → ℕ → ℤ → Option ℕ → Option (List Hash) → Response RewardzProofResponse
answer_leaf root epoch valid_until (some amount) (some proof) = json (record {
  cumulative_amount = amount;
  epoch = epoch;
  proof = map prefixed_hex proof;
  root = prefixed_hex root;
  valid_until = valid_until;
})
answer_leaf root epoch valid_until (some amount) none =
    error 404 "No rewardz earnings for authority"
answer_leaf root epoch valid_until none proof = error 404 "No rewardz earnings for authority"

-- Step 5, the match of the rebuilt tree with the root on the chain, and what follows.
unfoldable pub answer_tree :
    Pubkey → Hash → ℕ → ℤ → List Entry → Option RewardzMerkleTree → Response RewardzProofResponse
answer_tree target root epoch valid_until entries none =
    if bytes_eq root (to_le_bytes 32 0)
    then error 404 "No rewardz earnings recorded yet"
    else error 503 "Keeper state diverged from chain — DB empty but on-chain root is non-zero"
answer_tree target root epoch valid_until entries (some tree) =
    if not (bytes_eq tree.root root)
    then error 503 "Keeper has unpublished earnings — retry after next publish"
    else answer_leaf root epoch valid_until (lookup target (amounts_of entries []))
        (lookup target tree.proofs)

module _ (api : RewardzApi) (sdk : Sdk) (keccak256 : Bytes → Bytes) (env : RewardzEnv)
    {World : Type 0} (rpc : Rpc World) (pg : Pg World) where
  -- Steps 3 and 4: the rows, the entries and the tree.
  unfoldable pub answer_rows :
      Pubkey
      → Hash
      → ℕ
      → ℤ
      → Result (List RewardzEarningsRow)
      → Io World (Response RewardzProofResponse)
  answer_rows target root epoch valid_until (err e) = pure (error 500 "Database error")
  answer_rows target root epoch valid_until (ok rows) = do
    tree ← lift (build_rewardz_tree keccak256 false (entries_of api sdk rows))
    pure (answer_tree target root epoch valid_until (entries_of api sdk rows) tree)

  -- Step 2: the root on the chain.
  unfoldable pub answer_onchain :
      Pubkey → ℤ → Result (Option (Hash × ℕ)) → Io World (Response RewardzProofResponse)
  answer_onchain target valid_until (err e) = pure (error 503 "Could not read on-chain RewardzRoot")
  answer_onchain target valid_until (ok none) =
      pure (error 503 "RewardzRoot not yet initialised on-chain")
  answer_onchain target valid_until (ok (some (root, epoch))) = do
    rows ← attempt (run_sql pg get_rewardz_earnings_grouped)
    answer_rows target root epoch valid_until rows

  -- `interval` is `rewardz_publish_interval_secs` of the state.
  unfoldable pub get_rewardz_proof :
      Pubkey → ℤ → String → ℤ → Io World (Response RewardzProofResponse)
  get_rewardz_proof program_id interval authority now = elim (sdk.from_str authority) [
    | none ↦ pure (error 400 "Invalid authority pubkey")
    | some target ↦ do
      onchain ← attempt (read_onchain_rewardz_root api sdk keccak256 env rpc pg program_id)
      answer_onchain target (now +ℤ interval) onchain
  ]

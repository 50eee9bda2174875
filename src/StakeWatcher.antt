-- ===== src/StakeWatcher.antt =====
-- src/stake_watcher.rs: the cron that mirrors each protocol's stake and unlocks its capacity once.
pub mod Sticky
use mathlib.Core.Option
use keeper_bot.Base.{
  ℕ, ◌+◌, ◌*◌, ◌-◌, ◌^◌, min, ℤ, pos, Bool, true, false, not, ◌&&◌, Option, none, some, List, [],
  ◌∷◌, ◌++◌, map, ◌==◌, ltb, if◌then◌else◌, length, take, drop, Bytes, from_le_bytes, codes, String,
  Result, ok, err,
}
use keeper_bot.Chain.{Pubkey, Rpc, Sdk, Session, Io, pure, lift, attempt, ask, ◌>>=◌, ◌>>◌}
use keeper_bot.LeagueConfig.{LeagueConfig}
use keeper_bot.Tables
use keeper_bot.Tables.{Tables, ProtocolEventRow, Json, number, digits}
use keeper_bot.Db.{Pg, run_sql, where_rows, is_null, eq_ℤ}

abbrev protocol_stake_seed : Bytes
protocol_stake_seed = codes "protocol_stake"

abbrev pub off_direct_stake : ℕ
off_direct_stake = 2 + 32

abbrev pub off_rented_stake : ℕ
off_rented_stake = 2 + 40

abbrev pub min_account_len : ℕ
min_account_len = off_rented_stake + 8

abbrev pub i64_max : ℕ
i64_max = 2 ^ 63 - 1

pub record ProtocolRow : Type 0 where
  pub id : ℕ
  pub admin_wallet : String
  pub active_stake : Option ℤ
  pub already_unlocked : Bool

abbrev pub protocol_row : Tables.ProtocolRow → ProtocolRow
protocol_row p = record {
  id = p.id;
  admin_wallet = p.admin_wallet;
  active_stake = p.active_stake;
  already_unlocked = not (is_null p.capacity_unlocked_at);
}

-- `WHERE referral_code IS NOT NULL`.
unfoldable pub load_protocols : Tables → Result (List ProtocolRow × Tables)
load_protocols t = ok (
  map protocol_row
      (where_rows (λ (p : Tables.ProtocolRow). not (is_null p.referral_code)) t.protocols),
  t,
)

-- `a.saturating_add(b)` on `u64`.
abbrev pub saturating_add : ℕ → ℕ → ℕ
saturating_add a b = min (a + b) (2 ^ 64 - 1)

-- What `read_active_stake` makes of the account.
unfoldable pub stake_of : Option Bytes → Result (Option ℕ)
stake_of none = ok none
stake_of (some bytes) =
    if ltb (length bytes) min_account_len
    then err "ProtocolStake account too small"
    else ok (
        some (
          saturating_add (from_le_bytes (take 8 (drop off_direct_stake bytes)))
            (from_le_bytes (take 8 (drop off_rented_stake bytes)))))

-- `prev_stake == Some(observed)`, and its negation for SQL's IS DISTINCT FROM.
abbrev pub is_stake : Option ℤ → ℤ → Bool
is_stake none observed = false
is_stake (some prev) observed = eq_ℤ prev observed

-- The first UPDATE, on one row.
abbrev pub mirror_row : ℕ → ℤ → Tables.ProtocolRow → Tables.ProtocolRow
mirror_row protocol_id observed p =
    if p.id == protocol_id && not (is_stake p.active_stake observed)
    then record p { active_stake = some observed }
    else p

-- The second UPDATE, on one row.
abbrev pub unlock_row : ℕ → ℕ → ℤ → Tables.ProtocolRow → Tables.ProtocolRow
unlock_row now protocol_id new_capacity p =
    if p.id == protocol_id
    then record p {
      remaining_capacity = some new_capacity;
      capacity_window_start = some now;
      capacity_unlocked_at = some now;
    }
    else p

abbrev pub new_capacity_of : LeagueConfig → ℕ → ℕ
new_capacity_of cfg observed_stake = min (cfg.issuance_ratio * observed_stake) i64_max

-- The transaction of `apply_sample`.
unfoldable pub sample_statement : LeagueConfig → ℕ → ℕ → Bool → Tables → Result (Unit {0} × Tables)
sample_statement cfg protocol_id observed_stake is_first_unlock t =
    let mirrored = map (mirror_row protocol_id (pos (min observed_stake i64_max))) t.protocols in
    let new_capacity = new_capacity_of cfg observed_stake in
    let event : ProtocolEventRow = record {
      protocol_id = protocol_id;
      kind = "capacity_unlocked";
      level = "info";
      payload =
          ("active_stake", digits observed_stake)
          ∷ ("issuance_ratio", number cfg.issuance_ratio)
          ∷ ("new_capacity", digits new_capacity)
          ∷ [];
    } in
    if is_first_unlock
    then ok (
      tt,
      record t {
        protocols = map (unlock_row t.now protocol_id (pos new_capacity)) mirrored;
        protocol_events = t.protocol_events ++ event ∷ [];
      },
    )
    else ok (tt, record t { protocols = mirrored })

-- `Ok(true) => unlocked += 1`.
abbrev pub unlocks : Result Bool → ℕ
unlocks (ok true) = 1
unlocks (ok false) = 0
unlocks (err e) = 0

module _ (sdk : Sdk) (cfg : LeagueConfig) {World : Type 0} (rpc : Rpc World) (pg : Pg World) where
  open sdk use {find_program_address, from_str}

  unfoldable pub read_active_stake : Pubkey → Pubkey → Io World (Option ℕ)
  read_active_stake program_id authority = do
    account ← ask (
        rpc.get_account_with_commitment
          (find_program_address (protocol_stake_seed ∷ authority ∷ []) program_id))
    lift (stake_of account)

  unfoldable pub apply_sample : ℕ → ℕ → Option ℤ → Bool → Io World Bool
  apply_sample protocol_id observed_stake prev_stake already_unlocked =
      let is_first_unlock = ltb 0 observed_stake && not already_unlocked in
      if not is_first_unlock && is_stake prev_stake (pos (min observed_stake i64_max))
      then pure false
      else (do
        run_sql pg (sample_statement cfg protocol_id observed_stake is_first_unlock)
        pure is_first_unlock)

  -- What the body of the loop adds to `observed` and to `unlocked`. Every failure is only logged.
  unfoldable pub apply_stake : ProtocolRow → Result (Option ℕ) → Io World (ℕ × ℕ)
  apply_stake proto (ok (some stake)) = do
    applied ← attempt (apply_sample proto.id stake proto.active_stake proto.already_unlocked)
    pure (1, unlocks applied)
  apply_stake proto (ok none) = pure (0, 0)
  apply_stake proto (err e) = pure (0, 0)

  unfoldable pub sample_one : Pubkey → ProtocolRow → Io World (ℕ × ℕ)
  sample_one program_id proto = elim (from_str proto.admin_wallet) [
    | none ↦ pure (0, 0)
    | some authority ↦ do
      stake ← attempt (read_active_stake program_id authority)
      apply_stake proto stake
  ]

  -- `for proto in protocols`, with the counts so far.
  unfoldable pub sample_all : Pubkey → List ProtocolRow → ℕ → ℕ → Io World (ℕ × ℕ)
  sample_all program_id [] observed unlocked = pure (observed, unlocked)
  sample_all program_id (proto ∷ protocols) observed unlocked = do
    (seen, opened) ← sample_one program_id proto
    sample_all program_id protocols (observed + seen) (unlocked + opened)

  unfoldable pub tick : Pubkey → Io World (ℕ × ℕ)
  unfolding sample_all
  tick program_id = do protocols ← run_sql pg load_protocols; sample_all program_id protocols 0 0

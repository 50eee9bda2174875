-- ===== src/Tables.antt =====
-- The tables that the keeper's SQL reads and writes, with the columns that it names. A column of
-- type TIMESTAMPTZ is a number of microseconds, BIGINT an integer, UUID a number, and NULL is `none`.
use keeper_bot.Base.{ℕ, ℤ, Bool, String, Option, List, Bytes}
use keeper_bot.Float64.{Double}

pub record UserRow : Type 0 where
  pub wallet_address : String
  pub total_points : ℤ

pub record BalanceRow : Type 0 where
  pub wallet_address : String
  pub total_earned : ℤ
  pub total_pending : ℤ
  pub total_spent : ℤ
  pub total_reserved : ℤ

-- `merkle_proofs`; the root is hex text.
pub record MerkleProofRow : Type 0 where
  pub epoch : ℤ
  pub root : Bytes
  pub authority : String
  pub amount : ℤ
  pub proof : List Bytes

pub record EarningRow : Type 0 where
  pub protocol_id : ℕ
  pub protocol_authority : String
  pub amount : ℤ
  pub reason : String
  pub milestone_id : Option ℤ
  pub created_at : ℕ
  pub included_in_root_epoch : Option ℤ

pub record RootEpochRow : Type 0 where
  pub epoch : ℤ
  pub merkle_root : Bytes
  pub tx_sig : String
  pub total_included : ℕ

-- `quality_score` is a DECIMAL(5, 4): a number of ten-thousandths.
pub record ProtocolRow : Type 0 where
  pub id : ℕ
  pub admin_wallet : String
  pub status : String
  pub visibility : String
  pub remaining_capacity : Option ℤ
  pub capacity_window_start : Option ℕ
  pub active_stake : Option ℤ
  pub capacity_unlocked_at : Option ℕ
  pub referral_code : Option String
  pub quality_score : Option ℕ

-- A value of a JSON object: `digits` is a text with a number in decimal, `ratio` a decimal number
-- that is written as a quotient.
pub data Json : Type 0 where
  number : ℕ → Json
  integer : ℤ → Json
  digits : ℕ → Json
  ratio : ℕ → ℕ → Json
  double : Double → Json
  text : String → Json
  boolean : Bool → Json
  null : Json

pub record ProtocolEventRow : Type 0 where
  pub protocol_id : ℕ
  pub kind : String
  pub level : String
  pub payload : List (String × Json)

pub record PointEventRow : Type 0 where
  pub protocol_id : ℕ
  pub user_wallet : String
  pub event_type : String
  pub created_at : ℕ

pub record AbuseFlagRow : Type 0 where
  pub protocol_id : ℕ
  pub kind : String
  pub severity : String
  pub evidence : List (String × Json)
  pub resolved_at : Option ℕ

-- `wallet_weights`; a weight is counted in ten-thousandths, as those of the configuration are.
pub record WalletWeightRow : Type 0 where
  pub protocol_id : ℕ
  pub wallet : String
  pub weight : ℤ

pub record MilestoneRow : Type 0 where
  pub id : ℤ
  pub slug : String
  pub bucket : String

pub record MilestoneRewardRow : Type 0 where
  pub milestone_id : ℤ
  pub network : String
  pub rewardz_amount : ℤ

pub record SubscriptionRow : Type 0 where
  pub subscription_id : String
  pub wallet_address : String
  pub intent_query : String
  pub auto_execute : Bool
  pub status : String
  pub streak_current : ℤ
  pub streak_longest : ℤ
  pub multiplier : Double
  pub frequency : String
  pub last_executed_at : Option ℕ
  pub next_due_at : ℕ
  pub updated_at : ℕ

-- `league_leaderboard_snapshots`; a date is its text.
pub record SnapshotRow : Type 0 where
  pub snapshot_date : String
  pub rank : ℕ
  pub protocol_id : ℕ
  pub unique_wallets : ℕ
  pub repeat_users : ℕ
  pub successful_completions : ℕ
  pub bonus_awarded : ℤ
  pub featured : Bool

-- `now` is what `NOW()` answers in the running transaction.
pub record Tables : Type 0 where
  pub now : ℕ
  pub users : List UserRow
  pub user_balances : List BalanceRow
  pub merkle_proofs : List MerkleProofRow
  pub rewardz_earnings : List EarningRow
  pub rewardz_root_epochs : List RootEpochRow
  pub protocols : List ProtocolRow
  pub protocol_events : List ProtocolEventRow
  pub point_events : List PointEventRow
  pub abuse_flags : List AbuseFlagRow
  pub wallet_weights : List WalletWeightRow
  pub milestones : List MilestoneRow
  pub milestone_rewards : List MilestoneRewardRow
  pub subscriptions : List SubscriptionRow
  pub league_leaderboard_snapshots : List SnapshotRow

-- ===== src/LeagueConfig.antt =====
-- src/league_config.rs: the configuration of the league for each network. An `f64` of this file is
-- a weight or a threshold that is written with at most two decimals; it is counted here in
-- ten-thousandths, in which every literal of the file is a whole number.
use keeper_bot.Base.{ℕ, String, Option, none, some, Result, ok, err, str_eq, if◌then◌else◌, ◌||◌}

pub data Network : Type 0 where
  devnet : Network
  mainnet : Network

pub data ResetCadence : Type 0 where
  weekly : ResetCadence
  yearly : ResetCadence

abbrev pub F64 : Type 0
F64 = ℕ

pub record QualityWeights : Type 0 where
  pub u : F64
  pub r : F64
  pub c : F64
  pub s : F64

pub record ActivationMilestones : Type 0 where
  pub first_blink : ℕ
  pub first_stake : ℕ
  pub first_issuance : ℕ
  pub first_five_unique_wallets : ℕ
  pub first_repeat_user : ℕ

pub record GrowthMilestones : Type 0 where
  pub twenty_five_unique_wallets : ℕ
  pub ten_repeat_users : ℕ

pub record SocialMilestones : Type 0 where
  pub follow : ℕ
  pub launch_thread : ℕ

pub record Milestones : Type 0 where
  pub activation : ActivationMilestones
  pub growth : GrowthMilestones
  pub social : SocialMilestones

pub record WalletWeights : Type 0 where
  pub founder : F64
  pub team : F64
  pub external : F64
  pub external_repeat_after_gap : F64

pub record DailyCaps : Type 0 where
  pub self_points : ℕ
  pub social : ℕ
  pub referral : ℕ

pub record RankingWeights : Type 0 where
  pub quality : F64
  pub unique_wallets : F64
  pub repeat_users : F64
  pub completions : F64

pub record LeagueConfig : Type 0 where
  pub network : Network
  pub starter_grant_rewardz : ℕ
  pub issuance_ratio : ℕ
  pub capacity_reset_cadence : ResetCadence
  pub capacity_warning_thresholds : F64 × F64 × F64
  pub quality_weights : QualityWeights
  pub milestones : Milestones
  pub wallet_weights : WalletWeights
  pub repeat_gap_hours : ℕ
  pub daily_caps : DailyCaps
  pub rewardz_publish_interval_secs : ℕ
  pub max_rewardz_per_epoch : ℕ
  pub activity_window_hours : ℕ
  pub inactivity_window_hours : ℕ
  pub ranking_weights : RankingWeights
  pub leaderboard_top_n : ℕ
  pub leaderboard_bonus_rewardz : ℕ

-- `DEVNET`.
abbrev pub devnet_config : LeagueConfig
devnet_config = record {
  network = devnet;
  starter_grant_rewardz = 100;
  issuance_ratio = 10;
  capacity_reset_cadence = weekly;
  capacity_warning_thresholds = (2500, 1000, 0);
  quality_weights = record { u = 4000; r = 3000; c = 2000; s = 1000 };
  milestones = record {
    activation = record {
      first_blink = 100;
      first_stake = 100;
      first_issuance = 150;
      first_five_unique_wallets = 150;
      first_repeat_user = 100;
    };
    growth = record { twenty_five_unique_wallets = 100; ten_repeat_users = 150 };
    social = record { follow = 10; launch_thread = 25 };
  };
  wallet_weights = record {
    founder = 2500;
    team = 5000;
    external = 10000;
    external_repeat_after_gap = 12500;
  };
  repeat_gap_hours = 24;
  daily_caps = record { self_points = 25; social = 100; referral = 50 };
  rewardz_publish_interval_secs = 3600;
  max_rewardz_per_epoch = 10000;
  activity_window_hours = 168;
  inactivity_window_hours = 336;
  ranking_weights = record {
    quality = 5000;
    unique_wallets = 2000;
    repeat_users = 2000;
    completions = 1000;
  };
  leaderboard_top_n = 10;
  leaderboard_bonus_rewardz = 50;
}

-- `MAINNET`.
abbrev pub mainnet_config : LeagueConfig
mainnet_config = record {
  network = mainnet;
  starter_grant_rewardz = 0;
  issuance_ratio = 0;
  capacity_reset_cadence = yearly;
  capacity_warning_thresholds = (0, 0, 0);
  quality_weights = record { u = 0; r = 0; c = 0; s = 0 };
  milestones = record {
    activation = record {
      first_blink = 0;
      first_stake = 0;
      first_issuance = 0;
      first_five_unique_wallets = 0;
      first_repeat_user = 0;
    };
    growth = record { twenty_five_unique_wallets = 0; ten_repeat_users = 0 };
    social = record { follow = 0; launch_thread = 0 };
  };
  wallet_weights = record { founder = 0; team = 0; external = 0; external_repeat_after_gap = 0 };
  repeat_gap_hours = 0;
  daily_caps = record { self_points = 0; social = 0; referral = 0 };
  rewardz_publish_interval_secs = 0;
  max_rewardz_per_epoch = 0;
  activity_window_hours = 0;
  inactivity_window_hours = 0;
  ranking_weights = record { quality = 0; unique_wallets = 0; repeat_users = 0; completions = 0 };
  leaderboard_top_n = 0;
  leaderboard_bonus_rewardz = 0;
}

-- The value of SOLANA_NETWORK, if it is set, is the argument. An error is a panic.
unfoldable pub load_league_config : Option String → Result LeagueConfig
load_league_config none = err "Unknown SOLANA_NETWORK"
load_league_config (some network) =
    if str_eq network "devnet" || str_eq network "localnet"
    then ok devnet_config
    else if str_eq network "mainnet" || str_eq network "mainnet-beta"
    then ok mainnet_config
    else err "Unknown SOLANA_NETWORK"

-- ===== src/Config.antt =====
-- src/config.rs: the configuration that is read from the environment. An error is a panic, and its
-- message is that of the panic without the reason.
pub mod Decimal
use keeper_bot.Base.{
  ℕ, ◌+◌, ◌-◌, ◌*◌, ◌^◌, ℤ, pos, negsuc, Bool, ◌&&◌, Option, none, some, List, [], ◌∷◌, ◌==◌, ltb,
  leb, if◌then◌else◌, Bytes, codes, String, str_append, Result, ok, err, ok_or, ◌>>=◌,
}
use keeper_bot.Chain.{Pubkey, Sdk}

pub record Config : Type 0 where
  pub database_url : String
  pub solana_rpc_url : String
  pub api_listen_addr : String
  pub point_root_interval_secs : ℕ
  pub rental_settle_interval_secs : ℕ
  pub subscription_poll_interval_secs : ℕ
  pub game_loop_interval_secs : ℕ
  pub capacity_reset_interval_secs : ℕ
  pub quality_score_interval_secs : ℕ
  pub milestone_processor_interval_secs : ℕ
  pub anti_abuse_interval_secs : ℕ
  pub visibility_tick_interval_secs : ℕ
  pub leaderboard_interval_secs : ℕ
  pub stake_watcher_interval_secs : ℕ
  pub rewardz_publish_interval_secs : ℕ
  pub points_request_ttl_seconds : ℤ
  pub points_receipt_ttl_seconds : ℤ
  pub points_cors_origins : String
  pub internal_api_key : String
  pub api_base_url : String
  pub program_id : Pubkey

-- `str::parse`: the digits of a number, of which there is at least one.
abbrev pub is_digit : ℕ → Bool
is_digit c = leb 48 c && leb c 57

unfoldable pub digits_from : ℕ → Bytes → Option ℕ
digits_from n [] = some n
digits_from n (c ∷ cs) =
    let rest = digits_from (n * 10 + (c - 48)) cs in if is_digit c then rest else none

unfoldable pub digits_of : Bytes → Option ℕ
unfolding digits_from
digits_of [] = none
digits_of (c ∷ cs) = digits_from 0 (c ∷ cs)

-- A sign may stand before them.
abbrev pub unsigned_part : Bytes → Bytes
unsigned_part [] = []
unsigned_part (c ∷ cs) = if c == 43 then cs else c ∷ cs

abbrev pub in_u64 : Option ℕ → Option ℕ
in_u64 none = none
in_u64 (some n) = if ltb n (2 ^ 64) then some n else none

unfoldable pub parse_u64 : Bytes → Option ℕ
unfolding digits_of
parse_u64 text = in_u64 (digits_of (unsigned_part text))

abbrev pub in_i64 : Option ℕ → Option ℤ
in_i64 none = none
in_i64 (some n) = if ltb n (2 ^ 63) then some (pos n) else none

abbrev pub negative_i64 : Option ℕ → Option ℤ
negative_i64 none = none
negative_i64 (some n) =
    if n == 0 then some (pos 0) else if leb n (2 ^ 63) then some (negsuc (n - 1)) else none

unfoldable pub parse_i64 : Bytes → Option ℤ
unfolding digits_of
parse_i64 [] = none
parse_i64 (c ∷ cs) =
    if c == 45 then negative_i64 (digits_of cs) else in_i64 (digits_of (unsigned_part (c ∷ cs)))

-- `std::env::var(..).unwrap_or_else(..)`.
abbrev pub or_default : Option String → String → String
or_default none default = default
or_default (some value) default = value

-- `env` is the environment, and `read_keypair_file` the function of the solana crate.
module _ (env : String → Option String) where
  abbrev pub required : String → Result String
  required name = ok_or (env name) (str_append name " is required")

  abbrev pub u64_var : String → String → Result ℕ
  u64_var name default =
      ok_or (parse_u64 (codes (or_default (env name) default))) (str_append name " must be a u64")

  abbrev pub i64_var : String → String → Result ℤ
  i64_var name default =
      ok_or (parse_i64 (codes (or_default (env name) default))) (str_append name " must be i64")

  module _ (sdk : Sdk) (read_keypair_file : String → Result Pubkey) where
    unfoldable pub load : Result (Config × Pubkey)
    load = do
      database_url ← required "DATABASE_URL"
      keypair_path ← required "KEYPAIR"
      keypair ← read_keypair_file keypair_path
      point_root ← u64_var "POINT_ROOT_INTERVAL_SECS" "28800"
      rental_settle ← u64_var "RENTAL_SETTLE_INTERVAL_SECS" "604800"
      subscription_poll ← u64_var "SUBSCRIPTION_POLL_INTERVAL_SECS" "60"
      game_loop ← u64_var "GAME_LOOP_INTERVAL_SECS" "15"
      capacity_reset ← u64_var "CAPACITY_RESET_INTERVAL_SECS" "3600"
      quality_score ← u64_var "QUALITY_SCORE_INTERVAL_SECS" "3600"
      milestone_processor ← u64_var "MILESTONE_PROCESSOR_INTERVAL_SECS" "300"
      anti_abuse ← u64_var "ANTI_ABUSE_INTERVAL_SECS" "3600"
      visibility_tick ← u64_var "VISIBILITY_TICK_INTERVAL_SECS" "900"
      leaderboard ← u64_var "LEADERBOARD_INTERVAL_SECS" "86400"
      stake_watcher ← u64_var "STAKE_WATCHER_INTERVAL_SECS" "60"
      rewardz_publish ← u64_var "REWARDZ_PUBLISH_INTERVAL_SECS" "3600"
      points_request_ttl_seconds ← i64_var "POINTS_REQUEST_TTL_SECONDS" "300"
      points_receipt_ttl_seconds ← i64_var "POINTS_RECEIPT_TTL_SECONDS" "600"
      internal_api_key ← required "INTERNAL_API_KEY"
      program_id_str ← required "PROGRAM_ID"
      program_id ← ok_or (sdk.from_str program_id_str) "Invalid PROGRAM_ID"
      ok (
        record {
          database_url = database_url;
          solana_rpc_url = or_default (env "SOLANA_RPC_URL") "http://127.0.0.1:8899";
          api_listen_addr = or_default (env "API_LISTEN_ADDR") "0.0.0.0:8081";
          point_root_interval_secs = point_root;
          rental_settle_interval_secs = rental_settle;
          subscription_poll_interval_secs = subscription_poll;
          game_loop_interval_secs = game_loop;
          capacity_reset_interval_secs = capacity_reset;
          quality_score_interval_secs = quality_score;
          milestone_processor_interval_secs = milestone_processor;
          anti_abuse_interval_secs = anti_abuse;
          visibility_tick_interval_secs = visibility_tick;
          leaderboard_interval_secs = leaderboard;
          stake_watcher_interval_secs = stake_watcher;
          rewardz_publish_interval_secs = rewardz_publish;
          points_request_ttl_seconds = points_request_ttl_seconds;
          points_receipt_ttl_seconds = points_receipt_ttl_seconds;
          points_cors_origins = or_default (env "POINTS_CORS_ORIGINS") "*";
          internal_api_key = internal_api_key;
          api_base_url = or_default (env "API_BASE_URL") "http://127.0.0.1:3001";
          program_id = program_id;
        },
        keypair,
      )

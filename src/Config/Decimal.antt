-- ===== src/Config/Decimal.antt =====
-- src/config.rs: numbers in decimal, and the defaults.
use keeper_bot.Base.{
  ℕ, zero, suc, ◌+◌, ◌-◌, ◌*◌, ◌/◌, ◌%◌, ◌^◌, ◌<◌, ◌≡◌, refl, sym, ◌∙◌, ap, pos, true, false,
  Option, none, some, [], ◌∷◌, ◌++◌, ◌==◌, ltb, Bool-cases, inl, inr, if◌then◌else◌, Bytes, String,
  str_eq, Result, ok, arith,
}
use keeper_bot.Chain.{Pubkey, Sdk}
use keeper_bot.Config.{Config, is_digit, digits_from, digits_of, parse_u64, parse_i64, load}

-- A number in decimal, with as many rounds as digits at most.
unfoldable pub decimal_from : ℕ → ℕ → Bytes
decimal_from zero n = []
decimal_from (suc fuel) n =
    let rest = decimal_from fuel (n / 10) in
    if ltb n 10 then (48 + n) ∷ [] else rest ++ (48 + n % 10) ∷ []

abbrev pub decimal : ℕ → Bytes
decimal n = decimal_from (suc n) n

digits_from-snoc :
    (a m d : ℕ) (cs : Bytes)
    → d < 10
    → digits_from a cs ≡ some m
    → digits_from a (cs ++ (48 + d) ∷ []) ≡ some (m * 10 + d)
unfolding digits_from
digits_from-snoc a m d [] small e = ground (arith, small, e)
digits_from-snoc a m d (c ∷ cs) small e =
    ground (arith, small, e, digits_from-snoc (a * 10 + (c - 48)) m d cs small)

digits_from-decimal_from : (fuel n : ℕ) → n < fuel → digits_from 0 (decimal_from fuel n) ≡ some n
unfolding decimal_from digits_from
digits_from-decimal_from zero n h = absurd (ground (arith, h))
digits_from-decimal_from (suc fuel) n h = elim (Bool-cases (ltb n 10)) [
  | inl small ↦ rw small (ground (arith, small))
  | inr large ↦ rw large (
      digits_from-snoc 0 (n / 10) (n % 10) (decimal_from fuel (n / 10)) (omega arith)
        (digits_from-decimal_from fuel (n / 10) (ground (arith, large, h)))
      ∙ ap some (omega arith))
]

-- A decimal number starts with a digit.
StartsWithDigit : Bytes → Type 0
StartsWithDigit cs = (c : ℕ) × (rest : Bytes) × (cs ≡ c ∷ rest) × (is_digit c ≡ true)

decimal_from-StartsWithDigit : (fuel n : ℕ) → n < fuel → StartsWithDigit (decimal_from fuel n)
unfolding decimal_from StartsWithDigit
decimal_from-StartsWithDigit zero n h = absurd (ground (arith, h))
decimal_from-StartsWithDigit (suc fuel) n h = elim (Bool-cases (ltb n 10)) [
  | inl small ↦ rw small (48 + n, [], refl, ground (arith, small))
  | inr large ↦
      let (c, rest, e, digit) =
        decimal_from-StartsWithDigit fuel (n / 10) (ground (arith, large, h)) in
      rw (large, e) (c, rest ++ (48 + n % 10) ∷ [], refl, digit)
]

-- A number below 2^64 in decimal is parsed as that number.
parse_u64-decimal : (n : ℕ) → n < 2 ^ 64 → parse_u64 (decimal n) ≡ some n
unfolding parse_u64 digits_of StartsWithDigit
parse_u64-decimal n fits =
    let (c, rest, e, digit) = decimal_from-StartsWithDigit (suc n) n (omega arith) in
    let not_plus : (c == 43) ≡ false = ground (arith, digit) in
    let value : digits_from 0 (c ∷ rest) ≡ some n =
      ap (digits_from 0) (sym e) ∙ digits_from-decimal_from (suc n) n (omega arith) in
    rw (e, not_plus, value) (ground (arith, fits))

-- An environment in which only the required variables are set.
abbrev pub only_required : String → String → String → String → String → Option String
only_required database_url keypair_path internal_api_key program_id name =
    if str_eq name "DATABASE_URL"
    then some database_url
    else if str_eq name "KEYPAIR"
    then some keypair_path
    else if str_eq name "INTERNAL_API_KEY"
    then some internal_api_key
    else if str_eq name "PROGRAM_ID"
    then some program_id
    else none

abbrev pub default_config : String → String → Pubkey → Config
default_config database_url internal_api_key program_id = record {
  database_url = database_url;
  solana_rpc_url = "http://127.0.0.1:8899";
  api_listen_addr = "0.0.0.0:8081";
  point_root_interval_secs = 28800;
  rental_settle_interval_secs = 604800;
  subscription_poll_interval_secs = 60;
  game_loop_interval_secs = 15;
  capacity_reset_interval_secs = 3600;
  quality_score_interval_secs = 3600;
  milestone_processor_interval_secs = 300;
  anti_abuse_interval_secs = 3600;
  visibility_tick_interval_secs = 900;
  leaderboard_interval_secs = 86400;
  stake_watcher_interval_secs = 60;
  rewardz_publish_interval_secs = 3600;
  points_request_ttl_seconds = pos 300;
  points_receipt_ttl_seconds = pos 600;
  points_cors_origins = "*";
  internal_api_key = internal_api_key;
  api_base_url = "http://127.0.0.1:3001";
  program_id = program_id;
}

-- If only the required variables are set, the keypair file can be read and the program id is an
-- address, then the configuration is loaded, with the defaults.
load_defaults :
    (database_url keypair_path internal_api_key program_id : String) (sdk : Sdk)
    (read_keypair_file : String → Result Pubkey) (keypair program : Pubkey)
    → read_keypair_file keypair_path ≡ ok keypair
    → sdk.from_str program_id ≡ some program
    → load
        (only_required database_url keypair_path internal_api_key program_id)
        sdk
        read_keypair_file
      ≡ ok (default_config database_url internal_api_key program, keypair)
unfolding load parse_u64 parse_i64 digits_of digits_from
load_defaults database_url keypair_path internal_api_key program_id sdk read_keypair_file keypair
      program read parsed =
    rw (read, parsed) refl

-- ===== src/Start.antt =====
-- src/main.rs: the commands of the process, and what each of them starts. A run is the list of its
-- effects outside the session with its exit; an error of `expect` or `unwrap` is a panic.
pub mod Modes
use keeper_bot.Base.{
  ℕ, ◌+◌, ℤ, pos, Bool, true, false, ◌&&◌, ◌||◌, ◌==◌, leb, ltb, Option, none, some, List, [], ◌∷◌,
  ◌++◌, if◌then◌else◌, Bytes, codes, String, Result, ok, err, ok_or,
}
use keeper_bot.Chain.{Pubkey, Sdk, Rpc, Session}
use keeper_bot.LeagueConfig.{LeagueConfig, load_league_config}
use keeper_bot.GameLoop.{GameApi, StartRoundOutcome, run_start_round_once}
use keeper_bot.Config.{Config, parse_u64, load}
use keeper_bot.Api.{AppState, wrap_i64}

-- `crons_only` is `RunCrons` and `start_round_once` is `StartRound`.
pub data Command : Type 0 where
  serve_api : Command
  crons_only : Command
  full : Command
  print_league_config : Command
  start_round_once : Command

-- The tasks that `run_crons` spawns, one for each of its calls.
pub data Cron : Type 0 where
  publisher_cron : Cron
  rental_cron : Cron
  subscription_cron : Cron
  game_loop_cron : Cron
  cranker_loop : Cron
  capacity_reset_cron : Cron
  quality_score_cron : Cron
  milestone_processor_cron : Cron
  anti_abuse_cron : Cron
  visibility_tick_cron : Cron
  leaderboard_cron : Cron
  stake_watcher_cron : Cron
  rewardz_publisher_cron : Cron

-- The state of the server in `run_api`; its `app` has the fields that the handlers read.
pub record ServerState : Type 0 where
  pub rpc_url : String
  pub keypair : Pubkey
  pub app : AppState
  pub rewardz_publish_interval_secs : ℤ

pub data Event : Type 0 where
  connected : String → Event
  spawned : Cron → ℕ → Event
  listening : String → Event
  serving : ServerState → String → Event
  printed_config : String → Event
  printed_outcome : StartRoundOutcome → Event
  printed_error : String → Event

pub data Exit : Type 0 where
  success : Exit
  failure : Exit
  panicked : String → Exit

-- The calls of the crates that meet the operating system: `PgPoolOptions::connect`,
-- `TcpListener::bind`, `axum::serve` once it returns, `ctrl_c`, and `to_string_pretty` of serde.
pub record Runtime : Type 0 where
  pub connect : String → Result (Unit {0})
  pub bind : String → Result (Unit {0})
  pub serve : Result (Unit {0})
  pub ctrl_c : Result (Unit {0})
  pub to_string_pretty : LeagueConfig → Result String

-- Effects, and a panic if there is one.
abbrev pub Steps : Type 0
Steps = List Event × Result (Unit {0})

infixl 5 ◌>>◌
abbrev pub ◌>>◌ : Steps → Steps → Steps
(events, ok tt) >> (more, r) = (events ++ more, r)
(events, err e) >> next = (events, err e)

abbrev pub emit : Event → Steps
emit event = (event ∷ [], ok tt)

abbrev pub expect {ℓ} : {A : Type ℓ} → Result A → Steps
expect (ok a) = ([], ok tt)
expect (err e) = ([], err e)

-- `trim`: the code points with the property White_Space.
abbrev pub is_whitespace : ℕ → Bool
is_whitespace c =
    (leb 9 c && leb c 13)
    || c == 32
    || c == 133
    || c == 160
    || c == 5760
    || (leb 8192 c && leb c 8202)
    || c == 8232
    || c == 8233
    || c == 8239
    || c == 8287
    || c == 12288

unfoldable pub trim_start : Bytes → Bytes
trim_start [] = []
trim_start (c ∷ cs) = let rest = trim_start cs in if is_whitespace c then rest else c ∷ cs

abbrev pub with_blank : ℕ → Bytes → Bytes
with_blank c [] = if is_whitespace c then [] else c ∷ []
with_blank c (d ∷ cs) = c ∷ d ∷ cs

unfoldable pub trim_end : Bytes → Bytes
trim_end [] = []
trim_end (c ∷ cs) = with_blank c (trim_end cs)

abbrev pub to_ascii_lowercase : Bytes → Bytes
to_ascii_lowercase [] = []
to_ascii_lowercase (c ∷ cs) = (if leb 65 c && leb c 90 then c + 32 else c) ∷ to_ascii_lowercase cs

unfoldable pub bytes_eq : Bytes → Bytes → Bool
bytes_eq [] [] = true
bytes_eq [] (d ∷ ds) = false
bytes_eq (c ∷ cs) [] = false
bytes_eq (c ∷ cs) (d ∷ ds) = c == d && bytes_eq cs ds

-- The test of `start_cranker_loop`.
unfoldable pub cranker_enabled : Option String → Bool
unfolding trim_start trim_end bytes_eq
cranker_enabled none = false
cranker_enabled (some value) =
    let text = to_ascii_lowercase (trim_end (trim_start (codes value))) in
    bytes_eq text (codes "true") || bytes_eq text (codes "1") || bytes_eq text (codes "yes")

-- `override_secs` of src/capacity_reset.rs.
abbrev pub override_of : Option ℕ → Result (Option ℕ)
override_of (some secs) = ok (some secs)
override_of none = err "LEAGUE_CAPACITY_RESET_OVERRIDE_SECS must be u64"

abbrev pub override_secs : Option String → Result (Option ℕ)
override_secs none = ok none
override_secs (some text) = override_of (parse_u64 (codes text))

module _ (env : String → Option String) where
  -- A starter that loads the league configuration before it spawns its task.
  abbrev pub start_league_cron : Cron → ℕ → Steps
  start_league_cron cron interval_secs = do
    expect (load_league_config (env "SOLANA_NETWORK"))
    emit (spawned cron interval_secs)

  abbrev pub start_capacity_reset_cron : ℕ → Steps
  start_capacity_reset_cron interval_secs = do
    expect (load_league_config (env "SOLANA_NETWORK"))
    expect (override_secs (env "LEAGUE_CAPACITY_RESET_OVERRIDE_SECS"))
    emit (spawned capacity_reset_cron interval_secs)

  abbrev pub start_cranker_loop : ℕ → Steps
  start_cranker_loop interval_secs =
      if cranker_enabled (env "KEEPER_RUN_CRANKER")
      then emit (spawned cranker_loop interval_secs)
      else ([], ok tt)

  unfoldable pub run_crons : Config → Steps
  run_crons config = do
    emit (spawned publisher_cron config.point_root_interval_secs)
    emit (spawned rental_cron config.rental_settle_interval_secs)
    emit (spawned subscription_cron config.subscription_poll_interval_secs)
    emit (spawned game_loop_cron config.game_loop_interval_secs)
    start_cranker_loop config.game_loop_interval_secs
    start_capacity_reset_cron config.capacity_reset_interval_secs
    start_league_cron quality_score_cron config.quality_score_interval_secs
    start_league_cron milestone_processor_cron config.milestone_processor_interval_secs
    start_league_cron anti_abuse_cron config.anti_abuse_interval_secs
    start_league_cron visibility_tick_cron config.visibility_tick_interval_secs
    start_league_cron leaderboard_cron config.leaderboard_interval_secs
    start_league_cron stake_watcher_cron config.stake_watcher_interval_secs
    emit (spawned rewardz_publisher_cron config.rewardz_publish_interval_secs)

-- The `AppState` of `run_api`.
abbrev pub server_state : Config → Pubkey → ServerState
server_state config keypair = record {
  rpc_url = config.solana_rpc_url;
  keypair = keypair;
  app = record {
    program_id = config.program_id;
    points_request_ttl_seconds = config.points_request_ttl_seconds;
    points_receipt_ttl_seconds = config.points_receipt_ttl_seconds;
  };
  rewardz_publish_interval_secs = wrap_i64 (pos config.rewardz_publish_interval_secs);
}

module _ (runtime : Runtime) where
  unfoldable pub run_api : Config → Pubkey → Steps
  run_api config keypair = do
    expect (runtime.bind config.api_listen_addr)
    emit (listening config.api_listen_addr)
    emit (serving (server_state config keypair) config.points_cors_origins)
    expect runtime.serve

-- `ExitCode::SUCCESS`, unless there was a panic.
abbrev pub exit_of : Result (Unit {0}) → Exit
exit_of (ok tt) = success
exit_of (err e) = panicked e

abbrev pub ended : Steps → List Event × Exit
ended (events, r) = (events, exit_of r)

-- The `match` on the outcome of `run_start_round_once`.
abbrev pub report : Result StartRoundOutcome → List Event × Exit
report (ok outcome) = (printed_outcome outcome ∷ [], success)
report (err e) = (printed_error e ∷ [], failure)

module _ (env : String → Option String) (runtime : Runtime) where
  -- `println!("{}", league_config::dump_json())`.
  abbrev pub dump_json : Result String
  dump_json = elim (load_league_config (env "SOLANA_NETWORK")) [
    | ok config ↦ runtime.to_string_pretty config
    | err e ↦ err e
  ]

  abbrev pub print_dump : Result String → List Event × Exit
  print_dump (ok json) = (printed_config json ∷ [], success)
  print_dump (err e) = ([], panicked e)

  -- The second `match command`; the commands that never reach it are left out by `main`.
  abbrev pub dispatch : Command → Config → Pubkey → Steps
  dispatch serve_api config keypair = run_api runtime config keypair
  dispatch crons_only config keypair = do run_crons env config; expect runtime.ctrl_c
  dispatch full config keypair = do run_crons env config; run_api runtime config keypair
  dispatch print_league_config config keypair = ([], err "handled before config load")
  dispatch start_round_once config keypair = ([], err "handled before DB pool creation")

  -- From `Create DB pool` on.
  abbrev pub run_service : Command → Config → Pubkey → Steps
  run_service command config keypair = do
    expect (runtime.connect config.database_url)
    emit (connected config.database_url)
    dispatch command config keypair

  module _ (sdk : Sdk) (read_keypair_file : String → Result Pubkey) where
    abbrev pub service_of : Command → Result (Config × Pubkey) → List Event × Exit
    service_of command (ok (config, keypair)) = ended (run_service command config keypair)
    service_of command (err e) = ([], panicked e)

    module _ {World : Type 0} (api : GameApi) (rpc : String → Rpc World) where
      abbrev pub start_round_of :
          Result (Config × Pubkey) → Session World → (List Event × Exit) × Session World
      start_round_of (ok (config, keypair)) s =
          let (r, s') =
            run_start_round_once api sdk (rpc config.solana_rpc_url) keypair config.program_id s in
          (report r, s')
      start_round_of (err e) s = (([], panicked e), s)

      abbrev pub run_command : Command → Session World → (List Event × Exit) × Session World
      run_command print_league_config s = (print_dump dump_json, s)
      run_command start_round_once s = start_round_of (load env sdk read_keypair_file) s
      run_command serve_api s = (service_of serve_api (load env sdk read_keypair_file), s)
      run_command crons_only s = (service_of crons_only (load env sdk read_keypair_file), s)
      run_command full s = (service_of full (load env sdk read_keypair_file), s)

      -- Without a subcommand the process runs as `full`.
      unfoldable pub main : Option Command → Session World → (List Event × Exit) × Session World
      main (some command) s = run_command command s
      main none s = run_command full s

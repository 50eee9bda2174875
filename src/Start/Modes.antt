-- ===== src/Start/Modes.antt =====
-- src/main.rs: what each command starts.
use keeper_bot.Base.{
  ℕ, Bool, true, false, ◌&&◌, ◌||◌, ◌≡◌, ◌⊎◌, inl, inr, refl, Bool-cases, Option, none, some, List,
  [], ◌∷◌, ◌++◌, if◌then◌else◌, String, str_eq, codes, Result, ok, err,
}
use keeper_bot.Chain.{Pubkey, Sdk, Rpc, Session}
use keeper_bot.LeagueConfig.{load_league_config}
use keeper_bot.GameLoop.{GameApi}
use keeper_bot.Config.{Config, parse_u64, load}
use keeper_bot.Start.{
  publisher_cron, rental_cron, subscription_cron, game_loop_cron, cranker_loop, capacity_reset_cron,
  quality_score_cron, milestone_processor_cron, anti_abuse_cron, visibility_tick_cron,
  leaderboard_cron, stake_watcher_cron, rewardz_publisher_cron, Event, connected, spawned,
  listening, serving, panicked, Runtime, cranker_enabled, override_of, override_secs, expect,
  run_crons, run_api, server_state, exit_of, main,
}

-- The tasks that need no configuration of the league, with their intervals; the cranker is one of
-- them if it is switched on.
abbrev pub first_crons : Bool → Config → List Event
first_crons cranker config =
    spawned publisher_cron config.point_root_interval_secs
    ∷ spawned rental_cron config.rental_settle_interval_secs
    ∷ spawned subscription_cron config.subscription_poll_interval_secs
    ∷ spawned game_loop_cron config.game_loop_interval_secs
    ∷ (if cranker then spawned cranker_loop config.game_loop_interval_secs ∷ [] else [])

-- The tasks that run once the league is configured.
abbrev pub league_crons : Config → List Event
league_crons config =
    spawned capacity_reset_cron config.capacity_reset_interval_secs
    ∷ spawned quality_score_cron config.quality_score_interval_secs
    ∷ spawned milestone_processor_cron config.milestone_processor_interval_secs
    ∷ spawned anti_abuse_cron config.anti_abuse_interval_secs
    ∷ spawned visibility_tick_cron config.visibility_tick_interval_secs
    ∷ spawned leaderboard_cron config.leaderboard_interval_secs
    ∷ spawned stake_watcher_cron config.stake_watcher_interval_secs
    ∷ spawned rewardz_publisher_cron config.rewardz_publish_interval_secs
    ∷ []

abbrev is_network : Option String → Bool
is_network none = false
is_network (some name) =
    (str_eq name "devnet" || str_eq name "localnet")
    || (str_eq name "mainnet" || str_eq name "mainnet-beta")

abbrev is_some : Option ℕ → Bool
is_some none = false
is_some (some n) = true

abbrev is_override : Option String → Bool
is_override none = true
is_override (some text) = is_some (parse_u64 (codes text))

-- Whether the environment names a network, and gives no override of the cadence or a number.
abbrev pub is_league_ready : (String → Option String) → Bool
is_league_ready env =
    is_network (env "SOLANA_NETWORK") && is_override (env "LEAGUE_CAPACITY_RESET_OVERRIDE_SECS")

-- A result is a value exactly if a test holds.
IsOkIf : {A : Type 0} → Bool → Result A → Type 0
IsOkIf {A} test r =
    ((test ≡ true) × (a : A) × (r ≡ ok a)) ⊎ ((test ≡ false) × (e : String) × (r ≡ err e))

load_league_config-IsOkIf :
    (name : Option String) → IsOkIf (is_network name) (load_league_config name)
unfolding load_league_config IsOkIf
load_league_config-IsOkIf none = inr (refl, _, refl)
load_league_config-IsOkIf (some name) =
    elim (Bool-cases (str_eq name "devnet" || str_eq name "localnet")) [
      | inl dev ↦ rw dev (inl (refl, _, refl))
      | inr other ↦ elim (Bool-cases (str_eq name "mainnet" || str_eq name "mainnet-beta")) [
        | inl is_main ↦ rw (other, is_main) (inl (refl, _, refl))
        | inr unknown ↦ rw (other, unknown) (inr (refl, _, refl))
      ]
    ]

override_of-IsOkIf : (value : Option ℕ) → IsOkIf (is_some value) (override_of value)
unfolding IsOkIf
override_of-IsOkIf none = inr (refl, _, refl)
override_of-IsOkIf (some secs) = inl (refl, _, refl)

override_secs-IsOkIf : (text : Option String) → IsOkIf (is_override text) (override_secs text)
unfolding IsOkIf
override_secs-IsOkIf none = inl (refl, _, refl)
override_secs-IsOkIf (some text) = override_of-IsOkIf (parse_u64 (codes text))

-- Either the league is ready and every task is spawned, or it is not and the first tasks are, after
-- which there is a panic.
CronsStarted : (String → Option String) → Config → Type 0
CronsStarted env config =
    ((is_league_ready env ≡ true)
      × (run_crons env config ≡ (
        first_crons (cranker_enabled (env "KEEPER_RUN_CRANKER")) config ++ league_crons config,
        ok tt,
      )))
    ⊎ ((is_league_ready env ≡ false)
        × (e : String) × (run_crons env config
            ≡ (first_crons (cranker_enabled (env "KEEPER_RUN_CRANKER")) config, err e)))

run_crons-CronsStarted : (env : String → Option String) (config : Config) → CronsStarted env config
unfolding CronsStarted run_crons IsOkIf
run_crons-CronsStarted env config = elim (load_league_config-IsOkIf (env "SOLANA_NETWORK")) [
  | inl (known, _, loaded) ↦
      elim (override_secs-IsOkIf (env "LEAGUE_CAPACITY_RESET_OVERRIDE_SECS")) [
        | inl (read, _, value) ↦ elim (Bool-cases (cranker_enabled (env "KEEPER_RUN_CRANKER"))) [
          | inl on ↦ inl (rw (known, read) refl, rw (on, loaded, value) refl)
          | inr off ↦ inl (rw (known, read) refl, rw (off, loaded, value) refl)
        ]
        | inr (unread, e, refused) ↦
            elim (Bool-cases (cranker_enabled (env "KEEPER_RUN_CRANKER"))) [
              | inl on ↦ inr (rw (known, unread) refl, e, rw (on, loaded, refused) refl)
              | inr off ↦ inr (rw (known, unread) refl, e, rw (off, loaded, refused) refl)
            ]
      ]
  | inr (unknown, e, refused) ↦ elim (Bool-cases (cranker_enabled (env "KEEPER_RUN_CRANKER"))) [
    | inl on ↦ inr (rw unknown refl, e, rw (on, refused) refl)
    | inr off ↦ inr (rw unknown refl, e, rw (off, refused) refl)
  ]
]

-- A panic of the last step ends the run after the effects before it.
expect_lem : (r : Result (Unit {0})) → expect r ≡ ([], r)
expect_lem (ok tt) = refl
expect_lem (err e) = refl

-- If the configuration loads, the database answers and the address is free, the process without a
-- subcommand either serves, after every task is spawned once at its interval, and the league is
-- ready; or the league is not ready, and it panics after the first tasks and serves nothing.
pub main_full :
    {World : Type 0} (env : String → Option String) (runtime : Runtime) (sdk : Sdk)
    (read_keypair_file : String → Result Pubkey) (api : GameApi) (rpc : String → Rpc World)
    (config : Config) (keypair : Pubkey) (s : Session World)
    → load env sdk read_keypair_file ≡ ok (config, keypair)
    → runtime.connect config.database_url ≡ ok tt
    → runtime.bind config.api_listen_addr ≡ ok tt
    → ((is_league_ready env ≡ true)
        × (main env runtime sdk read_keypair_file api rpc none s ≡ (
          (
            connected config.database_url
                  ∷ first_crons (cranker_enabled (env "KEEPER_RUN_CRANKER")) config
                ++ league_crons config
                ++ listening config.api_listen_addr
                  ∷ serving (server_state config keypair) config.points_cors_origins
                  ∷ [],
            exit_of runtime.serve,
          ),
          s,
        )))
      ⊎ ((is_league_ready env ≡ false)
          × (e : String) × (main env runtime sdk read_keypair_file api rpc none s ≡ (
            (
              connected config.database_url
                  ∷ first_crons (cranker_enabled (env "KEEPER_RUN_CRANKER")) config,
              panicked e,
            ),
            s,
          )))
unfolding main run_api CronsStarted
main_full env runtime sdk read_keypair_file api rpc config keypair s loaded answers free =
    elim (run_crons-CronsStarted env config) [
      | inl (ready, started) ↦ elim (Bool-cases (cranker_enabled (env "KEEPER_RUN_CRANKER"))) [
        | inl on ↦
            inl (ready, rw (loaded, answers, started, free, expect_lem runtime.serve, on) refl)
        | inr off ↦
            inl (ready, rw (loaded, answers, started, free, expect_lem runtime.serve, off) refl)
      ]
      | inr (unready, e, started) ↦ inr (unready, e, rw (loaded, answers, started) refl)
    ]

-- ===== src/Tests/Start.antt =====
-- The start of the process, in an environment that names a network and no more than is required.
use keeper_bot.Base.{
  ◌≡◌, refl, true, false, Option, none, some, [], ◌∷◌, ◌++◌, ◌⊎◌, String, str_eq, if◌then◌else◌,
  codes, ok,
}
use keeper_bot.Chain.{Session}
use keeper_bot.LeagueConfig.{load_league_config}
use keeper_bot.Tables.{Tables}
use keeper_bot.Config.{Config, load, parse_u64, parse_i64, digits_of, digits_from}
use keeper_bot.Config.Decimal.{only_required, default_config}
use keeper_bot.Start.{
  Runtime, connected, listening, serving, panicked, printed_config, success, server_state,
  cranker_enabled, trim_start, trim_end, bytes_eq, print_league_config, main,
}
use keeper_bot.Start.Modes.{first_crons, league_crons, is_league_ready, main_full}
use keeper_bot.Tests.Samples.{text_sdk, no_rows, one_account, alice}
use keeper_bot.Tests.GameLoop.{sample_api}

abbrev devnet_env : String → Option String
devnet_env name =
    if str_eq name "SOLANA_NETWORK"
    then some "devnet"
    else only_required "db" "id.json" "key" "program" name

abbrev runtime : Runtime
runtime = record {
  connect = λ url. ok tt;
  bind = λ addr. ok tt;
  serve = ok tt;
  ctrl_c = ok tt;
  to_string_pretty = λ config. ok "devnet preset";
}

abbrev config : Config
config = default_config "db" "key" (codes "program")

abbrev idle : Session Tables
idle = record { world = no_rows; sent = [] }

loaded : load devnet_env text_sdk (λ path. ok alice) ≡ ok (config, alice)
unfolding load parse_u64 parse_i64 digits_of digits_from
loaded = refl

cranker_yes : cranker_enabled (some " Yes ") ≡ true
unfolding cranker_enabled trim_start trim_end bytes_eq
cranker_yes = refl

main_full_example :
    ((is_league_ready devnet_env ≡ true)
      × (main devnet_env runtime text_sdk
            (λ path. ok alice)
            sample_api
            (λ url. one_account [])
            none
            idle
          ≡ (
            (
              connected "db" ∷ first_crons (cranker_enabled none) config
                  ++ league_crons config
                  ++ listening "0.0.0.0:8081" ∷ serving (server_state config alice) "*" ∷ [],
              success,
            ),
            idle,
          )))
    ⊎ ((is_league_ready devnet_env ≡ false)
        × (e : String) × (main devnet_env runtime text_sdk
              (λ path. ok alice)
              sample_api
              (λ url. one_account [])
              none
              idle
            ≡ ((connected "db" ∷ first_crons (cranker_enabled none) config, panicked e), idle)))
main_full_example =
    main_full devnet_env runtime text_sdk (λ path. ok alice) sample_api (λ url. one_account [])
      config alice idle loaded refl refl

print_league_config_run :
    main devnet_env runtime text_sdk
      (λ path. ok alice)
      sample_api
      (λ url. one_account [])
      (some print_league_config)
      idle
    ≡ ((printed_config "devnet preset" ∷ [], success), idle)
unfolding main load_league_config
print_league_config_run = refl

-- ===== src/Tests/GameLoop.antt =====
-- The theorems on the game loop at a cluster whose round is over.
use keeper_bot.Base.{
  ◌≡◌, refl, ◌⊎◌, true, false, none, some, [], ◌∷◌, ◌++◌, bytes_eq, to_le_bytes, from_le_bytes,
  take, drop, codes, if◌then◌else◌, ok, arith,
}
use mathlib.Core.Option
use keeper_bot.Chain.{Pubkey, Instruction, Transaction, Session}
use keeper_bot.Chain.Snapshot.{Snapshot, still}
use keeper_bot.GameLoop.{
  GameApi, GameConfigState, GameRoundState, tick_game_loop, parse_game_config, parse_game_round,
  read_u32,
}
use keeper_bot.GameLoop.Crank.{IsCrank, tick_game_loop_one_transaction}
use keeper_bot.GameLoop.Schedule.{configured, round_of, settle_ix, after}
use keeper_bot.GameLoop.Due.{Due, settle, tick_game_loop_complete, tick_game_loop_sound}
use keeper_bot.Tests.Samples.{text_sdk, alice}

abbrev pub sample_api : GameApi
sample_api = record {
  parse_pubkey = λ bytes off. some (take 32 (drop off bytes));
  parse_u64 = λ bytes off. some (from_le_bytes (take 8 (drop off bytes)));
  validate_account = λ bytes discriminator len. true;
  game_config_seed = 1 ∷ [];
  game_round_seed = 2 ∷ [];
  round_vault_seed = 3 ∷ [];
  ix_start_round = 20;
  ix_settle_round = 21;
  config_discriminator = 1;
  config_len = 50;
  off_current_round_id = 0;
  off_intermission_slots = 8;
  off_reward_mint = 16;
  round_discriminator = 2;
  round_len = 23;
  off_round_id = 0;
  off_end_slot = 8;
  off_player_count = 16;
  off_settled = 20;
  deployment_discriminator = 3;
  off_deployment_round_id = 0;
  slot_hashes = to_le_bytes 32 4;
}

-- Round 1 ended at slot 10 and is not settled; the intermission is 5 slots.
abbrev sample_config : GameConfigState
sample_config = record {
  current_round_id = 1;
  intermission_slots = 5;
  reward_mint = to_le_bytes 32 9;
}

abbrev sample_round : GameRoundState
sample_round = record { round_id = 1; end_slot = 10; player_count = 2; settled = false }

abbrev round_is_over : Snapshot
round_is_over = record {
  account = λ pk.
      if bytes_eq pk (1 ∷ [])
      then some (0 ∷ 0 ∷ to_le_bytes 8 1 ++ to_le_bytes 8 5 ++ to_le_bytes 32 9)
      else if bytes_eq pk (2 ∷ to_le_bytes 8 1)
      then some (0 ∷ 0 ∷ to_le_bytes 8 1 ++ to_le_bytes 8 10 ++ to_le_bytes 4 2 ++ 0 ∷ [])
      else none;
  program_accounts = [];
  slot = 20;
  blockhash = to_le_bytes 32 3;
}

abbrev program : Pubkey
program = to_le_bytes 32 5

abbrev token : Pubkey
token = codes "TokenzQdBNbLqP5VEhdkAS6EPFLC1PHnBqCXEpPxuEb"

abbrev idle : Session Unit
idle = record { world = tt; sent = [] }

config-found : configured sample_api text_sdk round_is_over program ≡ some sample_config
unfolding parse_game_config bytes_eq to_le_bytes from_le_bytes Option.bind
config-found = refl

round-found : round_of sample_api text_sdk round_is_over program 1 ≡ some sample_round
unfolding parse_game_round read_u32 bytes_eq to_le_bytes from_le_bytes Option.bind
round-found = refl

abbrev settlement : Instruction
settlement = settle_ix sample_api text_sdk alice program token sample_config sample_round

settlement-Due : Due sample_api text_sdk round_is_over alice program token settlement
settlement-Due =
    settle sample_config sample_round config-found (omega arith) round-found refl (omega arith)
      (omega arith) refl

tick_game_loop_complete_example :
    tick_game_loop sample_api text_sdk (still round_is_over) alice program idle
    ≡ (ok tt, after round_is_over alice idle settlement)
tick_game_loop_complete_example =
    tick_game_loop_complete sample_api text_sdk round_is_over alice program token idle settlement
      refl settlement-Due

tick_game_loop_sound_example :
    ((tick_game_loop sample_api text_sdk (still round_is_over) alice program idle).1 ≡ idle)
    ⊎ ((ix : Instruction) × ((tick_game_loop sample_api text_sdk
            (still round_is_over)
            alice
            program
            idle).1
          ≡ after round_is_over alice idle ix)
        × Due sample_api text_sdk round_is_over alice program token ix)
tick_game_loop_sound_example =
    tick_game_loop_sound sample_api text_sdk round_is_over alice program token idle refl

tick_game_loop_one_transaction_example :
    ((tick_game_loop sample_api text_sdk (still round_is_over) alice program idle).1.sent ≡ [])
    ⊎ ((tx : Transaction) × ((tick_game_loop sample_api text_sdk
            (still round_is_over)
            alice
            program
            idle).1.sent
          ≡ tx ∷ [])
        × IsCrank sample_api text_sdk (still round_is_over) alice program tx)
tick_game_loop_one_transaction_example =
    tick_game_loop_one_transaction sample_api text_sdk (still round_is_over) alice program idle

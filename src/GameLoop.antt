-- ===== src/GameLoop.antt =====
-- src/game_loop.rs: the cranker of the mining rounds. Layouts, seeds and instruction codes are
-- those of the rewardz-mvp-api crate, a parameter.
pub mod Crank
pub mod Schedule
pub mod Due
use keeper_bot.Base.{
  ℕ, ◌+◌, ◌≤◌, ◌^◌, Bool, true, false, not, Option, none, some, List, [], ◌∷◌, map, ◌==◌, ltb, leb,
  if◌then◌else◌, length, get_elem?, take, drop, Bytes, from_le_bytes, to_le_bytes, codes,
  sort_by_key, Result, ok, err, ok_or,
}
use mathlib.Core.Option
use keeper_bot.Chain.{
  Pubkey, AccountMeta, meta, readonly_meta, Instruction, Memcmp, Signature, Rpc, Sdk, Io, pure,
  lift, attempt, ask, ◌>>=◌, ◌>>◌, send_instruction,
}

-- The names of `rewardz_mvp_api` and `solana_sdk::sysvar` that the file uses.
pub record GameApi : Type 0 where
  pub parse_pubkey : Bytes → ℕ → Option Bytes
  pub parse_u64 : Bytes → ℕ → Option ℕ
  pub validate_account : Bytes → ℕ → ℕ → Bool
  pub game_config_seed : Bytes
  pub game_round_seed : Bytes
  pub round_vault_seed : Bytes
  pub ix_start_round : ℕ
  pub ix_settle_round : ℕ
  pub config_discriminator : ℕ
  pub config_len : ℕ
  pub off_current_round_id : ℕ
  pub off_intermission_slots : ℕ
  pub off_reward_mint : ℕ
  pub round_discriminator : ℕ
  pub round_len : ℕ
  pub off_round_id : ℕ
  pub off_end_slot : ℕ
  pub off_player_count : ℕ
  pub off_settled : ℕ
  pub deployment_discriminator : ℕ
  pub off_deployment_round_id : ℕ
  pub slot_hashes : Pubkey

abbrev pub prefix_len : ℕ
prefix_len = 2

abbrev pub system_program_id : Pubkey
system_program_id = to_le_bytes 32 0

pub record GameConfigState : Type 0 where
  pub current_round_id : ℕ
  pub intermission_slots : ℕ
  pub reward_mint : Pubkey

pub record GameRoundState : Type 0 where
  pub round_id : ℕ
  pub end_slot : ℕ
  pub player_count : ℕ
  pub settled : Bool

-- `a.checked_add(b)` on `u64`.
abbrev pub checked_add : ℕ → ℕ → Option ℕ
checked_add a b = if ltb (a + b) (2 ^ 64) then some (a + b) else none

unfoldable pub read_u32 : Bytes → ℕ → Option ℕ
read_u32 bytes off =
    if leb (off + 4) (length bytes) then some (from_le_bytes (take 4 (drop off bytes))) else none

-- `should_skip_start_round`.
unfoldable pub should_skip_start_round : Option GameRoundState → Bool
should_skip_start_round (some round) = not round.settled
should_skip_start_round none = false

pub data StartRoundOutcome : Type 0 where
  submitted : Signature → StartRoundOutcome
  skipped : ℕ → StartRoundOutcome

module _ (api : GameApi) (sdk : Sdk) where
  open sdk use {find_program_address, from_str, to_string}

  -- `Pubkey::from_str("Tokenz..").unwrap()`.
  abbrev pub token_2022_program_id : Result Pubkey
  token_2022_program_id = ok_or (from_str "TokenzQdBNbLqP5VEhdkAS6EPFLC1PHnBqCXEpPxuEb") "panic"

  abbrev pub game_config_pda : Pubkey → Pubkey
  game_config_pda program_id = find_program_address (api.game_config_seed ∷ []) program_id

  abbrev pub game_round_pda : Pubkey → ℕ → Pubkey
  game_round_pda program_id round_id =
      find_program_address (api.game_round_seed ∷ to_le_bytes 8 round_id ∷ []) program_id

  abbrev pub round_vault_pda : Pubkey → ℕ → Pubkey
  round_vault_pda program_id round_id =
      find_program_address (api.round_vault_seed ∷ to_le_bytes 8 round_id ∷ []) program_id

  read_pubkey : Bytes → ℕ → Option Pubkey
  read_pubkey bytes off = api.parse_pubkey bytes off

  unfoldable pub parse_game_config : Bytes → Option GameConfigState
  unfolding read_pubkey Option.bind
  parse_game_config bytes =
      if not (api.validate_account bytes api.config_discriminator api.config_len)
      then none
      else Option.bind (api.parse_u64 bytes (prefix_len + api.off_current_round_id)) λ id.
        Option.bind (api.parse_u64 bytes (prefix_len + api.off_intermission_slots)) λ slots.
          Option.bind (read_pubkey bytes (prefix_len + api.off_reward_mint)) λ mint.
            some (record { current_round_id = id; intermission_slots = slots; reward_mint = mint })

  unfoldable pub parse_game_round : Bytes → Option GameRoundState
  unfolding read_u32 Option.bind
  parse_game_round bytes =
      if not (api.validate_account bytes api.round_discriminator api.round_len)
      then none
      else Option.bind (api.parse_u64 bytes (prefix_len + api.off_round_id)) λ id.
        Option.bind (api.parse_u64 bytes (prefix_len + api.off_end_slot)) λ end_slot.
          Option.bind (read_u32 bytes (prefix_len + api.off_player_count)) λ players.
            Option.bind (get_elem? bytes (prefix_len + api.off_settled)) λ settled. some (record {
              round_id = id;
              end_slot = end_slot;
              player_count = players;
              settled = not (settled == 0);
            })

  -- The instruction of `submit_start_round`.
  abbrev pub start_round_ix : Pubkey → Pubkey → GameConfigState → ℕ → Pubkey → Instruction
  start_round_ix keypair program_id config next_round_id token_2022 =
      let previous_round =
        if ltb 0 config.current_round_id
        then game_round_pda program_id config.current_round_id
        else system_program_id in
      record {
        program_id = program_id;
        accounts =
            meta keypair true
            ∷ meta (game_config_pda program_id) false
            ∷ meta (game_round_pda program_id next_round_id) false
            ∷ readonly_meta previous_round false
            ∷ readonly_meta config.reward_mint false
            ∷ meta (round_vault_pda program_id next_round_id) false
            ∷ readonly_meta system_program_id false
            ∷ readonly_meta token_2022 false
            ∷ [];
        payload = api.ix_start_round ∷ [];
      }

  -- The instruction of `settle_round`.
  abbrev pub settle_round_ix :
      Pubkey → Pubkey → GameConfigState → GameRoundState → Pubkey → Instruction
  settle_round_ix keypair program_id config round token_2022 = record {
    program_id = program_id;
    accounts =
        readonly_meta keypair true
        ∷ meta (game_config_pda program_id) false
        ∷ meta (game_round_pda program_id round.round_id) false
        ∷ meta config.reward_mint false
        ∷ meta (round_vault_pda program_id round.round_id) false
        ∷ readonly_meta api.slot_hashes false
        ∷ readonly_meta token_2022 false
        ∷ [];
    payload = api.ix_settle_round ∷ [];
  }

  module _ {World : Type 0} (rpc : Rpc World) where
    -- Both an unreadable account and one with another layout are `Ok(None)`.
    unfoldable pub load_game_config : Pubkey → Io World (Option GameConfigState)
    load_game_config program_id = do
      answer ← attempt (ask (rpc.get_account (game_config_pda program_id)))
      elim answer [ ok account ↦ pure (parse_game_config account) | err e ↦ pure none ]

    unfoldable pub load_game_round : Pubkey → ℕ → Io World (Option GameRoundState)
    load_game_round program_id round_id = do
      answer ← attempt (ask (rpc.get_account (game_round_pda program_id round_id)))
      elim answer [ ok account ↦ pure (parse_game_round account) | err e ↦ pure none ]

    unfoldable pub load_deployments : Pubkey → ℕ → Io World (List Pubkey)
    unfolding sort_by_key
    load_deployments program_id round_id = do
      accounts ← ask (
          rpc.get_program_accounts program_id (
            record { offset = 0; bytes = api.deployment_discriminator ∷ [] }
            ∷ record {
              offset = prefix_len + api.off_deployment_round_id;
              bytes = to_le_bytes 8 round_id;
            }
            ∷ []))
      pure (sort_by_key (λ p. codes (to_string p)) (map (λ (pubkey, _). pubkey) accounts))

    unfoldable pub submit_start_round : Pubkey → Pubkey → GameConfigState → ℕ → Io World Signature
    submit_start_round keypair program_id config next_round_id = do
      token_2022 ← lift token_2022_program_id
      send_instruction rpc keypair
          (start_round_ix keypair program_id config next_round_id token_2022)

    -- The second guard of `start_round`: is the previous round there and unsettled?
    unfoldable pub previous_unsettled : Pubkey → GameConfigState → Io World Bool
    previous_unsettled program_id config =
        if ltb 0 config.current_round_id
        then (do
          previous ← load_game_round program_id config.current_round_id
          pure (elim previous [ some round ↦ not round.settled | none ↦ false ]))
        else pure false

    unfoldable pub start_round : Pubkey → Pubkey → GameConfigState → Io World StartRoundOutcome
    start_round keypair program_id config = do
      next_round_id ← lift (ok_or (checked_add config.current_round_id 1) "round id overflow")
      existing ← load_game_round program_id next_round_id
      if should_skip_start_round existing then pure (skipped next_round_id) else do
        blocked ← previous_unsettled program_id config
        if blocked then pure (skipped next_round_id) else do
          sig ← submit_start_round keypair program_id config next_round_id
          pure (submitted sig)

    -- The count of deployments is only logged: every player's result is computed elsewhere.
    unfoldable pub settle_round :
        Pubkey → Pubkey → GameConfigState → GameRoundState → Io World Signature
    settle_round keypair program_id config round = do
      deployments ← load_deployments program_id round.round_id
      token_2022 ← lift token_2022_program_id
      send_instruction rpc keypair (settle_round_ix keypair program_id config round token_2022)

    unfoldable pub run_start_round_once : Pubkey → Pubkey → Io World StartRoundOutcome
    run_start_round_once keypair program_id = do
      loaded ← load_game_config program_id
      game_config ← lift (ok_or loaded "GameConfig PDA not initialised")
      start_round keypair program_id game_config

    -- `let Some(round) = .. else { return Ok(()) }` and what follows it.
    unfoldable pub crank_round :
        Pubkey → Pubkey → GameConfigState → ℕ → GameRoundState → Io World Unit
    crank_round keypair program_id config current_slot round = do
      crank_slot ←
          lift (
            ok_or (checked_add round.end_slot config.intermission_slots)
              "round crank slot overflow")
      if round.settled
          then (if leb crank_slot current_slot
              then (do start_round keypair program_id config; pure tt)
              else pure tt)
          else if ltb current_slot crank_slot
          then pure tt
          else (do settle_round keypair program_id config round; pure tt)

    unfoldable pub tick_configured : Pubkey → Pubkey → GameConfigState → Io World Unit
    tick_configured keypair program_id config = do
      current_slot ← ask rpc.get_slot
      if config.current_round_id == 0
          then (do start_round keypair program_id config; pure tt)
          else do
            found ← load_game_round program_id config.current_round_id
            elim found [
              | some round ↦ crank_round keypair program_id config current_slot round
              | none ↦ pure tt
            ]

    unfoldable pub tick_game_loop : Pubkey → Pubkey → Io World Unit
    tick_game_loop keypair program_id = do
      loaded ← load_game_config program_id
      elim loaded [ some config ↦ tick_configured keypair program_id config | none ↦ pure tt ]

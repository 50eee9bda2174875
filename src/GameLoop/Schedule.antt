-- ===== src/GameLoop/Schedule.antt =====
-- src/game_loop.rs: the reads and the actions of a tick on a cluster that does not change under it.
use mathlib.Core.Option
use keeper_bot.Base.{
  ℕ, ◌+◌, ◌^◌, ◌≡◌, refl, ◌&&◌, ◌||◌, Bool, Option, [], ◌∷◌, ◌++◌, ltb, leb, Result, ok, err,
  if◌then◌else◌, arith,
}
use keeper_bot.Chain.{Pubkey, Instruction, Sdk, Session, send_instruction}
use keeper_bot.Chain.Snapshot.{Snapshot, still}
use keeper_bot.GameLoop.{
  GameApi, GameConfigState, GameRoundState, StartRoundOutcome, submitted, skipped, start_round_ix,
  settle_round_ix, load_game_config, load_game_round, load_deployments, submit_start_round,
  previous_unsettled, start_round, settle_round, should_skip_start_round, game_config_pda,
  game_round_pda, token_2022_program_id, parse_game_config, parse_game_round,
}

module _ (api : GameApi) (sdk : Sdk) (c : Snapshot) (program_id : Pubkey) where
  -- What the cluster holds, as the keeper parses it.
  abbrev pub configured : Option GameConfigState
  configured =
      Option.bind (c.account (game_config_pda api sdk program_id)) (parse_game_config api sdk)

  abbrev pub round_of : ℕ → Option GameRoundState
  round_of id =
      Option.bind (c.account (game_round_pda api sdk program_id id)) (parse_game_round api sdk)

  pub load_game_config-still :
      (s : Session Unit) → load_game_config api sdk (still c) program_id s ≡ (ok configured, s)
  unfolding load_game_config Option.bind
  load_game_config-still s = ground arith

  pub load_game_round-still :
      (id : ℕ) (s : Session Unit)
      → load_game_round api sdk (still c) program_id id s ≡ (ok (round_of id), s)
  unfolding load_game_round Option.bind
  load_game_round-still id s = ground arith

  -- The round's account is there and not settled.
  abbrev pub is_active : ℕ → Bool
  is_active id = should_skip_start_round (round_of id)

  previous_unsettled-still :
      (config : GameConfigState) (s : Session Unit)
      → previous_unsettled api sdk (still c) program_id config s
        ≡ (ok (ltb 0 config.current_round_id && is_active config.current_round_id), s)
  unfolding previous_unsettled should_skip_start_round
  previous_unsettled-still config s =
      ground (arith, load_game_round-still config.current_round_id s)

module _ (c : Snapshot) (keypair : Pubkey) where
  -- The session after one more transaction with the instruction.
  abbrev pub after : Session Unit → Instruction → Session Unit
  after s ix = record s {
    sent =
        s.sent
        ++ record { instructions = ix ∷ []; payer = keypair; recent_blockhash = c.blockhash } ∷ [];
  }

  send_instruction-still :
      (ix : Instruction) (s : Session Unit)
      → send_instruction (still c) keypair ix s ≡ (ok "signature", after s ix)
  unfolding send_instruction
  send_instruction-still ix s = refl

module _ (api : GameApi) (sdk : Sdk) (keypair program_id token_2022 : Pubkey) where
  abbrev pub start_ix : GameConfigState → Instruction
  start_ix config =
      start_round_ix api sdk keypair program_id config (config.current_round_id + 1) token_2022

  abbrev pub settle_ix : GameConfigState → GameRoundState → Instruction
  settle_ix config round = settle_round_ix api sdk keypair program_id config round token_2022

module _ (api : GameApi) (sdk : Sdk) (c : Snapshot) (keypair program_id token_2022 : Pubkey)
    (token_ok : token_2022_program_id api sdk ≡ ok token_2022) where
  -- Which answer of `start_round` goes with which state of the two rounds.
  abbrev pub start_answer : GameConfigState → Session Unit → Result StartRoundOutcome × Session Unit
  start_answer config s =
      if leb (2 ^ 64) (config.current_round_id + 1)
      then (err "round id overflow", s)
      else if is_active api sdk c program_id (config.current_round_id + 1)
          || (ltb 0 config.current_round_id
              && is_active api sdk c program_id config.current_round_id)
      then (ok (skipped (config.current_round_id + 1)), s)
      else (
        ok (submitted "signature"),
        after c keypair s (start_ix api sdk keypair program_id token_2022 config),
      )

  pub start_round-still :
      (config : GameConfigState) (s : Session Unit)
      → start_round api sdk (still c) keypair program_id config s ≡ start_answer config s
  unfolding start_round submit_start_round
  start_round-still config s = ground (
    arith,
    load_game_round-still api sdk c program_id (config.current_round_id + 1) s,
    previous_unsettled-still api sdk c program_id config s,
    token_ok,
    send_instruction-still c keypair (start_ix api sdk keypair program_id token_2022 config) s,
  )

  pub settle_round-still :
      (config : GameConfigState) (round : GameRoundState) (s : Session Unit)
      → settle_round api sdk (still c) keypair program_id config round s ≡ (
        ok "signature",
        after c keypair s (settle_ix api sdk keypair program_id token_2022 config round),
      )
  unfolding settle_round load_deployments
  settle_round-still config round s = rw (token_ok, send_instruction-still c keypair) refl

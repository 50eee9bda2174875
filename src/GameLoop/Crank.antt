-- ===== src/GameLoop/Crank.antt =====
-- src/game_loop.rs: how many transactions a tick submits.
use keeper_bot.Base.{ℕ, ◌≡◌, ◌⊎◌, inl, inr, false, none, some, [], ◌∷◌, ◌++◌, ltb, leb, ◌==◌, arith}
use keeper_bot.Chain.{Pubkey, Transaction, Rpc, Sdk, Session, pure, ◌>>◌}
use keeper_bot.Chain.Submits.{
  Quiet, AtMostOne, Quiet-pure, Quiet-lift, Quiet-ask, Quiet-if, Quiet-bind, AtMostOne-if,
  AtMostOne-weaken, AtMostOne-Quiet, AtMostOne-bind-Quiet, AtMostOne-bind_then,
  send_instruction-AtMostOne,
}
use keeper_bot.GameLoop.{
  GameApi, GameConfigState, GameRoundState, start_round_ix, settle_round_ix, load_game_config,
  load_game_round, load_deployments, submit_start_round, previous_unsettled, start_round,
  settle_round, crank_round, tick_configured, tick_game_loop, should_skip_start_round,
}

module _ (api : GameApi) (sdk : Sdk) {World : Type 0} (rpc : Rpc World)
    (keypair program_id : Pubkey) where
  load_game_config-Quiet : Quiet (load_game_config api sdk rpc program_id)
  unfolding load_game_config
  load_game_config-Quiet = record { at = λ s. ground arith }

  load_game_round-Quiet : (id : ℕ) → Quiet (load_game_round api sdk rpc program_id id)
  unfolding load_game_round
  load_game_round-Quiet id = record { at = λ s. ground arith }

  load_deployments-Quiet : (id : ℕ) → Quiet (load_deployments api sdk rpc program_id id)
  unfolding load_deployments
  load_deployments-Quiet id = record { at = λ s. ground arith }

  previous_unsettled-Quiet :
      (config : GameConfigState) → Quiet (previous_unsettled api sdk rpc program_id config)
  unfolding previous_unsettled
  previous_unsettled-Quiet config =
      Quiet-if (ltb 0 config.current_round_id) _ _
        (Quiet-bind _ _ (load_game_round-Quiet config.current_round_id) λ previous. Quiet-pure _)
        (Quiet-pure false)

  -- The one instruction starts the round after the configured one.
  abbrev pub IsStart : GameConfigState → Transaction → Type 0
  IsStart config tx =
      (next : ℕ) × (token_2022 : Pubkey) × (tx.instructions
        ≡ start_round_ix api sdk keypair program_id config next token_2022 ∷ [])

  -- The one instruction settles the round.
  abbrev pub IsSettle : GameConfigState → GameRoundState → Transaction → Type 0
  IsSettle config round tx =
      (token_2022 : Pubkey) × (tx.instructions
        ≡ settle_round_ix api sdk keypair program_id config round token_2022 ∷ [])

  start_round-AtMostOne :
      (config : GameConfigState)
      → AtMostOne (IsStart config) (start_round api sdk rpc keypair program_id config)
  unfolding start_round submit_start_round
  start_round-AtMostOne config = AtMostOne-bind-Quiet _ _ (Quiet-lift _) λ next.
      AtMostOne-bind-Quiet _ _ (load_game_round-Quiet next) λ existing.
        AtMostOne-if (should_skip_start_round existing) _ _ (AtMostOne-Quiet _ (Quiet-pure _)) (
          AtMostOne-bind-Quiet _ _ (previous_unsettled-Quiet config) λ blocked.
            AtMostOne-if blocked _ _ (AtMostOne-Quiet _ (Quiet-pure _)) (
              AtMostOne-bind_then _ _
                (AtMostOne-bind-Quiet _ _ (Quiet-lift _) λ token.
                  AtMostOne-weaken _ (λ tx e. (next, token, e))
                    (send_instruction-AtMostOne rpc keypair _))
                λ sig. Quiet-pure _))

  settle_round-AtMostOne :
      (config : GameConfigState) (round : GameRoundState)
      → AtMostOne (IsSettle config round) (settle_round api sdk rpc keypair program_id config round)
  unfolding settle_round
  settle_round-AtMostOne config round =
      AtMostOne-bind-Quiet _ _ (load_deployments-Quiet round.round_id) λ deployments.
        AtMostOne-bind-Quiet _ _ (Quiet-lift _) λ token.
          AtMostOne-weaken _ (λ tx e. (token, e)) (send_instruction-AtMostOne rpc keypair _)

  -- A start of a round, or a settlement.
  abbrev pub IsCrank : Transaction → Type 0
  IsCrank tx =
      ((config : GameConfigState) × IsStart config tx)
      ⊎ ((config : GameConfigState) × (round : GameRoundState) × IsSettle config round tx)

  started_then :
      (config : GameConfigState)
      → AtMostOne IsCrank (do start_round api sdk rpc keypair program_id config; pure tt)
  started_then config =
      AtMostOne-bind_then _ _
        (AtMostOne-weaken _ (λ tx p. inl (config, p)) (start_round-AtMostOne config))
        λ outcome. Quiet-pure tt

  settled_then :
      (config : GameConfigState) (round : GameRoundState)
      → AtMostOne IsCrank (do settle_round api sdk rpc keypair program_id config round; pure tt)
  settled_then config round =
      AtMostOne-bind_then _ _
        (AtMostOne-weaken _ (λ tx p. inr (config, round, p)) (settle_round-AtMostOne config round))
        λ sig. Quiet-pure tt

  idle_then : AtMostOne {World = World} IsCrank (pure tt)
  idle_then = AtMostOne-Quiet _ (Quiet-pure tt)

  crank_round-AtMostOne :
      (config : GameConfigState) (current_slot : ℕ) (round : GameRoundState)
      → AtMostOne IsCrank (crank_round api sdk rpc keypair program_id config current_slot round)
  unfolding crank_round
  crank_round-AtMostOne config current_slot round =
      AtMostOne-bind-Quiet _ _ (Quiet-lift _) λ crank_slot.
        AtMostOne-if round.settled _ _
          (AtMostOne-if (leb crank_slot current_slot) _ _ (started_then config) idle_then)
          (AtMostOne-if (ltb current_slot crank_slot) _ _ idle_then (settled_then config round))

  tick_configured-AtMostOne :
      (config : GameConfigState)
      → AtMostOne IsCrank (tick_configured api sdk rpc keypair program_id config)
  unfolding tick_configured
  tick_configured-AtMostOne config =
      AtMostOne-bind-Quiet _ _ (Quiet-ask rpc.get_slot) λ current_slot.
        AtMostOne-if (config.current_round_id == 0) _ _ (started_then config) (
          AtMostOne-bind-Quiet _ _ (load_game_round-Quiet config.current_round_id) (elim [
            | none ↦ idle_then
            | some round ↦ crank_round-AtMostOne config current_slot round
          ]))

  tick_game_loop-AtMostOne : AtMostOne IsCrank (tick_game_loop api sdk rpc keypair program_id)
  unfolding tick_game_loop
  tick_game_loop-AtMostOne =
      AtMostOne-bind-Quiet _ _ load_game_config-Quiet
        (elim [ none ↦ idle_then | some config ↦ tick_configured-AtMostOne config ])

-- Whatever the cluster answers and however it changes between the calls, one tick of the game
-- loop submits no transaction, or exactly one, which starts a round or settles one.
pub tick_game_loop_one_transaction :
    (api : GameApi) (sdk : Sdk) {World : Type 0} (rpc : Rpc World) (keypair program_id : Pubkey)
    (s : Session World)
    → ((tick_game_loop api sdk rpc keypair program_id s).1.sent ≡ s.sent)
      ⊎ ((tx : Transaction) × ((tick_game_loop api sdk rpc keypair program_id s).1.sent
            ≡ s.sent ++ tx ∷ [])
          × IsCrank api sdk rpc keypair program_id tx)
tick_game_loop_one_transaction api sdk rpc keypair program_id s =
    (tick_game_loop-AtMostOne api sdk rpc keypair program_id).at s

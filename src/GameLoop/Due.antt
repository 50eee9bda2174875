-- ===== src/GameLoop/Due.antt =====
-- src/game_loop.rs: when the state of the rounds makes an instruction due, and what a tick does.
use keeper_bot.Base.{
  ℕ, ◌+◌, ◌≤◌, ◌<◌, ◌^◌, ◌≡◌, refl, sym, ◌∙◌, ap, ◌⊎◌, inl, inr, Bool, true, false, none, some,
  ◌==◌, ok, arith, Option-cases, Bool-cases,
}
use mathlib.Core.Path.{subst}
use keeper_bot.Chain.{Pubkey, Instruction, Sdk, Session, pure, ◌>>◌}
use keeper_bot.Chain.Snapshot.{Snapshot, still}
use keeper_bot.GameLoop.{
  GameApi, GameConfigState, GameRoundState, submitted, start_round, crank_round, tick_configured,
  tick_game_loop, should_skip_start_round, token_2022_program_id,
}
use keeper_bot.GameLoop.Schedule.{
  configured, round_of, is_active, start_ix, settle_ix, after, load_game_config-still,
  load_game_round-still, start_round-still, settle_round-still,
}

-- The first slot at which the round may be cranked.
abbrev pub crank_slot : GameConfigState → GameRoundState → ℕ
crank_slot config round = round.end_slot + config.intermission_slots

module _ (api : GameApi) (sdk : Sdk) (c : Snapshot) (keypair program_id token_2022 : Pubkey) where
  -- The instruction that the rounds on the cluster call for: a first round, the settlement of a
  -- round whose crank slot has come, or the round after a settled one.
  pub data Due : Instruction → Type 0 where
    first :
        {ix : Instruction} (config : GameConfigState)
        → configured api sdk c program_id ≡ some config
        → config.current_round_id ≡ 0
        → is_active api sdk c program_id 1 ≡ false
        → ix ≡ start_ix api sdk keypair program_id token_2022 config
        → Due ix
    settle :
        {ix : Instruction} (config : GameConfigState) (round : GameRoundState)
        → configured api sdk c program_id ≡ some config
        → 0 < config.current_round_id
        → round_of api sdk c program_id config.current_round_id ≡ some round
        → round.settled ≡ false
        → crank_slot config round < 2 ^ 64
        → crank_slot config round ≤ c.slot
        → ix ≡ settle_ix api sdk keypair program_id token_2022 config round
        → Due ix
    next :
        {ix : Instruction} (config : GameConfigState) (round : GameRoundState)
        → configured api sdk c program_id ≡ some config
        → 0 < config.current_round_id
        → config.current_round_id + 1 < 2 ^ 64
        → round_of api sdk c program_id config.current_round_id ≡ some round
        → round.settled ≡ true
        → crank_slot config round < 2 ^ 64
        → crank_slot config round ≤ c.slot
        → is_active api sdk c program_id (config.current_round_id + 1) ≡ false
        → ix ≡ start_ix api sdk keypair program_id token_2022 config
        → Due ix

module _ (api : GameApi) (sdk : Sdk) (c : Snapshot) (keypair program_id token_2022 : Pubkey)
    (token_ok : token_2022_program_id api sdk ≡ ok token_2022) (s : Session Unit) where
  abbrev active : ℕ → Bool
  active = is_active api sdk c program_id

  -- Each of the reading lemmas at this session.
  crank_round_starts :
      (config : GameConfigState) (round : GameRoundState)
      → round.settled ≡ true
      → crank_slot config round < 2 ^ 64
      → crank_slot config round ≤ c.slot
      → 0 < config.current_round_id
      → config.current_round_id + 1 < 2 ^ 64
      → active (config.current_round_id + 1) ≡ false
      → active config.current_round_id ≡ false
      → crank_round api sdk (still c) keypair program_id config c.slot round s
        ≡ (ok tt, after c keypair s (start_ix api sdk keypair program_id token_2022 config))
  unfolding crank_round
  crank_round_starts config round set fits due pos room quiet prev =
      ground (arith, start_round-still api sdk c keypair program_id token_2022 token_ok config s)

  crank_round_settles :
      (config : GameConfigState) (round : GameRoundState)
      → round.settled ≡ false
      → crank_slot config round < 2 ^ 64
      → crank_slot config round ≤ c.slot
      → crank_round api sdk (still c) keypair program_id config c.slot round s
        ≡ (ok tt, after c keypair s (settle_ix api sdk keypair program_id token_2022 config round))
  unfolding crank_round
  crank_round_settles config round set fits due =
      ground
        (arith, settle_round-still api sdk c keypair program_id token_2022 token_ok config round s)

  tick-round :
      (config : GameConfigState) (round : GameRoundState)
      → configured api sdk c program_id ≡ some config
      → 0 < config.current_round_id
      → round_of api sdk c program_id config.current_round_id ≡ some round
      → tick_game_loop api sdk (still c) keypair program_id s
        ≡ crank_round api sdk (still c) keypair program_id config c.slot round s
  unfolding tick_game_loop tick_configured
  tick-round config round e pos r = ground (
    arith,
    load_game_config-still api sdk c program_id s,
    load_game_round-still api sdk c program_id config.current_round_id s,
  )

  tick-first :
      (config : GameConfigState)
      → configured api sdk c program_id ≡ some config
      → config.current_round_id ≡ 0
      → tick_game_loop api sdk (still c) keypair program_id s
        ≡ (do start_round api sdk (still c) keypair program_id config; pure tt) s
  unfolding tick_game_loop tick_configured
  tick-first config e z = ground (arith, load_game_config-still api sdk c program_id s)

  start_first :
      (config : GameConfigState)
      → config.current_round_id ≡ 0
      → active 1 ≡ false
      → start_round api sdk (still c) keypair program_id config s ≡ (
        ok (submitted "signature"),
        after c keypair s (start_ix api sdk keypair program_id token_2022 config),
      )
  start_first config z quiet =
      let one : config.current_round_id + 1 ≡ 1 = omega arith in
      let quiet' = ap active one ∙ quiet in
      start_round-still api sdk c keypair program_id token_2022 token_ok config s ∙ ground arith

  -- A due instruction is submitted, and nothing else is.
  Due-tick :
      (ix : Instruction)
      → Due api sdk c keypair program_id token_2022 ix
      → tick_game_loop api sdk (still c) keypair program_id s ≡ (ok tt, after c keypair s ix)
  unfolding should_skip_start_round
  Due-tick ix (first config e z quiet same) =
      tick-first config e z ∙ rw (same, start_first config z quiet) refl
  Due-tick ix (settle config round e pos r set fits due same) =
      tick-round config round e pos r ∙ rw same (crank_round_settles config round set fits due)
  Due-tick ix (next config round e pos room r set fits due quiet same) =
      tick-round config round e pos r
      ∙ rw same
          (crank_round_starts config round set fits due pos room quiet (ground (arith, r, set)))

  -- The session is untouched, or a due instruction was submitted.
  abbrev Acts : Session Unit → Type 0
  Acts s' =
      (s' ≡ s)
      ⊎ ((ix : Instruction) × (s' ≡ after c keypair s ix)
          × Due api sdk c keypair program_id token_2022 ix)

  abbrev started : GameConfigState → Session Unit
  started config = (start_round api sdk (still c) keypair program_id config s).1

  start_round-idle_or_starts :
      (config : GameConfigState)
      → (started config ≡ s)
        ⊎ ((started config
              ≡ after c keypair s (start_ix api sdk keypair program_id token_2022 config))
            × (config.current_round_id + 1 < 2 ^ 64)
            × (active (config.current_round_id + 1) ≡ false))
  start_round-idle_or_starts config =
      ground (arith, start_round-still api sdk c keypair program_id token_2022 token_ok config s)

  crank_round-open :
      (config : GameConfigState) (round : GameRoundState)
      → ((crank_round api sdk (still c) keypair program_id config c.slot round s).1 ≡ s)
        ⊎ ((crank_slot config round < 2 ^ 64) × (crank_slot config round ≤ c.slot))
  unfolding crank_round
  crank_round-open config round = ground arith

  crank_round-started :
      (config : GameConfigState) (round : GameRoundState)
      → round.settled ≡ true
      → crank_slot config round < 2 ^ 64
      → crank_slot config round ≤ c.slot
      → (crank_round api sdk (still c) keypair program_id config c.slot round s).1 ≡ started config
  unfolding crank_round
  crank_round-started config round set fits due = ground arith

  crank_round-Acts :
      (config : GameConfigState) (round : GameRoundState)
      → configured api sdk c program_id ≡ some config
      → 0 < config.current_round_id
      → round_of api sdk c program_id config.current_round_id ≡ some round
      → Acts (crank_round api sdk (still c) keypair program_id config c.slot round s).1
  crank_round-Acts config round e pos r = elim (crank_round-open config round) [
    | inl idle ↦ inl idle
    | inr (fits, due) ↦ elim (Bool-cases round.settled) [
      | inr unset ↦ inr (
        _,
        ap (λ p. p.1) (crank_round_settles config round unset fits due),
        settle config round e pos r unset fits due refl,
      )
      | inl set ↦ elim (start_round-idle_or_starts config) [
        | inl idle ↦ inl (crank_round-started config round set fits due ∙ idle)
        | inr (starts, room, quiet) ↦ inr (
          _,
          crank_round-started config round set fits due ∙ starts,
          next config round e pos room r set fits due quiet refl,
        )
      ]
    ]
  ]

  tick-unconfigured :
      configured api sdk c program_id ≡ none
      → (tick_game_loop api sdk (still c) keypair program_id s).1 ≡ s
  unfolding tick_game_loop
  tick-unconfigured e = ground (arith, load_game_config-still api sdk c program_id s)

  tick-no_round :
      (config : GameConfigState)
      → configured api sdk c program_id ≡ some config
      → 0 < config.current_round_id
      → round_of api sdk c program_id config.current_round_id ≡ none
      → (tick_game_loop api sdk (still c) keypair program_id s).1 ≡ s
  unfolding tick_game_loop tick_configured
  tick-no_round config e pos r = ground (
    arith,
    load_game_config-still api sdk c program_id s,
    load_game_round-still api sdk c program_id config.current_round_id s,
  )

  tick-first_started :
      (config : GameConfigState)
      → configured api sdk c program_id ≡ some config
      → config.current_round_id ≡ 0
      → (tick_game_loop api sdk (still c) keypair program_id s).1 ≡ started config
  unfolding tick_game_loop tick_configured
  tick-first_started config e z = ground (arith, load_game_config-still api sdk c program_id s)

  tick-Acts : Acts (tick_game_loop api sdk (still c) keypair program_id s).1
  tick-Acts = elim (Option-cases (configured api sdk c program_id)) [
    | inl missing ↦ inl (tick-unconfigured missing)
    | inr (config, e) ↦ elim (Bool-cases (config.current_round_id == 0)) [
      | inl z ↦ elim (start_round-idle_or_starts config) [
        | inl idle ↦ inl (tick-first_started config e (ground arith) ∙ idle)
        | inr (starts, room, quiet) ↦
            let zero_id : config.current_round_id ≡ 0 = ground arith in
            let one : 1 ≡ config.current_round_id + 1 = omega arith in
            inr (
              _,
              tick-first_started config e zero_id ∙ starts,
              first config e zero_id (ap active one ∙ quiet) refl,
            )
      ]
      | inr nz ↦ elim (Option-cases (round_of api sdk c program_id config.current_round_id)) [
        | inl missing ↦ inl (tick-no_round config e (ground arith) missing)
        | inr (round, r) ↦
            let pos : 0 < config.current_round_id = ground arith in
            subst Acts (ap (λ p. p.1) (sym (tick-round config round e pos r)))
              (crank_round-Acts config round e pos r)
      ]
    ]
  ]

-- On a cluster that does not change during the tick and confirms what it is sent, with the token
-- program's address readable: an instruction that is due is submitted, alone, and the tick returns
-- normally.
pub tick_game_loop_complete :
    (api : GameApi) (sdk : Sdk) (c : Snapshot) (keypair program_id token_2022 : Pubkey)
    (s : Session Unit) (ix : Instruction)
    → token_2022_program_id api sdk ≡ ok token_2022
    → Due api sdk c keypair program_id token_2022 ix
    → tick_game_loop api sdk (still c) keypair program_id s ≡ (ok tt, after c keypair s ix)
tick_game_loop_complete api sdk c keypair program_id token_2022 s ix token_ok =
    Due-tick api sdk c keypair program_id token_2022 token_ok s ix

-- On such a cluster a tick leaves the session as it was, or has submitted one instruction, and
-- that instruction was due.
pub tick_game_loop_sound :
    (api : GameApi) (sdk : Sdk) (c : Snapshot) (keypair program_id token_2022 : Pubkey)
    (s : Session Unit)
    → token_2022_program_id api sdk ≡ ok token_2022
    → ((tick_game_loop api sdk (still c) keypair program_id s).1 ≡ s)
      ⊎ ((ix : Instruction) × ((tick_game_loop api sdk (still c) keypair program_id s).1
            ≡ after c keypair s ix)
          × Due api sdk c keypair program_id token_2022 ix)
tick_game_loop_sound api sdk c keypair program_id token_2022 s token_ok =
    tick-Acts api sdk c keypair program_id token_2022 token_ok s

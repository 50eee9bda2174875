-- ===== src/RewardzPublisher/Submission.antt =====
-- src/rewardz_publisher.rs: when the rewardz publisher submits, and what.
use mathlib.Core.Path.{subst}
use keeper_bot.Base.{
  sym, ap, ℕ, ◌+◌, ◌%◌, ◌≤◌, ◌^◌, ◌≡◌, refl, ◌⊎◌, inl, inr, false, Option, none, some, List, [],
  ◌∷◌, ◌++◌, Bytes, ltb, Result, ok, err, arith, Bool-cases,
}
use keeper_bot.RewardzMerkle.{RewardzMerkleTree, build_rewardz_tree}
use keeper_bot.Chain.{
  Pubkey, Transaction, Rpc, Sdk, Session, attempt, continue, lift, pure, ◌>>=◌, ◌>>◌,
}
use keeper_bot.Chain.Submits.{
  Quiet, AtMostOne, OneFrom, Quiet-pure, Quiet-lift, Quiet-ask, Quiet-attempt, Quiet-bind,
  AtMostOne-if, AtMostOne-weaken, AtMostOne-Quiet, AtMostOne-bind_then, AtMostOne-bind_ask,
  AtMostOne-guard, AtMostOne-bind_lift, send_instruction-AtMostOne,
}
use keeper_bot.LeagueConfig.{LeagueConfig, load_league_config}
use keeper_bot.Tables.{Tables}
use keeper_bot.Db.{Pg, sum_groups, RewardzEarningsRow, select_now, get_rewardz_earnings_grouped}
use keeper_bot.Db.Statements.{LawfulPg, run_sql-Quiet, run_sql-reads}
use keeper_bot.RewardzPublisher.{
  RewardzApi, RewardzEnv, is_dry_run, total_of, root_or_zero, deny_list_of, epoch_of,
  rewardz_root_pda, entries_of, set_rewardz_root_ix, read_on_chain_deny_list, load_current_epoch,
  submit_root, publish_rows, publish_rewardz_root, publish_next, tick_on, rewardz_publisher_tick,
}

module _ (api : RewardzApi) (sdk : Sdk) (keccak256 : Bytes → Bytes) (env : RewardzEnv)
    {World : Type 0} (rpc : Rpc World) (pg : Pg World) (keypair program_id : Pubkey) where
  read_on_chain_deny_list-Quiet :
      (pda : Pubkey) → Quiet (read_on_chain_deny_list api sdk keccak256 env rpc pg pda)
  unfolding read_on_chain_deny_list
  read_on_chain_deny_list-Quiet pda = Quiet-bind _ _ (Quiet-ask _) λ account. Quiet-pure _

  load_current_epoch-Quiet : Quiet (load_current_epoch api sdk keccak256 env rpc pg program_id)
  unfolding load_current_epoch
  load_current_epoch-Quiet = Quiet-bind _ _ (Quiet-ask _) λ account. Quiet-pure _

  module _ (epoch : ℕ) (cfg : LeagueConfig) (t : Tables) where
    -- The one instruction sets, for the epoch, the root of the tree of the claimable rows of the
    -- tables, whose total is within the cap, with that total and with the deny list that the cluster
    -- answered.
    abbrev pub IsRewardzRoot : Transaction → Type 0
    IsRewardzRoot tx =
        (rows : List RewardzEarningsRow) × (tree : Option RewardzMerkleTree) × (account : Option
          Bytes)
        × (w : World) × (get_rewardz_earnings_grouped t ≡ ok (rows, t))
        × (build_rewardz_tree keccak256 false (entries_of api sdk rows) ≡ ok tree)
        × (total_of (entries_of api sdk rows) ≤ cfg.max_rewardz_per_epoch)
        × ((rpc.get_account_with_commitment (rewardz_root_pda api sdk program_id) w).0 ≡ ok account)
        × (tx.instructions
            ≡ set_rewardz_root_ix api sdk keypair program_id (root_or_zero tree) epoch
                (total_of (entries_of api sdk rows)) (deny_list_of api account)
              ∷ [])

    submit_root-AtMostOne :
        (rows : List RewardzEarningsRow) (tree : Option RewardzMerkleTree) (cutoff : ℕ)
        → get_rewardz_earnings_grouped t ≡ ok (rows, t)
        → build_rewardz_tree keccak256 false (entries_of api sdk rows) ≡ ok tree
        → total_of (entries_of api sdk rows) ≤ cfg.max_rewardz_per_epoch
        → AtMostOne IsRewardzRoot (
            submit_root api sdk keccak256 env rpc pg keypair program_id epoch
              (root_or_zero tree)
              (entries_of api sdk rows)
              cutoff)
    unfolding submit_root read_on_chain_deny_list
    submit_root-AtMostOne rows tree cutoff grouped built capped =
        AtMostOne-bind_ask _ (deny_list_of api) _ λ account w answered.
          AtMostOne-bind_then _ _
            (AtMostOne-weaken _
              (λ tx p. (rows, tree, account, w, grouped, built, capped, answered, p))
              (send_instruction-AtMostOne rpc keypair _))
            λ sig. Quiet-bind _ _ (Quiet-attempt _ (run_sql-Quiet pg _)) λ saved. Quiet-pure tt

    publish_rows-AtMostOne :
        (rows : List RewardzEarningsRow) (cutoff : ℕ)
        → get_rewardz_earnings_grouped t ≡ ok (rows, t)
        → AtMostOne IsRewardzRoot
            (publish_rows api sdk keccak256 env rpc pg keypair program_id epoch cfg rows cutoff)
    unfolding publish_rows
    publish_rows-AtMostOne rows cutoff grouped =
        AtMostOne-guard (ltb cfg.max_rewardz_per_epoch (total_of (entries_of api sdk rows))) _ _
          (λ over. AtMostOne-Quiet _ (Quiet-lift _))
          λ within. AtMostOne-bind_lift _ _ λ tree built.
            AtMostOne-if (is_dry_run env) _ _ (AtMostOne-Quiet _ (Quiet-pure tt))
              (submit_root-AtMostOne rows tree cutoff grouped built (ground arith))

  grouped_reads :
      (t t' : Tables) (rows : List RewardzEarningsRow)
      → get_rewardz_earnings_grouped t ≡ ok (rows, t')
      → t ≡ t'
  unfolding get_rewardz_earnings_grouped
  grouped_reads t t' rows e = by_groups (sum_groups t.rewardz_earnings _) e
    where
      by_groups :
          (r : Result (List RewardzEarningsRow))
          → ◌≡◌ {A = Result (List RewardzEarningsRow × Tables)}
              (elim r as (λ x. Result (List RewardzEarningsRow × Tables)) [
                | ok out ↦ ok (out, t)
                | err x ↦ err x
              ])
              (ok (rows, t'))
          → t ≡ t'
      by_groups (ok out) h = ground (arith, h)
      by_groups (err x) h = absurd (ground (arith, h))

  -- The answer of the cluster about the root account, and its world after it.
  abbrev root_read : Session World → Result (Option Bytes) × World
  root_read s = rpc.get_account_with_commitment (rewardz_root_pda api sdk program_id) s.world

  -- Which read of the cluster calls for which epoch: the next one, or the first one while no epoch
  -- has been seen.
  abbrev pub IsNextEpoch : Session World → ℕ → ℕ → Type 0
  IsNextEpoch s last_known_epoch epoch =
      (account : Option Bytes) × ((root_read s).0 ≡ ok account)
      × (((e : ℕ) × (epoch_of api account ≡ some e) × (epoch ≡ (e + 1) % 2 ^ 64))
          ⊎ ((epoch_of api account ≡ none) × (last_known_epoch ≡ 0) × (epoch ≡ 1)))

  -- A submission of a turn, with the tables as they are after that read.
  abbrev pub IsTick : Session World → ℕ → Transaction → Type 0
  IsTick s last_known_epoch tx =
      (epoch : ℕ) × (cfg : LeagueConfig) × (load_league_config env.solana_network ≡ ok cfg)
      × IsNextEpoch s last_known_epoch epoch
      × IsRewardzRoot epoch cfg (pg.tables (root_read s).1) tx

  module _ (law : LawfulPg pg) where
    publish_rewardz_root-OneFrom :
        (epoch : ℕ) (cfg : LeagueConfig) (s : Session World)
        → OneFrom
            (IsRewardzRoot epoch cfg (pg.tables s.world))
            s
            (publish_rewardz_root api sdk keccak256 env rpc pg keypair program_id epoch cfg s)
    unfolding publish_rewardz_root select_now
    publish_rewardz_root-OneFrom epoch cfg s =
        elim (run_sql-reads pg law select_now (λ t t' a e. ground (arith, e)) s) [
          | inl (_, failed) ↦ rw failed (inl refl)
          | inr (now, _, answered) ↦
              rw answered
                (elim (run_sql-reads pg law get_rewardz_earnings_grouped grouped_reads s) [
                  | inl (_, failed) ↦ rw failed (inl refl)
                  | inr (rows, grouped, read) ↦
                      rw read (
                        (publish_rows-AtMostOne epoch cfg (pg.tables s.world) rows now grouped).at
                          s)
                ])
        ]

    publish_next-OneFrom :
        (s : Session World) (last current last' : ℕ)
        → IsNextEpoch s last ((current + 1) % 2 ^ 64)
        → let s' : Session World = record s { world = (root_read s).1 } in
          OneFrom
            (IsTick s last)
            s
            (publish_next api sdk keccak256 env rpc pg keypair program_id current last' s')
    unfolding publish_next
    publish_next-OneFrom s last current last' next =
        by_config (load_league_config env.solana_network) refl
      where
        s' : Session World
        s' = record s { world = (root_read s).1 }

        run : Result LeagueConfig → Result ℕ × Session World
        run r =
            (lift r >>= λ cfg.
            attempt (
              publish_rewardz_root api sdk keccak256 env rpc pg keypair program_id
                ((current + 1) % 2 ^ 64) cfg)
            >> pure last')
              s'

        ran :
            {r : Result LeagueConfig}
            → load_league_config env.solana_network ≡ r
            → publish_next api sdk keccak256 env rpc pg keypair program_id current last' s' ≡ run r
        ran e = ap run e

        by_config :
            (r : Result LeagueConfig)
            → load_league_config env.solana_network ≡ r
            → OneFrom
                (IsTick s last)
                s
                (publish_next api sdk keccak256 env rpc pg keypair program_id current last' s')
        by_config (err e) failed = subst (OneFrom (IsTick s last) s) (sym (ran failed)) (inl refl)
        by_config (ok cfg) loaded =
            subst (OneFrom (IsTick s last) s) (sym (ran loaded))
              (elim (publish_rewardz_root-OneFrom ((current + 1) % 2 ^ 64) cfg s') [
                | inl quiet ↦ inl quiet
                | inr (tx, sent, p) ↦ inr (tx, sent, (_, cfg, loaded, next, p))
              ])

    -- What a turn does with the epoch that it read.
    tick_on-OneFrom :
        (s : Session World) (last : ℕ) (account : Option Bytes) (read : Option ℕ)
        → (root_read s).0 ≡ ok account
        → epoch_of api account ≡ read
        → OneFrom (IsTick s last) s (
            tick_on api sdk keccak256 env rpc pg keypair program_id last
              (ok read)
              (record s { world = (root_read s).1 }))
    unfolding tick_on
    tick_on-OneFrom s last account (some e) answered read =
        publish_next-OneFrom s last e e (account, answered, inl (e, read, refl))
    tick_on-OneFrom s last account none answered read = elim (Bool-cases (ltb 0 last)) [
      | inl seen ↦ rw seen (inl refl)
      | inr unseen ↦ rw unseen (
          publish_next-OneFrom s last 0 last
            (account, answered, inr (read, ground (arith, unseen), refl)))
    ]

    -- With a database that keeps what it is given: a turn of the rewardz publisher's loop submits
    -- nothing, or exactly one transaction, whatever the cluster and the database answer. That one sets
    -- the root for the epoch after the one read from the chain, or for epoch 1 if no root account was
    -- read and no epoch has been seen before; the root is that of the tree of the claimable rows that
    -- the tables have after that read, their total is within the cap of the network's configuration and
    -- is part of the data, and the deny list is the one that the cluster answered.
    pub rewardz_publisher_tick_one_transaction :
        (last_known_epoch : ℕ) (s : Session World)
        → ((rewardz_publisher_tick api sdk keccak256 env rpc pg keypair program_id last_known_epoch
              s).1.sent
            ≡ s.sent)
          ⊎ ((tx : Transaction) × ((rewardz_publisher_tick api sdk keccak256 env rpc pg keypair
                  program_id last_known_epoch s).1.sent
                ≡ s.sent ++ tx ∷ [])
              × IsTick s last_known_epoch tx)
    unfolding rewardz_publisher_tick load_current_epoch tick_on
    rewardz_publisher_tick_one_transaction last s = by_answer (root_read s).0 refl
      where
        run : Result (Option Bytes) → Result ℕ × Session World
        run r =
            (attempt (continue r (λ account. pure (epoch_of api account)))
                >>= tick_on api sdk keccak256 env rpc pg keypair program_id last)
              (record s { world = (root_read s).1 })

        by_answer :
            (r : Result (Option Bytes))
            → (root_read s).0 ≡ r
            → OneFrom
                (IsTick s last)
                s
                (rewardz_publisher_tick api sdk keccak256 env rpc pg keypair program_id last s)
        by_answer (err e) failed =
            subst (OneFrom (IsTick s last) s) (sym (ap run failed)) (inl refl)
        by_answer (ok account) answered =
            subst (OneFrom (IsTick s last) s) (sym (ap run answered))
              (tick_on-OneFrom s last account (epoch_of api account) answered refl)

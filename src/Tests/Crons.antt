-- ===== src/Tests/Crons.antt =====
-- The theorems on the other crons of the league, and on the configuration, at small inputs.
use mathlib.Core.Option.{some-injective}
use keeper_bot.Base.{
  ℕ, zero, suc, ◌≤◌, ◌≡◌, refl, ap, sym, pos, true, false, none, some, List, [], ◌∷◌, ◌++◌,
  get_elem?, String, str_eq, to_le_bytes, ok, err, arith, inl, inr,
}
use keeper_bot.Chain.{Transaction, Rpc, Session}
use keeper_bot.LeagueConfig.{devnet_config}
use keeper_bot.Tables.{Tables, ProtocolRow, ProtocolEventRow}
use keeper_bot.Tables
use keeper_bot.VisibilityTick
use keeper_bot.VisibilityTick.{Snapshot, active, decide}
use keeper_bot.VisibilityTick.Decisions.{rank, decide_monotone}
use keeper_bot.VisibilityTick.Settling.{tick_settles}
use keeper_bot.VisibilityTick.Timeline.{InSync, tick-InSync}
use keeper_bot.QualityScore
use keeper_bot.QualityScore.Updates.{tick_inactive}
use keeper_bot.Leaderboard.{write_snapshot_and_bonuses}
use keeper_bot.Leaderboard.Bonuses.{OncePaid, write_snapshot_and_bonuses_once}
use keeper_bot.Leaderboard.Reruns.{write_snapshot_and_bonuses_rerun}
use keeper_bot.Db.{run_sql}
use keeper_bot.Rental.{settle_rentals}
use keeper_bot.Rental.Settlement.{SettleEach, settle_rentals_each}
use keeper_bot.Config.Decimal.{default_config}
use keeper_bot.Subscriptions.{Client, poll_subscriptions}
use keeper_bot.Subscriptions.Streaks.{
  StreaksBounded, poll_subscriptions_bounded, poll_subscriptions_unresolved,
}
use keeper_bot.Tests.Samples.{
  plain_pg, plain_pg-LawfulPg, no_rows, one_account, fixed_point, alice, bob,
}

abbrev idle_protocol : ℕ → String → ProtocolRow
idle_protocol id status = record {
  id = id;
  admin_wallet = "admin";
  status = status;
  visibility = "active";
  remaining_capacity = some (pos 10);
  capacity_window_start = some 500;
  active_stake = none;
  capacity_unlocked_at = none;
  referral_code = none;
  quality_score = some 3000;
}

abbrev subscription : Tables.SubscriptionRow
subscription = record {
  subscription_id = "sub";
  wallet_address = "wallet";
  intent_query = "swap";
  auto_execute = true;
  status = "active";
  streak_current = pos 6;
  streak_longest = pos 6;
  multiplier = 12000;
  frequency = "weekly";
  last_executed_at = none;
  next_due_at = 900;
  updated_at = 900;
}

abbrev cron_tables : Tables
cron_tables = record no_rows {
  protocols = idle_protocol 1 "active" ∷ idle_protocol 2 "paused" ∷ [];
  subscriptions = subscription ∷ [];
}

abbrev cron_start : Session Tables
cron_start = record { world = cron_tables; sent = [] }

abbrev good_snapshot : Snapshot
good_snapshot = record {
  protocol_id = 1;
  current = active;
  capacity_pct = 9000;
  hours_since_last_event = some 10000;
  open_high_flag = false;
  open_any_flag = false;
  quality_score = 5000;
}

abbrev flagged_snapshot : Snapshot
flagged_snapshot = record good_snapshot { open_any_flag = true; hours_since_last_event = none }

decide_monotone_example :
    rank (decide fixed_point devnet_config good_snapshot)
    ≤ rank (decide fixed_point devnet_config flagged_snapshot)
decide_monotone_example =
    decide_monotone fixed_point devnet_config good_snapshot flagged_snapshot
      (λ x y z h k. ground (arith, h, k))
      (record {
        capacity = refl;
        inactivity = refl;
        high_flag = λ h. h;
        any_flag = λ h. refl;
        quality = refl;
      })

tick-InSync_example :
    InSync (VisibilityTick.tick fixed_point devnet_config plain_pg cron_start).1.world
tick-InSync_example =
    tick-InSync fixed_point devnet_config plain_pg plain_pg-LawfulPg cron_start
      (inl refl, (inl refl, tt))

paused_only :
    (j : ℕ) (q : ProtocolRow)
    → get_elem? cron_tables.protocols j ≡ some q
    → q.id ≡ 2
    → str_eq q.status "active" ≡ false
paused_only zero q at same = absurd (ground (arith, at, same))
paused_only (suc zero) q at same =
    ap (λ r. str_eq r.status "active") (sym (some-injective (idle_protocol 2 "paused") q at))
paused_only (suc (suc j)) q at same = absurd (ground (arith, at))

tick_inactive_example :
    get_elem? (QualityScore.tick fixed_point devnet_config plain_pg cron_start).1.world.protocols 1
    ≡ some (idle_protocol 2 "paused")
tick_inactive_example =
    tick_inactive fixed_point devnet_config plain_pg plain_pg-LawfulPg cron_start 1
      (idle_protocol 2 "paused") refl paused_only

write_snapshot_and_bonuses_once_example :
    OncePaid
      (write_snapshot_and_bonuses fixed_point devnet_config
        (λ now. "2026-01-01")
        plain_pg
        cron_start).1.world
write_snapshot_and_bonuses_once_example =
    write_snapshot_and_bonuses_once fixed_point devnet_config (λ now. "2026-01-01") plain_pg
      plain_pg-LawfulPg cron_start (tt, tt)

-- A cluster that lists two agreements and confirms nothing.
abbrev refusing : Rpc Tables
refusing = record (one_account []) {
  get_program_accounts = λ pk filters w. (ok ((alice, []) ∷ (bob, []) ∷ []), w);
  send_and_confirm_transaction = λ tx w. (err "blockhash expired", w);
}

settle_rentals_each_example :
    (txs : List Transaction) × ((settle_rentals refusing alice bob cron_start).0 ≡ ok tt)
    × ((settle_rentals refusing alice bob cron_start).1.sent ≡ [] ++ txs)
    × SettleEach refusing alice bob ((alice, []) ∷ (bob, []) ∷ []) txs
settle_rentals_each_example =
    settle_rentals_each refusing alice bob (λ w. (to_le_bytes 32 3, refl))
      ((alice, []) ∷ (bob, []) ∷ []) cron_tables cron_start refl

-- A client that answers every call with a status.
abbrev answering : ℕ → Client Tables
answering status = record { post = λ url key query wallet w. (ok status, w) }

poll_subscriptions_bounded_example :
    StreaksBounded
      (poll_subscriptions fixed_point
        (default_config "db" "key" alice)
        (answering 200)
        plain_pg
        cron_start).1.world
poll_subscriptions_bounded_example =
    poll_subscriptions_bounded fixed_point (default_config "db" "key" alice) (answering 200)
      plain_pg plain_pg-LawfulPg (λ url key query wallet w. refl) cron_start (refl, tt)

poll_subscriptions_unresolved_example :
    ((poll_subscriptions fixed_point
        (default_config "db" "key" alice)
        (answering 503)
        plain_pg
        cron_start).0
      ≡ ok tt)
    × ((poll_subscriptions fixed_point
          (default_config "db" "key" alice)
          (answering 503)
          plain_pg
          cron_start).1.world
        ≡ cron_tables)
poll_subscriptions_unresolved_example =
    poll_subscriptions_unresolved fixed_point (default_config "db" "key" alice) (answering 503)
      plain_pg plain_pg-LawfulPg (λ url key query wallet w. refl)
      (λ url key query wallet w. inr (503, refl, refl)) cron_start refl

ticked :
    (n : ℕ) × (s' : Session Tables) × (VisibilityTick.tick fixed_point devnet_config plain_pg
        cron_start
      ≡ (ok n, s'))
unfolding VisibilityTick.tick run_sql VisibilityTick.load_snapshots decide VisibilityTick.from_db
ticked = (_, _, refl)

tick_settles_example :
    VisibilityTick.tick fixed_point devnet_config plain_pg ticked.1 ≡ (ok 0, ticked.1)
tick_settles_example =
    tick_settles fixed_point devnet_config plain_pg plain_pg-LawfulPg (λ w. refl) cron_start
      ticked.1 ticked.0 ((λ e. absurd (ground (arith, e)), tt), (tt, tt)) ticked.2

write_snapshot_and_bonuses_rerun_example :
    (write_snapshot_and_bonuses fixed_point devnet_config
      (λ now. "2026-01-01")
      plain_pg
      (write_snapshot_and_bonuses fixed_point devnet_config
        (λ now. "2026-01-01")
        plain_pg
        cron_start).1).1
    ≡ (write_snapshot_and_bonuses fixed_point devnet_config
        (λ now. "2026-01-01")
        plain_pg
        cron_start).1
write_snapshot_and_bonuses_rerun_example =
    write_snapshot_and_bonuses_rerun fixed_point devnet_config (λ now. "2026-01-01") plain_pg
      plain_pg-LawfulPg cron_start refl refl

-- ===== src/Tests/League.antt =====
-- The theorems on flags and awards at a table of two protocols, one of which serves only its admin.
use keeper_bot.Base.{
  ℕ, ◌≡◌, refl, pos, false, not, ◌&&◌, ◌||◌, none, some, List, [], ◌∷◌, ◌++◌, String, str_eq, ok,
  err, arith, ◌⊎◌,
}
use keeper_bot.Chain.{Session}
use keeper_bot.LeagueConfig.{devnet_config}
use keeper_bot.Tables.{Tables, ProtocolRow, PointEventRow}
use keeper_bot.Db.{Dialect, run_sql, eq_ℤ, to_bigint}
use keeper_bot.Db.Rows.{DistinctIds}
use keeper_bot.AntiAbuse
use keeper_bot.AntiAbuse.{
  has_open_flag, self_share, insert_flags, detect_repetitive_self_use, detect_unused_issuance,
  detect_daily_cap_self,
}
use keeper_bot.AntiAbuse.Totals.{signals}
use keeper_bot.AntiAbuse.Once.{Orderly, tick_one_open, tick_refines, tick_twice}
use keeper_bot.MilestoneProcessor
use keeper_bot.MilestoneProcessor.{
  is_awarded, is_frozen, first_blink, insert_statement, award, scaled,
}
use keeper_bot.MilestoneProcessor.Insertions.{OneAward}
use keeper_bot.MilestoneProcessor.Awards.{insert_statement_refines}
use keeper_bot.MilestoneProcessor.Ticks.{Awarded, tick-OneAward, tick-Awarded}
use keeper_bot.Tests.Samples.{plain_pg, plain_pg-LawfulPg, no_rows, fixed_point}

abbrev league_protocol : ℕ → String → ProtocolRow
league_protocol id admin_wallet = record {
  id = id;
  admin_wallet = admin_wallet;
  status = "active";
  visibility = "active";
  remaining_capacity = some (pos 40);
  capacity_window_start = some 500;
  active_stake = none;
  capacity_unlocked_at = none;
  referral_code = none;
  quality_score = none;
}

abbrev event_by : String → PointEventRow
event_by wallet = record {
  protocol_id = 1;
  user_wallet = wallet;
  event_type = "awarded";
  created_at = 900;
}

abbrev five : List PointEventRow
five = event_by "one" ∷ event_by "one" ∷ event_by "one" ∷ event_by "one" ∷ event_by "one" ∷ []

-- All ten events of the first protocol are by its admin.
abbrev league_tables : Tables
league_tables = record no_rows {
  protocols = league_protocol 1 "one" ∷ league_protocol 2 "two" ∷ [];
  point_events = five ++ five;
  milestones = record { id = pos 7; slug = "first_blink"; bucket = "activation" } ∷ [];
  milestone_rewards =
      record { milestone_id = pos 7; network = "devnet"; rewardz_amount = pos 100 } ∷ [];
}

league_tables-DistinctIds : DistinctIds league_tables.protocols
league_tables-DistinctIds = ((λ e. absurd (ground (arith, e)), tt), (tt, tt))

abbrev league_start : Session Tables
league_start = record { world = league_tables; sent = [] }

tick_refines_example :
    (n : ℕ) × (s' : Session Tables) × (AntiAbuse.tick fixed_point devnet_config plain_pg
        league_start
      ≡ (ok n, s'))
    × (has_open_flag "repetitive_self_use" 1 s'.world.abuse_flags ≡ (
        false
        || str_eq "active" "active"
          && signals plain_pg.dialect fixed_point devnet_config league_tables
              (league_protocol 1 "one")
              "repetitive_self_use"))
tick_refines_example =
    tick_refines fixed_point devnet_config plain_pg plain_pg-LawfulPg (λ w. refl) league_start 0
      (league_protocol 1 "one") "repetitive_self_use" league_tables-DistinctIds refl

tick_one_open_example :
    Orderly (AntiAbuse.tick fixed_point devnet_config plain_pg league_start).1.world
tick_one_open_example =
    tick_one_open fixed_point devnet_config plain_pg plain_pg-LawfulPg league_start
      (league_tables-DistinctIds, tt)

abbrev after_flags : Session Tables
after_flags = (AntiAbuse.tick fixed_point devnet_config plain_pg league_start).1

first_flags : AntiAbuse.tick fixed_point devnet_config plain_pg league_start ≡ (ok 1, after_flags)
unfolding AntiAbuse.tick detect_repetitive_self_use detect_unused_issuance detect_daily_cap_self
    insert_flags self_share run_sql
first_flags = refl

tick_twice_example :
    AntiAbuse.tick fixed_point devnet_config plain_pg after_flags ≡ (ok 0, after_flags)
tick_twice_example =
    tick_twice fixed_point devnet_config plain_pg plain_pg-LawfulPg (λ w. refl) league_start
      after_flags 1 league_tables-DistinctIds first_flags

-- A server that refuses the conflict clause, as PostgreSQL does.
abbrev refusing : Dialect
refusing = record { bigint_interval = some "no function"; partial_index = some "no constraint" }

insert_statement_refused :
    insert_statement refusing (pos 7) (pos 100) "first_blink" first_blink league_tables
    ≡ err "no constraint"
unfolding insert_statement
insert_statement_refused = refl

insert_statement_refines_example :
    ((e : String) × (plain_pg.dialect.partial_index ≡ some e)
      × (insert_statement plain_pg.dialect (pos 7) (pos 100) "first_blink" first_blink league_tables
          ≡ err e))
    ⊎ ((plain_pg.dialect.partial_index ≡ none)
        × (n : ℕ) × (t' : Tables) × (insert_statement plain_pg.dialect
              (pos 7)
              (pos 100)
              "first_blink"
              first_blink
              league_tables
            ≡ ok (n, t'))
        × (is_awarded 1 (pos 7) t'.rewardz_earnings ≡ (
            false
            || eq_ℤ (pos 7) (pos 7)
              && str_eq "active" "active"
              && not (is_frozen 1 [])
              && first_blink (five ++ five) (league_protocol 1 "one"))))
unfolding scaled to_bigint
insert_statement_refines_example =
    insert_statement_refines plain_pg.dialect (pos 7) (pos 100) "first_blink" first_blink
      league_tables (pos 7) 0 (league_protocol 1 "one") league_tables-DistinctIds
      ((pos 100, refl), tt) refl

tick-OneAward_example :
    OneAward (MilestoneProcessor.tick devnet_config plain_pg league_start).1.world.rewardz_earnings
tick-OneAward_example = tick-OneAward devnet_config plain_pg plain_pg-LawfulPg league_start tt

tick-Awarded_example :
    Awarded league_tables (MilestoneProcessor.tick devnet_config plain_pg league_start).1.world
tick-Awarded_example = tick-Awarded devnet_config plain_pg plain_pg-LawfulPg league_start

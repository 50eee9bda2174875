-- ===== src/Leaderboard.antt =====
-- src/leaderboard.rs: the daily snapshot of the best protocols and their bonus.
pub mod Bonuses
pub mod Reruns
use keeper_bot.Base.{
  ℕ, ◌+◌, ◌-◌, ◌*◌, ℤ, pos, as_i64, Bool, true, false, not, ◌&&◌, ◌||◌, Option, none, some, List,
  [], ◌∷◌, ◌++◌, map, ◌==◌, ltb, leb, if◌then◌else◌, length, take, String, str_eq, str_append,
  Result, ok, err,
}
use keeper_bot.Float64.{Double, Float64}
use keeper_bot.Chain.{Session, Io, pure, ◌>>=◌}
use keeper_bot.LeagueConfig.{LeagueConfig}
use keeper_bot.Tables.{Tables, ProtocolRow, PointEventRow, EarningRow, SnapshotRow}
use keeper_bot.Db.{Dialect, unless_refused, Pg, run_sql, where_rows, is_null}
use keeper_bot.AntiAbuse.{events_by}
use keeper_bot.MilestoneProcessor.{events_of_others, wallets_of, spans}

abbrev pub ranking_window_hours : ℕ
ranking_window_hours = 168

-- The baselines in ten-thousandths.
abbrev pub unique_baseline : ℕ
unique_baseline = 100 * 10000

abbrev pub repeat_users_baseline : ℕ
repeat_users_baseline = 50 * 10000

abbrev pub completions_baseline : ℕ
completions_baseline = 200 * 10000

-- A row of `per_protocol`, with its score.
pub record Scored : Type 0 where
  pub protocol_id : ℕ
  pub unique_wallets : ℕ
  pub repeat_users : ℕ
  pub completions : ℕ
  pub score : Double

-- The events of the window by others than the admin.
abbrev pub counted_events : Tables → ProtocolRow → List PointEventRow
counted_events t p =
    where_rows
      (λ (e : PointEventRow). leb t.now (e.created_at + ranking_window_hours * 3600 * 1000000))
      (events_of_others t.point_events p)

-- `HAVING (MAX(pe2.created_at) - MIN(pe2.created_at)) >= INTERVAL '24 hours'`.
abbrev pub count_repeat_users : List PointEventRow → ℕ
count_repeat_users events =
    length (where_rows (λ wallet. spans 24 (events_by wallet events)) (wallets_of events))

abbrev pub count_completions : List PointEventRow → ℕ
count_completions events =
    length (where_rows (λ (e : PointEventRow). str_eq e.event_type "awarded") events)

-- `WHERE p.status = 'active' AND p.visibility <> 'hidden'`.
abbrev pub is_eligible : ProtocolRow → Bool
is_eligible p = str_eq p.status "active" && not (str_eq p.visibility "hidden")

-- `COALESCE(p.quality_score, 0)`.
abbrev pub quality_or_zero : Option ℕ → ℕ
quality_or_zero none = 0
quality_or_zero (some q) = q

module _ (fl : Float64) (cfg : LeagueConfig) where
  -- `LEAST(.., 1.0)`.
  abbrev pub at_most_one : Double → Double
  at_most_one x = if fl.le x (fl.literal 10000) then x else fl.literal 10000

  abbrev pub ratio_of : ℕ → ℕ → Double
  ratio_of count baseline = at_most_one (fl.over (fl.of_int (pos count)) (fl.literal baseline))

  abbrev pub score_of : ℕ → ℕ → ℕ → ℕ → Double
  score_of quality unique repeats completions =
      let weights = cfg.ranking_weights in
      fl.plus
        (fl.plus
          (fl.plus (fl.times (fl.literal weights.quality) (at_most_one (fl.literal quality)))
            (fl.times (fl.literal weights.unique_wallets) (ratio_of unique unique_baseline)))
          (fl.times (fl.literal weights.repeat_users) (ratio_of repeats repeat_users_baseline)))
        (fl.times (fl.literal weights.completions) (ratio_of completions completions_baseline))

  abbrev pub scored_row : Tables → ProtocolRow → Scored
  scored_row t p =
      let events = counted_events t p in
      let unique = length (wallets_of events) in
      let repeats = count_repeat_users events in
      let completions = count_completions events in
      record {
        protocol_id = p.id;
        unique_wallets = unique;
        repeat_users = repeats;
        completions = completions;
        score = score_of (quality_or_zero p.quality_score) unique repeats completions;
      }

  -- `ORDER BY score DESC, protocol_id ASC`.
  abbrev pub is_before : Scored → Scored → Bool
  is_before a b =
      fl.lt b.score a.score || not (fl.lt a.score b.score) && leb a.protocol_id b.protocol_id

  unfoldable pub insert_ranked : Scored → List Scored → List Scored
  insert_ranked a [] = a ∷ []
  insert_ranked a (b ∷ rows) =
      let rest = insert_ranked a rows in if is_before a b then a ∷ b ∷ rows else b ∷ rest

  unfoldable pub ranked : List Scored → List Scored
  unfolding insert_ranked
  ranked [] = []
  ranked (a ∷ rows) = insert_ranked a (ranked rows)

-- The rows of the `INSERT`, ranked from a rank on. `rk <= $1` takes the first ones.
abbrev pub snapshot_row : String → ℤ → ℕ → Scored → SnapshotRow
snapshot_row date bonus rank a = record {
  snapshot_date = date;
  rank = rank;
  protocol_id = a.protocol_id;
  unique_wallets = a.unique_wallets;
  repeat_users = a.repeat_users;
  successful_completions = a.completions;
  bonus_awarded = bonus;
  featured = true;
}

unfoldable pub snapshot_rows : String → ℤ → ℕ → List Scored → List SnapshotRow
snapshot_rows date bonus rank [] = []
snapshot_rows date bonus rank (a ∷ rows) =
    snapshot_row date bonus rank a ∷ snapshot_rows date bonus (rank + 1) rows

-- The unique constraints on `(snapshot_date, rank)` and `(snapshot_date, protocol_id)`.
abbrev pub is_taken : SnapshotRow → List SnapshotRow → Bool
is_taken row [] = false
is_taken row (r ∷ rows) =
    str_eq r.snapshot_date row.snapshot_date
      && (r.rank == row.rank || r.protocol_id == row.protocol_id)
    || is_taken row rows

-- `ON CONFLICT DO NOTHING`, and `rows_affected`.
unfoldable pub insert_snapshots : List SnapshotRow → List SnapshotRow → List SnapshotRow × ℕ
insert_snapshots [] rows = (rows, 0)
insert_snapshots (r ∷ new) rows =
    let taken = is_taken r rows in
    let (rest, n) = insert_snapshots new (if taken then rows else rows ++ r ∷ []) in
    (rest, if taken then n else n + 1)

-- `ON CONFLICT (protocol_id, reason) WHERE milestone_id IS NULL DO NOTHING`.
abbrev pub has_bonus : ℕ → String → List EarningRow → Bool
has_bonus id reason [] = false
has_bonus id reason (r ∷ rows) =
    r.protocol_id == id && str_eq r.reason reason && is_null r.milestone_id
    || has_bonus id reason rows

unfoldable pub insert_bonuses : List EarningRow → List EarningRow → List EarningRow × ℕ
insert_bonuses [] rows = (rows, 0)
insert_bonuses (r ∷ new) rows =
    let paid = has_bonus r.protocol_id r.reason rows in
    let (rest, n) = insert_bonuses new (if paid then rows else rows ++ r ∷ []) in
    (rest, if paid then n else n + 1)

-- The rows of the second `SELECT`: `JOIN protocols p ON p.id = s.protocol_id`.
abbrev pub bonus_row : ℕ → ℤ → SnapshotRow → ProtocolRow → EarningRow
bonus_row now bonus s p = record {
  protocol_id = s.protocol_id;
  protocol_authority = p.admin_wallet;
  amount = bonus;
  reason = str_append "leaderboard:" s.snapshot_date;
  milestone_id = none;
  created_at = now;
  included_in_root_epoch = none;
}

unfoldable pub bonus_rows : ℕ → ℤ → List SnapshotRow → List ProtocolRow → List EarningRow
bonus_rows now bonus [] protocols = []
bonus_rows now bonus (s ∷ snapshots) protocols =
    map (bonus_row now bonus s) (where_rows (λ (p : ProtocolRow). p.id == s.protocol_id) protocols)
    ++ bonus_rows now bonus snapshots protocols

-- `current_date` is the text of `CURRENT_DATE` at a time, in the time zone of the session.
module _ (fl : Float64) (cfg : LeagueConfig) (current_date : ℕ → String) where
  -- The rows of the first `SELECT`, with `rk <= $1`.
  abbrev pub new_snapshots : Tables → List SnapshotRow
  new_snapshots t = snapshot_rows (current_date t.now) (as_i64 cfg.leaderboard_bonus_rewardz) 1 (
      take cfg.leaderboard_top_n
        (ranked fl cfg (map (scored_row fl cfg t) (where_rows is_eligible t.protocols))))

  unfoldable pub snapshot_statement : Dialect → Tables → Result (ℕ × Tables)
  unfolding insert_snapshots
  snapshot_statement dialect t =
      let (rows, n) = insert_snapshots (new_snapshots t) t.league_leaderboard_snapshots in
      unless_refused dialect.bigint_interval
        (ok (n, record t { league_leaderboard_snapshots = rows }))

  -- `WHERE s.snapshot_date = CURRENT_DATE`.
  abbrev pub new_bonuses : Tables → List EarningRow
  new_bonuses t =
      bonus_rows t.now (as_i64 cfg.leaderboard_bonus_rewardz)
        (where_rows (λ (s : SnapshotRow). str_eq s.snapshot_date (current_date t.now))
          t.league_leaderboard_snapshots)
        t.protocols

  unfoldable pub bonus_statement : Tables → Result (ℕ × Tables)
  unfolding insert_bonuses
  bonus_statement t =
      let (rows, n) = insert_bonuses (new_bonuses t) t.rewardz_earnings in
      ok (n, record t { rewardz_earnings = rows })

  module _ {World : Type 0} (pg : Pg World) where
    -- What follows the insertion of the snapshot rows.
    abbrev pub award_bonuses : ℕ → Io World ℕ
    award_bonuses inserted =
        if inserted == 0 then pure 0 else (do bonuses ← run_sql pg bonus_statement; pure inserted)

    unfoldable pub write_snapshot_and_bonuses : Io World ℕ
    unfolding snapshot_statement bonus_statement
    write_snapshot_and_bonuses = do
      inserted ← run_sql pg (snapshot_statement pg.dialect)
      award_bonuses inserted

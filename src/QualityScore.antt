-- ===== src/QualityScore.antt =====
-- src/quality_score.rs: the cron that scores each active protocol.
pub mod Updates
use keeper_bot.Base.{
  ℕ, ◌+◌, ◌-◌, ◌*◌, pos, Bool, ◌&&◌, List, [], ◌∷◌, map, ◌==◌, leb, if◌then◌else◌, length, String,
  str_eq, Option, some, none, Result, ok, err,
}
use keeper_bot.Float64.{Double, Float64}
use keeper_bot.Chain.{Session, Io, pure, attempt, ◌>>=◌, ◌>>◌}
use keeper_bot.LeagueConfig.{LeagueConfig}
use keeper_bot.Tables.{Tables, ProtocolRow, PointEventRow, EarningRow, MilestoneRow}
use keeper_bot.Db.{Pg, Dialect, unless_refused, run_sql, where_rows}
use keeper_bot.AntiAbuse.{events_of, events_by}
use keeper_bot.MilestoneProcessor.{wallets_of, spans, is_milestone}

-- In ten-thousandths.
abbrev pub unique_wallets_baseline : ℕ
unique_wallets_baseline = 100 * 10000

abbrev pub completion_score_placeholder : ℕ
completion_score_placeholder = 10000

pub record Components : Type 0 where
  pub u : Double
  pub r : Double
  pub c : Double
  pub s : Double

-- A number of hours `as i64` is the number itself below 2^63, as in both presets.
-- `protocol_id = $1 AND created_at >= NOW() - make_interval(hours => $2)`.
abbrev pub events_within : ℕ → ℕ → ℕ → List PointEventRow → List PointEventRow
events_within now hours id events =
    where_rows (λ (e : PointEventRow). leb now (e.created_at + hours * 3600 * 1000000))
      (events_of id events)

unfoldable pub count_unique : Dialect → ℕ → ℕ → Tables → Result (ℕ × Tables)
count_unique dialect id hours t =
    unless_refused dialect.bigint_interval
      (ok (length (wallets_of (events_within t.now hours id t.point_events)), t))

unfoldable pub count_repeats : Dialect → ℕ → ℕ → ℕ → Tables → Result (ℕ × Tables)
count_repeats dialect id hours gap t =
    let rows = events_within t.now hours id t.point_events in
    unless_refused dialect.bigint_interval
      (ok (length (where_rows (λ wallet. spans gap (events_by wallet rows)) (wallets_of rows)), t))

-- `JOIN milestones m ON m.id = re.milestone_id WHERE .. AND m.bucket = 'social'`: the pairs.
unfoldable pub social_rows : ℕ → List EarningRow → List MilestoneRow → ℕ
social_rows id [] milestones = 0
social_rows id (re ∷ rows) milestones =
    let here = length (
      where_rows
        (λ (m : MilestoneRow). is_milestone m.id re.milestone_id && str_eq m.bucket "social")
        milestones) in
    let rest = social_rows id rows milestones in if re.protocol_id == id then here + rest else rest

unfoldable pub count_social : ℕ → Tables → Result (ℕ × Tables)
unfolding social_rows
count_social id t = ok (social_rows id t.rewardz_earnings t.milestones, t)

-- `UPDATE protocols SET quality_score = $1::numeric WHERE id = $2`.
abbrev pub set_quality : ℕ → ℕ → ProtocolRow → ProtocolRow
set_quality id q p = if p.id == id then record p { quality_score = some q } else p

unfoldable pub update_score : ℕ → ℕ → Tables → Result (Unit {0} × Tables)
update_score id q t = ok (tt, record t { protocols = map (set_quality id q) t.protocols })

unfoldable pub active_ids : Tables → Result (List ℕ × Tables)
active_ids t = ok (
  map (λ (p : ProtocolRow). p.id)
      (where_rows (λ (p : ProtocolRow). str_eq p.status "active") t.protocols),
  t,
)

module _ (fl : Float64) (cfg : LeagueConfig) where
  -- `clamp(0.0, 1.0)`.
  abbrev pub clamp : Double → Double
  clamp x =
      let low = if fl.lt x (fl.literal 0) then fl.literal 0 else x in
      if fl.lt (fl.literal 10000) low then fl.literal 10000 else low

  abbrev pub weighted : Components → Double
  weighted comps =
      let weights = cfg.quality_weights in
      clamp (
        fl.plus
          (fl.plus
            (fl.plus (fl.times (fl.literal weights.u) comps.u)
              (fl.times (fl.literal weights.r) comps.r))
            (fl.times (fl.literal weights.c) comps.c))
          (fl.times (fl.literal weights.s) comps.s))

  abbrev pub share : ℕ → Double → Double
  share count whole = clamp (fl.over (fl.of_int (pos count)) whole)

  module _ {World : Type 0} (pg : Pg World) where
    -- The part of `compute_engagement` after the number of unique wallets.
    abbrev pub engagement_of : ℕ → ℕ → Io World (Double × Double)
    engagement_of protocol_id unique =
        let u_component = share unique (fl.literal unique_wallets_baseline) in
        if unique == 0 then pure (u_component, fl.literal 0) else (do
          repeats ←
              run_sql pg (
                count_repeats pg.dialect protocol_id cfg.activity_window_hours cfg.repeat_gap_hours)
          pure (u_component, share repeats (fl.of_int (pos unique))))

    unfoldable pub compute_engagement : ℕ → Io World (Double × Double)
    compute_engagement protocol_id = do
      unique ← run_sql pg (count_unique pg.dialect protocol_id cfg.activity_window_hours)
      engagement_of protocol_id unique

    unfoldable pub compute_social : ℕ → Io World Double
    compute_social protocol_id = do
      count ← run_sql pg (count_social protocol_id)
      pure (share count (fl.literal 20000))

    unfoldable pub score_one : ℕ → Io World (Unit {0})
    unfolding compute_engagement compute_social
    score_one protocol_id = do
      (u, r) ← compute_engagement protocol_id
      s ← compute_social protocol_id
      run_sql pg (
          update_score protocol_id (
            fl.ten_thousandths (
              weighted
                (record { u = u; r = r; c = fl.literal completion_score_placeholder; s = s }))))

    -- `continue` on an error, `scored += 1` otherwise.
    abbrev pub scored_by : Result (Unit {0}) → ℕ
    scored_by (ok _) = 1
    scored_by (err e) = 0

    -- `for row in &rows`, with the count so far.
    unfoldable pub score_all : List ℕ → ℕ → Io World ℕ
    unfolding score_one
    score_all [] scored = pure scored
    score_all (id ∷ ids) scored = do
      result ← attempt (score_one id)
      score_all ids (scored + scored_by result)

    unfoldable pub tick : Io World ℕ
    unfolding score_all
    tick = do ids ← run_sql pg active_ids; score_all ids 0

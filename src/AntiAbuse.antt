-- ===== src/AntiAbuse.antt =====
-- src/anti_abuse.rs: the cron that raises flags on the active protocols. A count is a BIGINT of rows
-- and never near its end.
pub mod Flags
pub mod Once
pub mod Totals
use keeper_bot.Base.{
  ℕ, ◌+◌, ◌-◌, ◌*◌, ℤ, pos, as_i64, Bool, true, false, not, ◌&&◌, ◌||◌, Option, none, some, List,
  [], ◌∷◌, ◌++◌, map, ◌==◌, ltb, leb, ltb_ℤ, if◌then◌else◌, length, String, str_eq, Result, ok, err,
}
use keeper_bot.Float64.{Double, Float64}
use keeper_bot.Chain.{Session, Io, pure, attempt, ◌>>=◌}
use keeper_bot.LeagueConfig.{LeagueConfig}
use keeper_bot.Tables.{
  Tables, ProtocolRow, PointEventRow, AbuseFlagRow, Json, number, integer, ratio, double, text,
}
use keeper_bot.Db.{Pg, Dialect, unless_refused, run_sql, where_rows, is_null, eq_ℤ}

abbrev pub self_use_min_events : ℕ
self_use_min_events = 10

-- The thresholds in ten-thousandths.
abbrev pub self_use_low_threshold : ℕ
self_use_low_threshold = 5000

abbrev pub self_use_medium_threshold : ℕ
self_use_medium_threshold = 7500

abbrev pub unused_issuance_days : ℕ
unused_issuance_days = 7

-- A day in microseconds.
abbrev pub day : ℕ
day = 24 * 3600 * 1000000

-- `FROM point_events pe WHERE pe.protocol_id = p.id`.
abbrev pub events_of : ℕ → List PointEventRow → List PointEventRow
events_of id = where_rows λ (e : PointEventRow). e.protocol_id == id

-- `AND pe.created_at >= NOW() - INTERVAL '24 hours'`.
abbrev pub events_of_day : ℕ → ℕ → List PointEventRow → List PointEventRow
events_of_day now id events =
    where_rows (λ (e : PointEventRow). leb now (e.created_at + day)) (events_of id events)

-- `pe.user_wallet = p.admin_wallet`.
abbrev pub events_by : String → List PointEventRow → List PointEventRow
events_by wallet = where_rows λ (e : PointEventRow). str_eq e.user_wallet wallet

-- `EXISTS (SELECT 1 FROM abuse_flags a WHERE .. AND a.resolved_at IS NULL)`.
abbrev pub is_open_flag : String → ℕ → AbuseFlagRow → Bool
is_open_flag kind id f = f.protocol_id == id && str_eq f.kind kind && is_null f.resolved_at

abbrev pub has_open_flag : String → ℕ → List AbuseFlagRow → Bool
has_open_flag kind id [] = false
has_open_flag kind id (f ∷ fs) = is_open_flag kind id f || has_open_flag kind id fs

-- The part that the three statements share: `INSERT INTO abuse_flags .. SELECT .. FROM protocols p
-- WHERE p.status = 'active' AND .. AND NOT EXISTS ..`. A detector gives what it selects by and how it
-- describes a row, with a severity and the evidence.
abbrev pub is_flagged : String → (ProtocolRow → Bool) → List AbuseFlagRow → ProtocolRow → Bool
is_flagged kind selects flags p =
    str_eq p.status "active" && selects p && not (has_open_flag kind p.id flags)

abbrev pub flag_of :
    String → (ProtocolRow → String × List (String × Json)) → ProtocolRow → AbuseFlagRow
flag_of kind describe p =
    let (severity, evidence) = describe p in
    record {
      protocol_id = p.id;
      kind = kind;
      severity = severity;
      evidence = evidence;
      resolved_at = none;
    }

unfoldable pub insert_flags :
    String
    → (ProtocolRow → Bool)
    → (ProtocolRow → String × List (String × Json))
    → Tables
    → Result (ℕ × Tables)
insert_flags kind selects describe t =
    let flagged = where_rows (is_flagged kind selects t.abuse_flags) t.protocols in
    ok (
      length flagged,
      record t { abuse_flags = t.abuse_flags ++ map (flag_of kind describe) flagged },
    )

module _ (fl : Float64) where
  -- `stats.self_share`, of the number of the admin's events and of all events.
  unfoldable pub self_share : ℕ → ℕ → Double
  self_share self total =
      if total == 0 then fl.literal 0 else fl.over (fl.of_int (pos self)) (fl.of_int (pos total))

  -- `stats` of one protocol: the events of the last 24 hours and those of the admin.
  abbrev pub self_use_stats : Tables → ProtocolRow → ℕ × ℕ × Double
  self_use_stats t p =
      let total = length (events_of_day t.now p.id t.point_events) in
      let self = length (events_by p.admin_wallet (events_of_day t.now p.id t.point_events)) in
      (total, self, self_share self total)

  abbrev pub is_self_use : Tables → ProtocolRow → Bool
  is_self_use t p =
      let (total, self, share) = self_use_stats t p in
      leb self_use_min_events total && fl.le (fl.literal self_use_low_threshold) share

  abbrev pub describe_self_use : Tables → ProtocolRow → String × List (String × Json)
  describe_self_use t p =
      let (total, self, share) = self_use_stats t p in
      (
        if fl.le (fl.literal self_use_medium_threshold) share then "medium" else "low",
        ("window_hours", number 24)
            ∷ ("total_events", number total)
            ∷ ("self_events", number self)
            ∷ ("self_share", double share)
            ∷ [],
      )

  unfoldable pub detect_repetitive_self_use : Tables → Result (ℕ × Tables)
  unfolding insert_flags
  detect_repetitive_self_use t =
      insert_flags "repetitive_self_use" (is_self_use t) (describe_self_use t) t

-- `p.capacity_window_start <= NOW() - make_interval(days => $2)`.
abbrev pub is_parked_since : ℕ → Option ℕ → Bool
is_parked_since now none = false
is_parked_since now (some start) = leb (start + unused_issuance_days * day) now

-- `p.remaining_capacity = $1`.
abbrev pub is_capacity : ℤ → Option ℤ → Bool
is_capacity baseline none = false
is_capacity baseline (some capacity) = eq_ℤ capacity baseline

abbrev pub no_events : ℕ → List PointEventRow → Bool
no_events id events = length (events_of id events) == 0

abbrev pub is_unused : ℤ → Tables → ProtocolRow → Bool
is_unused baseline t p =
    is_parked_since t.now p.capacity_window_start
    && is_capacity baseline p.remaining_capacity
    && no_events p.id t.point_events

-- `EXTRACT(EPOCH FROM (NOW() - p.capacity_window_start)) / 86400.0`.
abbrev pub days_since : ℕ → Option ℕ → Json
days_since now none = Json.null
days_since now (some start) = ratio (now - start) day

abbrev pub capacity_json : Option ℤ → Json
capacity_json none = Json.null
capacity_json (some capacity) = integer capacity

abbrev pub describe_unused : ℤ → Tables → ProtocolRow → String × List (String × Json)
describe_unused baseline t p = (
  "low",
  ("days_since_window_start", days_since t.now p.capacity_window_start)
      ∷ ("remaining_capacity", capacity_json p.remaining_capacity)
      ∷ ("starter_grant", integer baseline)
      ∷ [],
)

unfoldable pub detect_unused_issuance : Dialect → LeagueConfig → Tables → Result (ℕ × Tables)
unfolding insert_flags
detect_unused_issuance dialect cfg t =
    let baseline = as_i64 cfg.starter_grant_rewardz in
    unless_refused dialect.bigint_interval
      (insert_flags "unused_issuance" (is_unused baseline t) (describe_unused baseline t) t)

-- `stats.self_count`.
abbrev pub self_count : Tables → ProtocolRow → ℕ
self_count t p = length (events_of_day t.now p.id (events_by p.admin_wallet t.point_events))

abbrev pub describe_daily_cap : ℤ → Tables → ProtocolRow → String × List (String × Json)
describe_daily_cap cap t p = (
  "medium",
  ("bucket", text "self")
      ∷ ("window_hours", number 24)
      ∷ ("count", number (self_count t p))
      ∷ ("cap", integer cap)
      ∷ [],
)

unfoldable pub detect_daily_cap_self : LeagueConfig → Tables → Result (ℕ × Tables)
unfolding insert_flags
detect_daily_cap_self cfg t =
    let cap = as_i64 cfg.daily_caps.self_points in
    insert_flags "daily_cap_breach" (λ p. ltb_ℤ cap (pos (self_count t p)))
      (describe_daily_cap cap t) t

-- `Ok(n) => total += n`; an error is only logged.
abbrev pub raised : Result ℕ → ℕ
raised (ok n) = n
raised (err e) = 0

module _ (fl : Float64) (cfg : LeagueConfig) {World : Type 0} (pg : Pg World) where
  unfoldable pub tick : Io World ℕ
  tick = do
    self_use ← attempt (run_sql pg (detect_repetitive_self_use fl))
    unused ← attempt (run_sql pg (detect_unused_issuance pg.dialect cfg))
    capped ← attempt (run_sql pg (detect_daily_cap_self cfg))
    pure (raised self_use + raised unused + raised capped)

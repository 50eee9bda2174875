-- ===== src/VisibilityTick.antt =====
-- src/visibility_tick.rs: the cron that moves each active protocol between the three visibilities.
pub mod Decisions
pub mod Settling
pub mod Timeline
use keeper_bot.Base.{
  ℕ, ◌+◌, ◌*◌, ℤ, pos, ◌-ℤ◌, Bool, true, false, ◌&&◌, ◌||◌, Option, none, some, List, [], ◌∷◌, ◌++◌,
  map, ◌==◌, if◌then◌else◌, String, str_eq, Result, ok, err,
}
use keeper_bot.Float64.{Double, Float64}
use keeper_bot.Chain.{Session, Io, pure, attempt, ◌>>=◌}
use keeper_bot.LeagueConfig.{LeagueConfig}
use keeper_bot.Tables.{
  Tables, ProtocolRow, PointEventRow, AbuseFlagRow, ProtocolEventRow, Json, text, double, boolean,
}
use keeper_bot.Db.{Pg, run_sql, where_rows, is_null}
use keeper_bot.AntiAbuse.{events_of}
use keeper_bot.MilestoneProcessor.{latest, is_frozen}

-- In ten-thousandths.
abbrev pub blink_health_quality_floor : ℕ
blink_health_quality_floor = 2000

pub data Visibility : Type 0 where
  active : Visibility
  at_risk : Visibility
  hidden : Visibility

unfoldable pub from_db : String → Visibility
from_db s =
    if str_eq s "active"
    then active
    else if str_eq s "at_risk"
    then at_risk
    else if str_eq s "hidden"
    then hidden
    else at_risk

abbrev pub as_db : Visibility → String
as_db active = "active"
as_db at_risk = "at_risk"
as_db hidden = "hidden"

abbrev pub level : Visibility → String
level active = "info"
level at_risk = "warning"
level hidden = "critical"

-- `PartialEq`.
abbrev pub same_visibility : Visibility → Visibility → Bool
same_visibility active active = true
same_visibility at_risk at_risk = true
same_visibility hidden hidden = true
same_visibility _ _ = false

pub record Snapshot : Type 0 where
  pub protocol_id : ℕ
  pub current : Visibility
  pub capacity_pct : Double
  pub hours_since_last_event : Option Double
  pub open_high_flag : Bool
  pub open_any_flag : Bool
  pub quality_score : Double

-- `SELECT MAX(pe.created_at) FROM point_events pe WHERE pe.protocol_id = p.id`.
abbrev pub last_event : List PointEventRow → Option ℕ
last_event [] = none
last_event (e ∷ events) = some (latest e.created_at events)

-- `.. AND a.resolved_at IS NULL AND a.severity = 'high'`.
abbrev pub has_high_flag : ℕ → List AbuseFlagRow → Bool
has_high_flag id [] = false
has_high_flag id (f ∷ fs) =
    f.protocol_id == id && is_null f.resolved_at && str_eq f.severity "high" || has_high_flag id fs

abbrev pub double_json : Option Double → Json
double_json none = Json.null
double_json (some x) = double x

-- The two statements of the transaction.
abbrev pub set_visibility : ℕ → String → ProtocolRow → ProtocolRow
set_visibility id visibility p = if p.id == id then record p { visibility = visibility } else p

abbrev pub change_event : Snapshot → Visibility → ProtocolEventRow
change_event snap next = record {
  protocol_id = snap.protocol_id;
  kind = "visibility_change";
  level = level next;
  payload =
      ("from", text (as_db snap.current))
      ∷ ("to", text (as_db next))
      ∷ ("capacity_pct", double snap.capacity_pct)
      ∷ ("hours_since_last_event", double_json snap.hours_since_last_event)
      ∷ ("open_high_flag", boolean snap.open_high_flag)
      ∷ ("open_any_flag", boolean snap.open_any_flag)
      ∷ ("quality_score", double snap.quality_score)
      ∷ [];
}

unfoldable pub transition_statement : Snapshot → Visibility → Tables → Result (Unit {0} × Tables)
transition_statement snap next t = ok (
  tt,
  record t {
    protocols = map (set_visibility snap.protocol_id (as_db next)) t.protocols;
    protocol_events = t.protocol_events ++ change_event snap next ∷ [];
  },
)

-- `Ok(()) => transitions += 1`; an error is only logged.
abbrev pub applied : Result (Unit {0}) → ℕ
applied (ok _) = 1
applied (err e) = 0

module _ (fl : Float64) (cfg : LeagueConfig) where
  -- `unwrap_or(f64::INFINITY)`.
  abbrev pub inactivity_of : Option Double → Double
  inactivity_of none = fl.infinity
  inactivity_of (some hours) = hours

  unfoldable pub decide : Snapshot → Visibility
  decide snap =
      let inactivity = inactivity_of snap.hours_since_last_event in
      let is_inactive = fl.le (fl.of_int (pos cfg.inactivity_window_hours)) inactivity in
      let warning_threshold = fl.literal cfg.capacity_warning_thresholds.0 in
      let blink_health_unhealthy =
        fl.le snap.quality_score (fl.literal blink_health_quality_floor) in
      let is_at_risk =
        fl.le snap.capacity_pct warning_threshold
        || snap.open_any_flag
        || fl.le (fl.of_int (pos cfg.activity_window_hours)) inactivity
        || blink_health_unhealthy in
      if is_inactive || snap.open_high_flag then hidden else if is_at_risk then at_risk else active

  -- `LEAST(p.remaining_capacity::float8 / $1::float8, 1.0::float8)` and its `CASE`.
  abbrev pub least : Double → Double → Double
  least x y = if fl.le x y then x else y

  abbrev pub capacity_pct : Option ℤ → Double
  capacity_pct none = fl.literal 10000
  capacity_pct (some remaining) =
      if cfg.starter_grant_rewardz == 0
      then fl.literal 0
      else least (fl.over (fl.of_int remaining) (fl.of_int (pos cfg.starter_grant_rewardz)))
          (fl.literal 10000)

  -- `EXTRACT(EPOCH FROM (NOW() - ..)) / 3600.0`.
  abbrev pub hours_since : ℕ → Option ℕ → Option Double
  hours_since now none = none
  hours_since now (some at) = some (
      fl.over (fl.over (fl.of_int (pos now -ℤ pos at)) (fl.of_int (pos 1000000)))
        (fl.of_int (pos 3600)))

  -- `COALESCE(p.quality_score, 1.0)::float8`.
  abbrev pub quality_or_one : Option ℕ → Double
  quality_or_one none = fl.literal 10000
  quality_or_one (some q) = fl.literal q

  abbrev pub snapshot_of : Tables → ProtocolRow → Snapshot
  snapshot_of t p = record {
    protocol_id = p.id;
    current = from_db p.visibility;
    capacity_pct = capacity_pct p.remaining_capacity;
    hours_since_last_event = hours_since t.now (last_event (events_of p.id t.point_events));
    open_high_flag = has_high_flag p.id t.abuse_flags;
    open_any_flag = is_frozen p.id t.abuse_flags;
    quality_score = quality_or_one p.quality_score;
  }

  unfoldable pub load_snapshots : Tables → Result (List Snapshot × Tables)
  load_snapshots t = ok (
    map (snapshot_of t) (where_rows (λ (p : ProtocolRow). str_eq p.status "active") t.protocols),
    t,
  )

  module _ {World : Type 0} (pg : Pg World) where
    unfoldable pub apply_transition : Snapshot → Visibility → Io World (Unit {0})
    apply_transition snap next = run_sql pg (transition_statement snap next)

    -- `for snap in &snapshots`, with the count so far.
    unfoldable pub apply_all : List Snapshot → ℕ → Io World ℕ
    apply_all [] transitions = pure transitions
    apply_all (snap ∷ snapshots) transitions =
        if same_visibility (decide snap) snap.current then apply_all snapshots transitions else (do
          result ← attempt (apply_transition snap (decide snap))
          apply_all snapshots (transitions + applied result))

    unfoldable pub tick : Io World ℕ
    unfolding apply_all
    tick = do snapshots ← run_sql pg load_snapshots; apply_all snapshots 0

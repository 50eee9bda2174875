-- ===== src/VisibilityTick/Decisions.antt =====
-- src/visibility_tick.rs: `decide`, and the text of a visibility.
use keeper_bot.Base.{ℕ, ◌≤◌, ◌≡◌, refl, Bool, true, ◌||◌, if◌then◌else◌, arith}
use keeper_bot.Float64.{Double, Float64, IsTransitive}
use keeper_bot.LeagueConfig.{LeagueConfig}
use keeper_bot.VisibilityTick.{
  Visibility, active, at_risk, hidden, Snapshot, from_db, as_db, decide, inactivity_of,
}

-- The text of a visibility reads back as the visibility.
pub from_db-as_db : (v : Visibility) → from_db (as_db v) ≡ v
unfolding from_db
from_db-as_db active = refl
from_db-as_db at_risk = refl
from_db-as_db hidden = refl

-- How bad a visibility is.
abbrev pub rank : Visibility → ℕ
rank active = 0
rank at_risk = 1
rank hidden = 2

-- A snapshot that is in no respect better than another: no more capacity, no less inactivity, no
-- fewer flags and no better quality.
pub record IsWorse (fl : Float64) (cfg : LeagueConfig) (a b : Snapshot) : Type 0 where
  pub capacity : fl.le b.capacity_pct a.capacity_pct ≡ true
  pub inactivity :
      fl.le
        (inactivity_of fl cfg a.hours_since_last_event)
        (inactivity_of fl cfg b.hours_since_last_event)
      ≡ true
  pub high_flag : a.open_high_flag ≡ true → b.open_high_flag ≡ true
  pub any_flag : a.open_any_flag ≡ true → b.open_any_flag ≡ true
  pub quality : fl.le b.quality_score a.quality_score ≡ true

rank_of_tests :
    (h h' r r' : Bool)
    → (h ≡ true → h' ≡ true)
    → (r ≡ true → r' ≡ true)
    → rank (if h then hidden else if r then at_risk else active)
      ≤ rank (if h' then hidden else if r' then at_risk else active)
rank_of_tests h h' r r' hidden_too risk_too = ground (arith, hidden_too, risk_too)

or_mono :
    {x x' : Bool} (y y' : Bool)
    → (x ≡ true → x' ≡ true)
    → (y ≡ true → y' ≡ true)
    → (x || y) ≡ true
    → (x' || y') ≡ true
or_mono y y' f g h = ground (arith, f, g, h)

-- If the order of the floating-point numbers is transitive, a protocol in a worse state is not given
-- a better visibility.
pub decide_monotone :
    (fl : Float64) (cfg : LeagueConfig) (a b : Snapshot)
    → IsTransitive fl
    → IsWorse fl cfg a b
    → rank (decide fl cfg a) ≤ rank (decide fl cfg b)
unfolding decide
decide_monotone fl cfg a b trans worse =
    let later =
      λ (bound : Double) (h : fl.le bound (inactivity_of fl cfg a.hours_since_last_event) ≡ true).
        trans bound _ _ h worse.inactivity in
    rank_of_tests _ _ _ _ (or_mono _ _ (later _) worse.high_flag) (
      or_mono _ _
        (or_mono _ _ (or_mono _ _ (λ h. trans _ _ _ worse.capacity h) worse.any_flag) (later _))
        (λ h. trans _ _ _ worse.quality h))

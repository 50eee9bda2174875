-- ===== src/Subscriptions.antt =====
-- src/subscriptions.rs: the poll of the due subscriptions. The HTTP client is a parameter, and a
-- branch that only logs does nothing.
pub mod Streaks
use keeper_bot.Base.{
  ℕ, ◌+◌, ◌*◌, ◌^◌, ℤ, pos, ◌+ℤ◌, ltb_ℤ, leb_ℤ, Bool, true, false, ◌&&◌, List, [], ◌∷◌, map, ltb,
  leb, if◌then◌else◌, take, String, str_eq, str_append, Result, ok, err, Option, some,
}
use keeper_bot.Float64.{Double, Float64}
use keeper_bot.Chain.{Session, Io, pure, lift, attempt, ask, ◌>>=◌, ◌>>◌}
use keeper_bot.Config.{Config}
use keeper_bot.Api.{wrap_i64}
use keeper_bot.Tables
use keeper_bot.Tables.{Tables}
use keeper_bot.Db.{Pg, run_sql, where_rows}

pub record SubscriptionRow : Type 0 where
  pub subscription_id : String
  pub wallet_address : String
  pub intent_query : String
  pub auto_execute : Bool
  pub streak_current : ℤ
  pub streak_longest : ℤ
  pub multiplier : Double
  pub frequency : String

abbrev pub subscription_row : Tables.SubscriptionRow → SubscriptionRow
subscription_row r = record {
  subscription_id = r.subscription_id;
  wallet_address = r.wallet_address;
  intent_query = r.intent_query;
  auto_execute = r.auto_execute;
  streak_current = r.streak_current;
  streak_longest = r.streak_longest;
  multiplier = r.multiplier;
  frequency = r.frequency;
}

-- A range pattern.
abbrev pub between : ℕ → ℕ → ℤ → Bool
between low high streak = leb_ℤ (pos low) streak && leb_ℤ streak (pos high)

-- The multiplier in ten-thousandths.
unfoldable pub streak_multiplier : ℤ → ℕ
streak_multiplier streak =
    if between 0 2 streak
    then 10000
    else if between 3 6 streak
    then 12000
    else if between 7 13 streak
    then 15000
    else if between 14 29 streak
    then 18000
    else 20000

-- `ORDER BY next_due_at ASC`: each row before the first that is due later.
abbrev pub insert_due :
    Tables.SubscriptionRow → List Tables.SubscriptionRow → List Tables.SubscriptionRow
insert_due r [] = r ∷ []
insert_due r (q ∷ rows) =
    let rest = insert_due r rows in
    if leb r.next_due_at q.next_due_at then r ∷ q ∷ rows else q ∷ rest

abbrev pub order_by_due : List Tables.SubscriptionRow → List Tables.SubscriptionRow
order_by_due [] = []
order_by_due (r ∷ rows) = insert_due r (order_by_due rows)

unfoldable pub select_due : Tables → Result (List SubscriptionRow × Tables)
select_due t = ok (
  map subscription_row (
      take 100 (
        order_by_due (
          where_rows
            (λ (r : Tables.SubscriptionRow). leb r.next_due_at t.now && str_eq r.status "active")
            t.subscriptions))),
  t,
)

-- `(interval)::interval` in seconds.
abbrev pub interval_secs : String → ℕ
interval_secs frequency =
    if str_eq frequency "daily"
    then 86400
    else if str_eq frequency "weekly"
    then 604800
    else if str_eq frequency "monthly"
    then 2592000
    else 86400

-- `std::cmp::max`, which returns the second where they are equal.
abbrev pub max_ℤ : ℤ → ℤ → ℤ
max_ℤ a b = if ltb_ℤ b a then a else b

-- `POST {api_base_url}/v1/intents/resolve` with the key, the query and the wallet: the status, or an
-- error of the transport.
pub record Client (World : Type 0) : Type 0 where
  pub post : String → String → String → String → World → Result ℕ × World

-- `StatusCode::is_success`.
abbrev pub is_success : ℕ → Bool
is_success status = leb 200 status && ltb status 300

module _ (fl : Float64) where
  -- The `UPDATE`: a row that has the id.
  abbrev pub executed_row :
      ℕ → SubscriptionRow → ℤ → ℤ → Tables.SubscriptionRow → Tables.SubscriptionRow
  executed_row now sub new_streak new_longest r =
      if str_eq r.subscription_id sub.subscription_id
      then record r {
        streak_current = new_streak;
        streak_longest = new_longest;
        multiplier = fl.literal (streak_multiplier new_streak);
        last_executed_at = some now;
        next_due_at = now + interval_secs sub.frequency * 1000000;
        updated_at = now;
      }
      else r

  unfoldable pub execute_statement : SubscriptionRow → Tables → Result (Unit {0} × Tables)
  unfolding wrap_i64 ◌+ℤ◌ streak_multiplier
  execute_statement sub t =
      let new_streak = wrap_i64 (sub.streak_current +ℤ pos 1) in
      let new_longest = max_ℤ sub.streak_longest new_streak in
      ok (
        tt,
        record t {
          subscriptions = map (executed_row t.now sub new_streak new_longest) t.subscriptions;
        },
      )

  module _ (config : Config) {World : Type 0} (client : Client World) (pg : Pg World) where
    -- `match resolve_result`: only an error of the database ends the loop.
    abbrev pub answer_resolve : SubscriptionRow → Result ℕ → Io World (Unit {0})
    answer_resolve sub (ok status) =
        if is_success status then run_sql pg (execute_statement sub) else pure tt
    answer_resolve sub (err e) = pure tt

    unfoldable pub process_due : List SubscriptionRow → Io World (Unit {0})
    process_due [] = pure tt
    process_due (sub ∷ subs) = do
      resolved ← attempt (
          ask (
            client.post (str_append config.api_base_url "/v1/intents/resolve")
              config.internal_api_key sub.intent_query sub.wallet_address))
      answer_resolve sub resolved
      process_due subs

    unfoldable pub poll_subscriptions : Io World (Unit {0})
    unfolding process_due
    poll_subscriptions = do due_subs ← run_sql pg select_due; process_due due_subs

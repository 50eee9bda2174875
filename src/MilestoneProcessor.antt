-- ===== src/MilestoneProcessor.antt =====
-- src/milestone_processor.rs: the cron that awards the milestones of the league.
pub mod Awards
pub mod Freeze
pub mod Insertions
pub mod Selection
pub mod Ticks
use keeper_bot.Base.{
  ℕ, ◌+◌, ◌-◌, ◌*◌, ℤ, pos, ◌*ℤ◌, floor_div, Bool, true, false, not, ◌&&◌, ◌||◌, Option, none, some,
  List, [], ◌∷◌, ◌++◌, map, ◌==◌, ltb, leb, if◌then◌else◌, length, String, str_eq, str_append,
  Result, ok, err,
}
use keeper_bot.Chain.{Session, Io, pure, attempt, ◌>>=◌}
use keeper_bot.LeagueConfig.{LeagueConfig, Network, devnet, mainnet}
use keeper_bot.Tables.{
  Tables, ProtocolRow, PointEventRow, EarningRow, AbuseFlagRow, WalletWeightRow, MilestoneRow,
  MilestoneRewardRow,
}
use keeper_bot.Db.{
  Pg, Dialect, unless_refused, run_sql, where_rows, any_eq, is_null, eq_ℤ, to_bigint,
}
use keeper_bot.AntiAbuse.{events_of, events_by, no_events}

-- `FROM milestones m JOIN milestone_rewards mr ON mr.milestone_id = m.id WHERE mr.network = $1`.
abbrev pub join_rewards : String → MilestoneRow → List MilestoneRewardRow → List (String × ℤ × ℤ)
join_rewards network m rewards =
    map (λ (mr : MilestoneRewardRow). (m.slug, m.id, mr.rewardz_amount))
      (where_rows
        (λ (mr : MilestoneRewardRow). eq_ℤ mr.milestone_id m.id && str_eq mr.network network)
        rewards)

unfoldable pub rewards_of :
    String → List MilestoneRow → List MilestoneRewardRow → List (String × ℤ × ℤ)
rewards_of network [] rewards = []
rewards_of network (m ∷ ms) rewards =
    join_rewards network m rewards ++ rewards_of network ms rewards

unfoldable pub load_milestone_rewards : String → Tables → Result (List (String × ℤ × ℤ) × Tables)
unfolding rewards_of
load_milestone_rewards network t = ok (rewards_of network t.milestones t.milestone_rewards, t)

-- A predicate that is pasted into the statement reads `point_events` and the row `p`.
abbrev pub Predicate : Type 0
Predicate = List PointEventRow → ProtocolRow → Bool

-- `WHERE pe.protocol_id = p.id AND pe.user_wallet <> p.admin_wallet`.
abbrev pub events_of_others : List PointEventRow → ProtocolRow → List PointEventRow
events_of_others events p =
    where_rows (λ (e : PointEventRow). not (str_eq e.user_wallet p.admin_wallet))
      (events_of p.id events)

-- The values of `DISTINCT pe.user_wallet`, and the groups of `GROUP BY pe.user_wallet`.
unfoldable pub wallets_of : List PointEventRow → List String
wallets_of [] = []
wallets_of (e ∷ events) =
    let rest = wallets_of events in if any_eq e.user_wallet rest then rest else e.user_wallet ∷ rest

abbrev pub first_blink : Predicate
first_blink events p = not (no_events p.id events)

abbrev pub first_issuance : Predicate
first_issuance events p = not (
    length (
      where_rows (λ (e : PointEventRow). str_eq e.event_type "awarded") (events_of_others events p))
    == 0)

abbrev pub unique_wallets : ℕ → Predicate
unique_wallets threshold events p = leb threshold (length (wallets_of (events_of_others events p)))

-- `MAX(pe.created_at)` and `MIN(pe.created_at)` of a group with a row `e`.
abbrev pub latest : ℕ → List PointEventRow → ℕ
latest at [] = at
latest at (e ∷ events) = latest (if ltb at e.created_at then e.created_at else at) events

abbrev pub earliest : ℕ → List PointEventRow → ℕ
earliest at [] = at
earliest at (e ∷ events) = earliest (if ltb e.created_at at then e.created_at else at) events

abbrev pub spans : ℕ → List PointEventRow → Bool
spans gap [] = false
spans gap (e ∷ events) =
    leb (gap * 3600 * 1000000) (latest e.created_at events - earliest e.created_at events)

abbrev pub repeat_wallets : ℕ → ℕ → Predicate
repeat_wallets gap threshold events p =
    let others = events_of_others events p in
    leb threshold
      (length (where_rows (λ wallet. spans gap (events_by wallet others)) (wallets_of others)))

-- `SELECT 1 FROM abuse_flags a WHERE a.protocol_id = p.id AND a.resolved_at IS NULL`.
abbrev pub is_frozen : ℕ → List AbuseFlagRow → Bool
is_frozen id [] = false
is_frozen id (f ∷ fs) = f.protocol_id == id && is_null f.resolved_at || is_frozen id fs

-- `re.protocol_id = p.id AND re.milestone_id = $1`.
abbrev pub is_milestone : ℤ → Option ℤ → Bool
is_milestone m none = false
is_milestone m (some m') = eq_ℤ m' m

abbrev pub is_awarded : ℕ → ℤ → List EarningRow → Bool
is_awarded id m [] = false
is_awarded id m (r ∷ rows) =
    r.protocol_id == id && is_milestone m r.milestone_id || is_awarded id m rows

-- The `WHERE` of the statement.
abbrev pub is_due : ℤ → Predicate → Tables → ProtocolRow → Bool
is_due milestone_id predicate t p =
    str_eq p.status "active"
    && not (is_frozen p.id t.abuse_flags)
    && not (is_awarded p.id milestone_id t.rewardz_earnings)
    && predicate t.point_events p

-- `LEFT JOIN wallet_weights ww ON ww.protocol_id = p.id AND ww.wallet = p.admin_wallet`: the weights
-- that a row is joined to, a missing one once.
abbrev pub or_missing : List ℤ → List (Option ℤ)
or_missing [] = none ∷ []
or_missing (w ∷ ws) = map some (w ∷ ws)

abbrev pub weights_of : List WalletWeightRow → ProtocolRow → List (Option ℤ)
weights_of rows p = or_missing (
    map (λ (ww : WalletWeightRow). ww.weight)
      (where_rows
        (λ (ww : WalletWeightRow). ww.protocol_id == p.id && str_eq ww.wallet p.admin_wallet) rows))

-- `FLOOR($2::bigint * COALESCE(ww.weight, 1.0))::bigint`.
unfoldable pub scaled : ℤ → Option ℤ → Result ℤ
unfolding ◌*ℤ◌ floor_div to_bigint
scaled amount none = to_bigint amount
scaled amount (some weight) = to_bigint (floor_div (amount *ℤ weight) 10000)

-- A row of the `SELECT`; the columns that it does not name have their defaults.
abbrev pub award : ℕ → String → ℤ → ProtocolRow → ℤ → EarningRow
award now reason milestone_id p amount = record {
  protocol_id = p.id;
  protocol_authority = p.admin_wallet;
  amount = amount;
  reason = reason;
  milestone_id = some milestone_id;
  created_at = now;
  included_in_root_epoch = none;
}

abbrev pub ok_cons {ℓ} : {A : Type ℓ} → Result A → Result (List A) → Result (List A)
ok_cons (ok x) (ok xs) = ok (x ∷ xs)
ok_cons (ok x) (err e) = err e
ok_cons (err e) xs = err e

abbrev pub ok_append {ℓ} : {A : Type ℓ} → Result (List A) → Result (List A) → Result (List A)
ok_append (ok xs) (ok ys) = ok (xs ++ ys)
ok_append (ok xs) (err e) = err e
ok_append (err e) ys = err e

abbrev pub ok_map {ℓ κ} : {A : Type ℓ} {B : Type κ} → (A → B) → Result A → Result B
ok_map f (ok a) = ok (f a)
ok_map f (err e) = err e

-- The amounts of one protocol.
unfoldable pub amounts_of : ℤ → List (Option ℤ) → Result (List ℤ)
unfolding scaled
amounts_of amount [] = ok []
amounts_of amount (w ∷ ws) = ok_cons (scaled amount w) (amounts_of amount ws)

unfoldable pub award_rows :
    ℕ → String → ℤ → ℤ → List WalletWeightRow → List ProtocolRow → Result (List EarningRow)
unfolding amounts_of
award_rows now reason milestone_id amount weights [] = ok []
award_rows now reason milestone_id amount weights (p ∷ ps) =
    ok_append
      (ok_map (map (award now reason milestone_id p)) (amounts_of amount (weights_of weights p)))
      (award_rows now reason milestone_id amount weights ps)

-- `ON CONFLICT (protocol_id, milestone_id) DO NOTHING`, and `rows_affected`. NULL is equal to no
-- milestone.
abbrev pub has_conflict : EarningRow → List EarningRow → Bool
has_conflict row rows = elim row.milestone_id [
  | none ↦ false
  | some m ↦ is_awarded row.protocol_id m rows
]

unfoldable pub insert_earnings : List EarningRow → List EarningRow → List EarningRow × ℕ
insert_earnings [] rows = (rows, 0)
insert_earnings (r ∷ new) rows =
    let conflict = has_conflict r rows in
    let (rest, n) = insert_earnings new (if conflict then rows else rows ++ r ∷ []) in
    (rest, if conflict then n else n + 1)

abbrev pub store_earnings : Tables → Result (List EarningRow) → Result (ℕ × Tables)
store_earnings t (ok new) =
    let (rows, n) = insert_earnings new t.rewardz_earnings in
    ok (n, record t { rewardz_earnings = rows })
store_earnings t (err e) = err e

unfoldable pub insert_statement :
    Dialect → ℤ → ℤ → String → Predicate → Tables → Result (ℕ × Tables)
unfolding award_rows
insert_statement dialect milestone_id amount slug predicate t =
    unless_refused dialect.partial_index (
      store_earnings t (
        award_rows t.now (str_append "milestone:" slug) milestone_id amount t.wallet_weights
          (where_rows (is_due milestone_id predicate t) t.protocols)))

abbrev pub network_name : Network → String
network_name devnet = "devnet"
network_name mainnet = "mainnet"

-- `Ok(n) => total += n`; an error is only logged.
abbrev pub inserted : Result ℕ → ℕ
inserted (ok n) = n
inserted (err e) = 0

module _ (cfg : LeagueConfig) {World : Type 0} (pg : Pg World) where
  abbrev pub insert_with_dynamic_predicate : ℤ → ℤ → String → Predicate → Io World ℕ
  insert_with_dynamic_predicate milestone_id amount slug predicate =
      run_sql pg (insert_statement pg.dialect milestone_id amount slug predicate)

  -- `repeat_gap_hours as i64` is the number itself below 2^63, as in both presets.
  abbrev pub insert_repeat_users : ℤ → ℤ → String → ℕ → Io World ℕ
  insert_repeat_users milestone_id amount slug min_repeat_wallets =
      insert_with_dynamic_predicate milestone_id amount slug
        (repeat_wallets cfg.repeat_gap_hours min_repeat_wallets)

  -- `match slug`.
  unfoldable pub process_slug : String → ℤ → ℤ → Io World ℕ
  process_slug slug milestone_id amount =
      let insert_if = insert_with_dynamic_predicate milestone_id amount slug in
      if str_eq slug "first_blink"
      then insert_if first_blink
      else if str_eq slug "first_stake"
      then pure 0
      else if str_eq slug "first_issuance"
      then insert_if first_issuance
      else if str_eq slug "first_five_unique_wallets"
      then insert_if (unique_wallets 5)
      else if str_eq slug "first_repeat_user"
      then insert_repeat_users milestone_id amount slug 1
      else if str_eq slug "twenty_five_unique_wallets"
      then insert_if (unique_wallets 25)
      else if str_eq slug "ten_repeat_users"
      then insert_repeat_users milestone_id amount slug 10
      else pure 0

  -- `for (slug, milestone_id, amount) in &rewards`, with the count so far.
  unfoldable pub process_rewards : List (String × ℤ × ℤ) → ℕ → Io World ℕ
  process_rewards [] total = pure total
  process_rewards ((slug, milestone_id, amount) ∷ rewards) total = do
    result ← attempt (process_slug slug milestone_id amount)
    process_rewards rewards (total + inserted result)

  unfoldable pub tick : Io World ℕ
  unfolding process_rewards
  tick = do
    rewards ← run_sql pg (load_milestone_rewards (network_name cfg.network))
    process_rewards rewards 0

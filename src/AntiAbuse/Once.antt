-- ===== src/AntiAbuse/Once.antt =====
-- src/anti_abuse.rs: the open flags after a tick.
use keeper_bot.Base.{
  ℕ, ◌+◌, ◌≡◌, refl, pos, as_i64, true, Option-cases, inl, inr, ◌⊎◌, err, ◌&&◌, ◌||◌, none, some,
  get_elem?, ltb_ℤ, String, str_eq, Result, ok, arith,
}
use keeper_bot.Float64.{Float64}
use keeper_bot.Chain.{Session, attempt}
use keeper_bot.LeagueConfig.{LeagueConfig}
use keeper_bot.Tables.{Tables, ProtocolRow}
use keeper_bot.Db.{Pg, Dialect, run_sql}
use keeper_bot.Db.Rows.{DistinctIds}
use keeper_bot.Db.Statements.{LawfulPg, run_sql-err, run_sql-read, unless_refused-ok}
use keeper_bot.Db.Invariants.{Keeps, Keeps-attempt, Keeps-bind, Keeps-pure, Keeps-run_sql}
use keeper_bot.AntiAbuse.{
  has_open_flag, is_self_use, is_unused, self_count, describe_self_use, describe_unused,
  describe_daily_cap, detect_repetitive_self_use, detect_unused_issuance, detect_daily_cap_self,
  raised, tick,
}
use keeper_bot.AntiAbuse.Flags.{OneOpen, insert_flags-OneOpen, insert_flags_again}
use keeper_bot.AntiAbuse.Totals.{signals, tick_total}

signals_any :
    (dialect : Dialect) (fl : Float64) (cfg : LeagueConfig) (t : Tables) (p : ProtocolRow)
    → (is_self_use fl t p ≡ true → signals dialect fl cfg t p "repetitive_self_use" ≡ true)
      × (dialect.bigint_interval ≡ none
          → is_unused (as_i64 cfg.starter_grant_rewardz) t p ≡ true
          → signals dialect fl cfg t p "unused_issuance" ≡ true)
      × (ltb_ℤ (as_i64 cfg.daily_caps.self_points) (pos (self_count t p)) ≡ true
          → signals dialect fl cfg t p "daily_cap_breach" ≡ true)
signals_any dialect fl cfg t p = (λ h. rw h refl, λ g h. rw (g, h) refl, λ h. rw h refl)

-- The ids are distinct and each protocol has at most one open flag of a kind.
abbrev pub Orderly : Tables → Type 0
Orderly t = DistinctIds t.protocols × OneOpen t.abuse_flags

module _ (fl : Float64) (cfg : LeagueConfig) {World : Type 0} (pg : Pg World) where
  tick-Orderly : LawfulPg pg → Keeps pg Orderly (tick fl cfg pg)
  unfolding tick detect_repetitive_self_use detect_unused_issuance detect_daily_cap_self
  tick-Orderly law =
      Keeps-bind pg Orderly _ _
        (keeps (detect_repetitive_self_use fl) λ t t' n e (d, o).
          insert_flags-OneOpen "repetitive_self_use" (describe_self_use fl t) (is_self_use fl t) t
            t' n e d o)
        λ self_use.
          Keeps-bind pg Orderly _ _
            (keeps (detect_unused_issuance pg.dialect cfg) λ t t' n e (d, o).
              insert_flags-OneOpen "unused_issuance"
                (describe_unused (as_i64 cfg.starter_grant_rewardz) t)
                (is_unused (as_i64 cfg.starter_grant_rewardz) t) t t' n
                (unless_refused-ok pg.dialect.bigint_interval _ _ e) d o)
            λ unused.
              Keeps-bind pg Orderly _ _
                (keeps (detect_daily_cap_self cfg) λ t t' n e (d, o).
                  insert_flags-OneOpen "daily_cap_breach"
                    (describe_daily_cap (as_i64 cfg.daily_caps.self_points) t)
                    (λ p. ltb_ℤ (as_i64 cfg.daily_caps.self_points) (pos (self_count t p))) t t' n e
                    d o)
                λ capped. Keeps-pure pg Orderly (raised self_use + raised unused + raised capped)
    where
      keeps :
          (statement : Tables → Result (ℕ × Tables))
          → ((t t' : Tables) (n : ℕ) → statement t ≡ ok (n, t') → Orderly t → Orderly t')
          → Keeps pg Orderly (attempt (run_sql pg statement))
      keeps statement keep =
          Keeps-attempt pg Orderly _ (Keeps-run_sql pg Orderly law statement keep)

  -- If the ids of the protocols are distinct and no protocol has two open flags of one kind, then
  -- that is so after a tick, whichever statements fail.
  pub tick_one_open :
      LawfulPg pg
      → (s : Session World) → Orderly (pg.tables s.world)
      → Orderly (pg.tables (tick fl cfg pg s).1.world)
  tick_one_open law s = (tick-Orderly law).at s

  module _ (law : LawfulPg pg) (well : (w : World) → pg.fault w ≡ none) where
    -- If the ids are distinct and the database answers, then a tick answers, and after it a protocol
    -- of the table has an open flag of a kind exactly if it had one before, or if it is active and
    -- shows the signal of that kind; unused issuance is no signal where the server refuses the
    -- statement that looks for it.
    pub tick_refines :
        (s : Session World) (i : ℕ) (p : ProtocolRow) (kind : String)
        → DistinctIds (pg.tables s.world).protocols
        → get_elem? (pg.tables s.world).protocols i ≡ some p
        → (n : ℕ) × (s' : Session World) × (tick fl cfg pg s ≡ (ok n, s'))
          × (has_open_flag kind p.id (pg.tables s'.world).abuse_flags ≡ (
              has_open_flag kind p.id (pg.tables s.world).abuse_flags
              || str_eq p.status "active" && signals pg.dialect fl cfg (pg.tables s.world) p kind))
    tick_refines s i p kind distinct at =
        let (n, s', flags, ran, after, opened) = tick_total fl cfg pg law well s distinct in
        (n, s', ran, rw after (opened i p kind at))

    Second-again :
        (s : Session World)
        → (detect_unused_issuance pg.dialect cfg (pg.tables s.world) ≡ ok (0, pg.tables s.world))
          ⊎ ((e : String) × (detect_unused_issuance pg.dialect cfg (pg.tables s.world) ≡ err e))
        → (r : Result ℕ) × (raised r ≡ 0)
          × (run_sql pg (detect_unused_issuance pg.dialect cfg) s ≡ (r, s))
    Second-again s (inl nothing) = (
      ok 0,
      refl,
      run_sql-read pg law (detect_unused_issuance pg.dialect cfg) 0 s (well _) nothing,
    )
    Second-again s (inr (e, failed)) =
        (err e, refl, run_sql-err pg (detect_unused_issuance pg.dialect cfg) e s (well _) failed)

    -- If the ids are distinct and the database answers, then a second tick at the same time raises
    -- no flag and leaves the session as it is.
    pub tick_twice :
        (s s' : Session World) (n : ℕ)
        → DistinctIds (pg.tables s.world).protocols
        → tick fl cfg pg s ≡ (ok n, s')
        → tick fl cfg pg s' ≡ (ok 0, s')
    unfolding tick detect_repetitive_self_use detect_unused_issuance detect_daily_cap_self
    tick_twice s s' n distinct e =
        let (m, s'', flags, ran, after, opened) = tick_total fl cfg pg law well s distinct in
        let t : Tables = record (pg.tables s.world) { abuse_flags = flags } in
        let here : pg.tables s'.world ≡ t = ground (arith, after, ran, e) in
        let grant = as_i64 cfg.starter_grant_rewardz in
        let cap = as_i64 cfg.daily_caps.self_points in
        let before = (pg.tables s.world).abuse_flags in
        let (r, none_raised, unused) = Second-again s' (
          rw here (elim (Option-cases pg.dialect.bigint_interval) [
            | inr (x, refused) ↦ inr (x, rw refused refl)
            | inl accepted ↦ inl (
                rw accepted (
                  insert_flags_again "unused_issuance" (describe_unused grant t) (is_unused grant t)
                    t before (λ p. (signals_any pg.dialect fl cfg t p).1 accepted)
                    λ i p. opened i p "unused_issuance"))
          ])) in
        rw
          (
            run_sql-read pg law (detect_repetitive_self_use fl) 0 s' (well _) (
                rw here (
                  insert_flags_again "repetitive_self_use" (describe_self_use fl t)
                    (is_self_use fl t) t before (λ p. (signals_any pg.dialect fl cfg t p).0)
                    λ i p. opened i p "repetitive_self_use")),
            unused,
            run_sql-read pg law (detect_daily_cap_self cfg) 0 s' (well _) (
                rw here (
                  insert_flags_again "daily_cap_breach" (describe_daily_cap cap t)
                    (λ q. ltb_ℤ cap (pos (self_count t q))) t before
                    (λ p. (signals_any pg.dialect fl cfg t p).2)
                    λ i p. opened i p "daily_cap_breach")),
            none_raised,
          )
          refl

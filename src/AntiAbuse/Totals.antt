-- ===== src/AntiAbuse/Totals.antt =====
-- src/anti_abuse.rs: a tick from statement to statement.
use keeper_bot.Base.{
  ℕ, ◌+◌, ◌≡◌, refl, pos, as_i64, Bool, Option-cases, inl, inr, ◌⊎◌, sym, ap, ◌∙◌, err, ◌&&◌, ◌||◌,
  none, some, List, get_elem?, ltb_ℤ, String, str_eq, Result, ok, arith,
}
use keeper_bot.Float64.{Float64}
use keeper_bot.Chain.{Session}
use keeper_bot.LeagueConfig.{LeagueConfig}
use keeper_bot.Tables.{Tables, ProtocolRow, AbuseFlagRow}
use keeper_bot.Db.{Pg, Dialect, run_sql, is_null}
use keeper_bot.Db.Rows.{DistinctIds}
use keeper_bot.Db.Statements.{LawfulPg, run_sql-err, run_sql-ok}
use keeper_bot.AntiAbuse.{
  has_open_flag, is_self_use, is_unused, self_count, describe_self_use, describe_unused,
  describe_daily_cap, detect_repetitive_self_use, detect_unused_issuance, detect_daily_cap_self,
  raised, tick,
}
use keeper_bot.AntiAbuse.Flags.{insert_flags_refines}

-- What the tick looks for, for each kind of flag; it looks for no unused issuance where the server
-- refuses the statement.
abbrev pub signals : Dialect → Float64 → LeagueConfig → Tables → ProtocolRow → String → Bool
signals dialect fl cfg t p kind =
    str_eq "repetitive_self_use" kind && is_self_use fl t p
    || str_eq "unused_issuance" kind
      && is_null dialect.bigint_interval
      && is_unused (as_i64 cfg.starter_grant_rewardz) t p
    || str_eq "daily_cap_breach" kind
      && ltb_ℤ (as_i64 cfg.daily_caps.self_points) (pos (self_count t p))

module _ (fl : Float64) (cfg : LeagueConfig) {World : Type 0} (pg : Pg World) where
  module _ (law : LawfulPg pg) (well : (w : World) → pg.fault w ≡ none) where
    -- The second statement: it is refused and changes nothing, or it answers.
    abbrev Second : Tables → Result ℕ → Tables → Type 0
    Second t r t' =
        ((e : String) × (detect_unused_issuance pg.dialect cfg t ≡ err e) × (r ≡ err e) × (t' ≡ t))
        ⊎ ((n : ℕ) × (detect_unused_issuance pg.dialect cfg t ≡ ok (n, t')) × (r ≡ ok n))

    Second-runs :
        (s : Session World) (t t' : Tables) (r : Result ℕ)
        → pg.tables s.world ≡ t
        → Second t r t'
        → (s' : Session World) × (run_sql pg (detect_unused_issuance pg.dialect cfg) s ≡ (r, s'))
          × (pg.tables s'.world ≡ t')
    Second-runs s t t' r here (inl (e, failed, same, kept)) = (
      s,
      run_sql-err pg (detect_unused_issuance pg.dialect cfg) e s (well _)
            (ap (detect_unused_issuance pg.dialect cfg) here ∙ failed)
          ∙ ap (λ x. (x, s)) (sym same),
      here ∙ sym kept,
    )
    Second-runs s t t' r here (inr (n, done, same)) =
        let s' : Session World = record s { world = pg.put t' s.world } in
        (
          s',
          run_sql-ok pg (detect_unused_issuance pg.dialect cfg) n t' s (well _)
                (ap (detect_unused_issuance pg.dialect cfg) here ∙ done)
              ∙ ap (λ x. (x, s')) (sym same),
          law.tables-put t' s.world,
        )

    tick_runs :
        (s : Session World) (t₁ t₂ t₃ : Tables) (n₁ n₃ : ℕ) (r₂ : Result ℕ)
        → detect_repetitive_self_use fl (pg.tables s.world) ≡ ok (n₁, t₁)
        → Second t₁ r₂ t₂
        → detect_daily_cap_self cfg t₂ ≡ ok (n₃, t₃)
        → (s' : Session World) × (tick fl cfg pg s ≡ (ok (n₁ + raised r₂ + n₃), s'))
          × (pg.tables s'.world ≡ t₃)
    unfolding tick
    tick_runs s t₁ t₂ t₃ n₁ n₃ r₂ e₁ e₂ e₃ =
        let (s₂, ran, here) =
          Second-runs (record s { world = pg.put t₁ s.world }) t₁ t₂ r₂ (law.tables-put t₁ s.world)
            e₂ in
        (
          record s₂ { world = pg.put t₃ s₂.world },
          rw
              (
                run_sql-ok pg (detect_repetitive_self_use fl) n₁ t₁ s (well _) e₁,
                ran,
                run_sql-ok pg (detect_daily_cap_self cfg) n₃ t₃ s₂ (well _)
                    (ap (detect_daily_cap_self cfg) here ∙ e₃),
              )
              refl,
          law.tables-put t₃ s₂.world,
        )

    -- The flags after the second statement.
    Second-refines :
        (t : Tables)
        → DistinctIds t.protocols
        → (r : Result ℕ) × (flags : List AbuseFlagRow) × Second t r
            (record t { abuse_flags = flags })
          × ((i : ℕ) (p : ProtocolRow) (kind : String)
              → get_elem? t.protocols i ≡ some p
              → has_open_flag kind p.id flags ≡ (
                  has_open_flag kind p.id t.abuse_flags
                  || str_eq "unused_issuance" kind
                    && str_eq p.status "active"
                    && is_null pg.dialect.bigint_interval
                    && is_unused (as_i64 cfg.starter_grant_rewardz) t p))
    unfolding detect_unused_issuance
    Second-refines t distinct =
        let grant = as_i64 cfg.starter_grant_rewardz in
        elim (Option-cases pg.dialect.bigint_interval) [
          | inr (e, refused) ↦ (
            err e,
            t.abuse_flags,
            inl (e, rw refused refl, refl, refl),
            λ i p kind at. ground (arith, refused),
          )
          | inl accepted ↦
              let (n, flags, done, opened) =
                insert_flags_refines "unused_issuance" (describe_unused grant t) (is_unused grant t)
                  t distinct in
              (
                ok n,
                flags,
                inr (n, rw (accepted, done) refl, refl),
                λ i p kind at. ground (arith, accepted, opened i p kind at),
              )
        ]

    pub tick_total :
        (s : Session World)
        → DistinctIds (pg.tables s.world).protocols
        → (n : ℕ) × (s' : Session World) × (flags : List AbuseFlagRow) × (tick fl cfg pg s
            ≡ (ok n, s'))
          × (pg.tables s'.world ≡ record (pg.tables s.world) { abuse_flags = flags })
          × ((i : ℕ) (p : ProtocolRow) (kind : String)
              → get_elem? (pg.tables s.world).protocols i ≡ some p
              → has_open_flag kind p.id flags ≡ (
                  has_open_flag kind p.id (pg.tables s.world).abuse_flags
                  || str_eq p.status "active"
                    && signals pg.dialect fl cfg (pg.tables s.world) p kind))
    unfolding detect_repetitive_self_use detect_daily_cap_self
    tick_total s distinct =
        let t = pg.tables s.world in
        let cap = as_i64 cfg.daily_caps.self_points in
        let (n₁, flags₁, e₁, open₁) =
          insert_flags_refines "repetitive_self_use" (describe_self_use fl t) (is_self_use fl t) t
            distinct in
        let t₁ : Tables = record t { abuse_flags = flags₁ } in
        let (r₂, flags₂, e₂, open₂) = Second-refines t₁ distinct in
        let t₂ : Tables = record t { abuse_flags = flags₂ } in
        let (n₃, flags₃, e₃, open₃) =
          insert_flags_refines "daily_cap_breach" (describe_daily_cap cap t₂)
            (λ q. ltb_ℤ cap (pos (self_count t₂ q))) t₂ distinct in
        let t₃ : Tables = record t { abuse_flags = flags₃ } in
        let (s', ran, after) = tick_runs s t₁ t₂ t₃ n₁ n₃ r₂ e₁ e₂ e₃ in
        (
          n₁ + raised r₂ + n₃,
          s',
          flags₃,
          ran,
          after,
          λ i p kind at. ground (arith, open₁ i p kind at, open₂ i p kind at, open₃ i p kind at),
        )

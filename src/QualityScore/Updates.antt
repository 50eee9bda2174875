-- ===== src/QualityScore/Updates.antt =====
-- src/quality_score.rs: the rows of the protocols through a tick.
use mathlib.Core.Option
use mathlib.Core.Path.{subst}
use keeper_bot.Base.{
  ℕ, suc, ◌+◌, ◌≡◌, refl, ◌∙◌, ap, sym, ◌≢◌, inl, inr, false, some, List, [], ◌∷◌, map, All, ◌==◌,
  get_elem?, get_elem?-map, str_eq, Result, ok, arith, Bool-cases,
}
use keeper_bot.Float64.{Float64}
use keeper_bot.LeagueConfig.{LeagueConfig}
use keeper_bot.Chain.{Session}
use keeper_bot.Tables.{Tables, ProtocolRow}
use keeper_bot.Db.{Pg, run_sql, where_rows}
use keeper_bot.Db.Statements.{LawfulPg, unless_refused-ok}
use keeper_bot.Db.Invariants.{
  Keeps, after_read, Keeps-attempt, Keeps-bind, Keeps-if, Keeps-pure, Keeps-run_sql,
}
use keeper_bot.QualityScore.{
  count_unique, count_repeats, count_social, set_quality, update_score, active_ids,
  compute_engagement, compute_social, score_one, score_all, scored_by, tick,
}

-- A statement that only reads.
abbrev Reads : {A : Type 0} → (Tables → Result (A × Tables)) → Type 0
Reads {A} statement = (t t' : Tables) (a : A) → statement t ≡ ok (a, t') → t ≡ t'

-- The row at `i` is the protocol `p`, as it was.
abbrev pub At : ℕ → ProtocolRow → Tables → Type 0
At i p t = get_elem? t.protocols i ≡ some p

set_quality-other : (id q : ℕ) (p : ProtocolRow) → id ≢ p.id → set_quality id q p ≡ p
set_quality-other id q p other = ground (arith, other)

-- A protocol that is not active is not listed, nor is any other row with its id.
listed_others :
    (p : ProtocolRow) (ps : List ProtocolRow)
    → ((j : ℕ) (q : ProtocolRow)
        → get_elem? ps j ≡ some q
        → q.id ≡ p.id
        → str_eq q.status "active" ≡ false)
    → All
        (λ id. id ≢ p.id)
        (map
          (λ (q : ProtocolRow). q.id)
          (where_rows (λ (q : ProtocolRow). str_eq q.status "active") ps))
listed_others p [] inactive = tt
listed_others p (q ∷ ps) inactive =
    let rest = listed_others p ps λ j. inactive (suc j) in
    elim (Bool-cases (str_eq q.status "active")) [
      | inl listed ↦ rw listed (λ same. ground (arith, listed, inactive 0 q refl same), rest)
      | inr passed ↦ rw passed rest
    ]

module _ (fl : Float64) (cfg : LeagueConfig) {World : Type 0} (pg : Pg World) (law : LawfulPg pg)
    (i : ℕ) (p : ProtocolRow) where
  Reads-Keeps :
      {A : Type 0} (statement : Tables → Result (A × Tables))
      → Reads statement
      → Keeps pg (At i p) (run_sql pg statement)
  Reads-Keeps statement reads =
      Keeps-run_sql pg (At i p) law statement λ t t' a e. subst (At i p) (reads t t' a e)

  update_score-At :
      (id q : ℕ) (t t' : Tables)
      → id ≢ p.id
      → update_score id q t ≡ ok (tt, t')
      → At i p t
      → At i p t'
  unfolding update_score
  update_score-At id q t t' other e at =
      let rows : map (set_quality id q) t.protocols ≡ t'.protocols = ground (arith, e) in
      ap (λ ps. get_elem? ps i) (sym rows)
      ∙ get_elem?-map (set_quality id q) t.protocols i
      ∙ ap (Option.map (set_quality id q)) at
      ∙ ap some (set_quality-other id q p other)

  compute_engagement-Keeps : (id : ℕ) → Keeps pg (At i p) (compute_engagement fl cfg pg id)
  unfolding compute_engagement count_unique count_repeats
  compute_engagement-Keeps id =
      Keeps-bind pg (At i p) _ _
        (Reads-Keeps (count_unique pg.dialect id cfg.activity_window_hours)
          λ t t' a e. ground (arith, unless_refused-ok pg.dialect.bigint_interval _ _ e))
        λ unique. Keeps-if pg (At i p) (unique == 0) _ _ (Keeps-pure pg (At i p) _) (
          Keeps-bind pg (At i p) _ _
            (Reads-Keeps
              (count_repeats pg.dialect id cfg.activity_window_hours cfg.repeat_gap_hours)
              λ t t' a e. ground (arith, unless_refused-ok pg.dialect.bigint_interval _ _ e))
            λ repeats. Keeps-pure pg (At i p) _)

  score_one-Keeps : (id : ℕ) → id ≢ p.id → Keeps pg (At i p) (score_one fl cfg pg id)
  unfolding score_one compute_social count_social update_score
  score_one-Keeps id other = Keeps-bind pg (At i p) _ _ (compute_engagement-Keeps id) λ (u, r).
      Keeps-bind pg (At i p) _ _
        (Keeps-bind pg (At i p) _ _ (Reads-Keeps (count_social id) λ t t' a e. ground (arith, e))
          λ count. Keeps-pure pg (At i p) _)
        λ s.
          Keeps-run_sql pg (At i p) law (update_score id _)
            λ t t' done. update_score-At id _ t t' other

  score_all-Keeps :
      (ids : List ℕ) (scored : ℕ)
      → All (λ id. id ≢ p.id) ids
      → Keeps pg (At i p) (score_all fl cfg pg ids scored)
  unfolding score_all
  score_all-Keeps [] scored others = Keeps-pure pg (At i p) scored
  score_all-Keeps (id ∷ ids) scored (other, others) =
      Keeps-bind pg (At i p) _ _ (Keeps-attempt pg (At i p) _ (score_one-Keeps id other))
        λ result. score_all-Keeps ids (scored + scored_by fl cfg pg result) others

module _ (fl : Float64) (cfg : LeagueConfig) {World : Type 0} (pg : Pg World) where
  -- If no row with the id of a protocol is active, then a tick of the scores leaves the row of that
  -- protocol as it is, whichever statements fail.
  pub tick_inactive :
      LawfulPg pg
      → (s : Session World) (i : ℕ) (p : ProtocolRow)
      → get_elem? (pg.tables s.world).protocols i ≡ some p
      → ((j : ℕ) (q : ProtocolRow)
          → get_elem? (pg.tables s.world).protocols j ≡ some q
          → q.id ≡ p.id
          → str_eq q.status "active" ≡ false)
      → get_elem? (pg.tables (tick fl cfg pg s).1.world).protocols i ≡ some p
  unfolding tick active_ids
  tick_inactive law s i p at inactive =
      after_read pg (At i p) law active_ids _ (λ ids. score_all fl cfg pg ids 0) s refl
        (score_all-Keeps fl cfg pg law i p _ 0
          (listed_others p (pg.tables s.world).protocols inactive))
        at

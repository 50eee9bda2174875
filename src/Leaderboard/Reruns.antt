-- ===== src/Leaderboard/Reruns.antt =====
-- src/leaderboard.rs: a run after the snapshot rows of the day are in.
use keeper_bot.Base.{
  ℕ, ◌≡◌, refl, inl, inr, true, none, List, [], ◌∷◌, ◌++◌, All, String, str_eq_iff, ok, arith,
  Bool-cases, Option-cases, ap, ◌∙◌, some, err, Result, ◌==◌, if◌then◌else◌,
}
use keeper_bot.Float64.{Float64}
use keeper_bot.LeagueConfig.{LeagueConfig}
use keeper_bot.Chain.{Session, Io, pure, continue, ◌>>=◌}
use keeper_bot.Tables.{Tables, SnapshotRow, EarningRow}
use keeper_bot.Db.{Pg, Dialect, run_sql}
use keeper_bot.Db.Statements.{LawfulPg, run_sql-read, run_sql-err, run_sql-ok, run_sql-tables}
use keeper_bot.Leaderboard.{
  award_bonuses, bonus_statement, insert_bonuses, new_bonuses, is_taken, insert_snapshots,
  new_snapshots, snapshot_statement, write_snapshot_and_bonuses,
}

is_taken-append :
    (r : SnapshotRow) (xs ys : List SnapshotRow)
    → is_taken r xs ≡ true
    → is_taken r (xs ++ ys) ≡ true
is_taken-append r [] ys h = absurd (ground (arith, h))
is_taken-append r (x ∷ xs) ys h = ground (arith, h, is_taken-append r xs ys)

is_taken_self : (r : SnapshotRow) (rows : List SnapshotRow) → is_taken r (rows ++ r ∷ []) ≡ true
is_taken_self r [] = ground (arith, str_eq_iff r.snapshot_date r.snapshot_date)
is_taken_self r (x ∷ rows) = ground (arith, is_taken_self r rows)

is_taken_after :
    (r : SnapshotRow) (rows : List SnapshotRow)
    → is_taken r (if is_taken r rows then rows else rows ++ r ∷ []) ≡ true
is_taken_after r rows = elim (Bool-cases (is_taken r rows)) [
  | inl taken ↦ rw (taken, taken) refl
  | inr free ↦ rw free (is_taken_self r rows)
]

-- A taken key stays taken.
insert_snapshots-taken :
    (r : SnapshotRow) (new rows : List SnapshotRow)
    → is_taken r rows ≡ true
    → is_taken r (insert_snapshots new rows).0 ≡ true
unfolding insert_snapshots
insert_snapshots-taken r [] rows h = h
insert_snapshots-taken r (q ∷ new) rows h = elim (Bool-cases (is_taken q rows)) [
  | inl taken ↦ rw taken (insert_snapshots-taken r new rows h)
  | inr free ↦
      rw free (insert_snapshots-taken r new (rows ++ q ∷ []) (is_taken-append r rows (q ∷ []) h))
]

insert_snapshots-All_taken :
    (new rows : List SnapshotRow) → All (λ r. is_taken r (insert_snapshots new rows).0 ≡ true) new
unfolding insert_snapshots
insert_snapshots-All_taken [] rows = tt
insert_snapshots-All_taken (r ∷ new) rows =
    let after = if is_taken r rows then rows else rows ++ r ∷ [] in
    (
      insert_snapshots-taken r new after (is_taken_after r rows),
      insert_snapshots-All_taken new after,
    )

insert_snapshots-none :
    (new rows : List SnapshotRow)
    → All (λ r. is_taken r rows ≡ true) new
    → insert_snapshots new rows ≡ (rows, 0)
unfolding insert_snapshots
insert_snapshots-none [] rows taken = refl
insert_snapshots-none (r ∷ new) rows (here, taken) =
    rw (here, insert_snapshots-none new rows taken) refl

module _ (fl : Float64) (cfg : LeagueConfig) (current_date : ℕ → String) where
  -- The snapshot statement at tables that its rows, and any earnings, have been written to.
  snapshot_statement_again :
      (dialect : Dialect) (t : Tables) (earnings : List EarningRow)
      → dialect.bigint_interval ≡ none
      → let rows =
          (insert_snapshots
            (new_snapshots fl cfg current_date t)
            t.league_leaderboard_snapshots).0 in
        let t' : Tables = record t {
          league_leaderboard_snapshots = rows;
          rewardz_earnings = earnings;
        } in
        snapshot_statement fl cfg current_date dialect t' ≡ ok (0, t')
  unfolding snapshot_statement
  snapshot_statement_again dialect t earnings accepted =
      let new = new_snapshots fl cfg current_date t in
      let rows = (insert_snapshots new t.league_leaderboard_snapshots).0 in
      rw
        (
          accepted,
          insert_snapshots-none new rows
              (insert_snapshots-All_taken new t.league_leaderboard_snapshots),
        )
        refl

  module _ {World : Type 0} (pg : Pg World) (law : LawfulPg pg) where
    bonus_statement_tables :
        (s : Session World)
        → (earnings : List EarningRow) × (pg.tables
              (run_sql pg (bonus_statement fl cfg current_date) s).1.world
            ≡ record (pg.tables s.world) { rewardz_earnings = earnings })
    unfolding bonus_statement
    bonus_statement_tables s =
        elim (run_sql-tables pg law (bonus_statement fl cfg current_date) s) [
          | inl (same, _) ↦ ((pg.tables s.world).rewardz_earnings, same)
          | inr (n, t, ran, moved, _) ↦ (
            (insert_bonuses (new_bonuses fl cfg current_date (pg.tables s.world))
                (pg.tables s.world).rewardz_earnings).0,
            moved ∙ ground (arith, ran),
          )
        ]

    continue-pure :
        {A B : Type 0} (r : Result A) (b : B) (s : Session World)
        → (continue r (λ a. pure b) s).1 ≡ s
    continue-pure (ok a) b s = refl
    continue-pure (err e) b s = refl

    pure_after :
        {A B : Type 0} (m : Io World A) (b : B) (s : Session World)
        → ((m >>= λ a. pure b) s).1 ≡ (m s).1
    pure_after m b s = let (r, s') = m s in continue-pure r b s'

    -- What follows the snapshot statement changes nothing but the earnings.
    award_bonuses_tables :
        (inserted : ℕ) (s : Session World)
        → (earnings : List EarningRow) × (pg.tables
              (award_bonuses fl cfg current_date pg inserted s).1.world
            ≡ record (pg.tables s.world) { rewardz_earnings = earnings })
    award_bonuses_tables inserted s =
        let (earnings, after) = bonus_statement_tables s in
        elim (Bool-cases (inserted == 0)) [
          | inl nothing ↦ ((pg.tables s.world).rewardz_earnings, rw nothing refl)
          | inr rows ↦ (
            earnings,
            rw rows (
                ap (λ x. pg.tables x.world)
                  (pure_after (run_sql pg (bonus_statement fl cfg current_date)) inserted s)
                ∙ after),
          )
        ]

    rerun_refused :
        (s : Session World) (e : String)
        → pg.fault s.world ≡ none
        → pg.dialect.bigint_interval ≡ some e
        → write_snapshot_and_bonuses fl cfg current_date pg s ≡ (err e, s)
    unfolding write_snapshot_and_bonuses snapshot_statement
    rerun_refused s e well refused =
        let failed =
          run_sql-err pg (snapshot_statement fl cfg current_date pg.dialect) e s well
            (rw refused refl) in
        rw failed refl

    rerun_accepted :
        (s : Session World)
        → pg.dialect.bigint_interval ≡ none
        → pg.fault s.world ≡ none
        → (t : Tables) (earnings : List EarningRow)
        → pg.tables s.world ≡ record t {
          league_leaderboard_snapshots =
              (insert_snapshots
                (new_snapshots fl cfg current_date t)
                t.league_leaderboard_snapshots).0;
          rewardz_earnings = earnings;
        }
        → write_snapshot_and_bonuses fl cfg current_date pg s ≡ (ok 0, s)
    unfolding write_snapshot_and_bonuses
    rerun_accepted s accepted well t earnings here =
        let reads =
          run_sql-read pg law (snapshot_statement fl cfg current_date pg.dialect) 0 s well
            (rw here (snapshot_statement_again pg.dialect t earnings accepted)) in
        rw reads refl

    first_run :
        (s : Session World)
        → pg.dialect.bigint_interval ≡ none
        → pg.fault s.world ≡ none
        → (earnings : List EarningRow) × (pg.tables
              (write_snapshot_and_bonuses fl cfg current_date pg s).1.world
            ≡ record (pg.tables s.world) {
              league_leaderboard_snapshots =
                  (insert_snapshots
                    (new_snapshots fl cfg current_date (pg.tables s.world))
                    (pg.tables s.world).league_leaderboard_snapshots).0;
              rewardz_earnings = earnings;
            })
    unfolding write_snapshot_and_bonuses snapshot_statement
    first_run s accepted well =
        let t = pg.tables s.world in
        let new =
          insert_snapshots (new_snapshots fl cfg current_date t) t.league_leaderboard_snapshots in
        let t₁ : Tables = record t { league_leaderboard_snapshots = new.0 } in
        let s₁ : Session World = record s { world = pg.put t₁ s.world } in
        let ran =
          run_sql-ok pg (snapshot_statement fl cfg current_date pg.dialect) new.1 t₁ s well
            (rw accepted refl) in
        let (earnings, after) = award_bonuses_tables new.1 s₁ in
        let stored : pg.tables s₁.world ≡ t₁ = law.tables-put t₁ s.world in
        (
          earnings,
          rw ran (after ∙ ap (λ (u : Tables). record u { rewardz_earnings = earnings }) stored),
        )

    -- If the database answers before a run and after it, then a second run at the same time leaves the
    -- session as it is, whether or not the first one paid the bonuses, and whether or not the server
    -- refuses the snapshot statement.
    pub write_snapshot_and_bonuses_rerun :
        (s : Session World)
        → pg.fault s.world ≡ none
        → pg.fault (write_snapshot_and_bonuses fl cfg current_date pg s).1.world ≡ none
        → (write_snapshot_and_bonuses fl cfg current_date pg
            (write_snapshot_and_bonuses fl cfg current_date pg s).1).1
          ≡ (write_snapshot_and_bonuses fl cfg current_date pg s).1
    write_snapshot_and_bonuses_rerun s well after = elim (Option-cases pg.dialect.bigint_interval) [
      | inr (e, refused) ↦
          ap (λ x. (write_snapshot_and_bonuses fl cfg current_date pg x).1)
            (ap (λ a. a.1) (rerun_refused s e well refused))
      | inl accepted ↦
          let (earnings, here) = first_run s accepted well in
          ap (λ a. a.1)
            (rerun_accepted (write_snapshot_and_bonuses fl cfg current_date pg s).1 accepted after
              (pg.tables s.world) earnings here)
    ]

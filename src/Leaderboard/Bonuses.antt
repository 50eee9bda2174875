-- ===== src/Leaderboard/Bonuses.antt =====
-- src/leaderboard.rs: the bonuses of a day.
use mathlib.Core.Path.{subst}
use keeper_bot.Base.{
  ℕ, ◌≡◌, refl, inl, inr, true, false, ◌||◌, List, [], ◌∷◌, ◌++◌, ◌==◌, String, str_eq_iff, ok,
  arith, Bool-cases,
}
use keeper_bot.Float64.{Float64}
use keeper_bot.LeagueConfig.{LeagueConfig}
use keeper_bot.Chain.{Session}
use keeper_bot.Tables.{Tables, EarningRow, SnapshotRow}
use keeper_bot.Db.{Pg, is_null}
use keeper_bot.Db.Statements.{LawfulPg, unless_refused-ok}
use keeper_bot.Db.Invariants.{Keeps, Keeps-bind, Keeps-if, Keeps-pure, Keeps-run_sql}
use keeper_bot.Leaderboard.{
  is_taken, insert_snapshots, has_bonus, insert_bonuses, new_snapshots, new_bonuses,
  snapshot_statement, bonus_statement, write_snapshot_and_bonuses,
}

-- A date and a rank, and a date and a protocol, have at most one row.
abbrev pub OneEach : List SnapshotRow → Type 0
OneEach [] = Unit
OneEach (r ∷ rows) = (is_taken r rows ≡ false) × OneEach rows

-- A protocol has at most one bonus of a reason.
abbrev pub OneBonus : List EarningRow → Type 0
OneBonus [] = Unit
OneBonus (r ∷ rows) =
    (is_null r.milestone_id ≡ true → has_bonus r.protocol_id r.reason rows ≡ false) × OneBonus rows

is_taken-snoc :
    (q r : SnapshotRow) (rows : List SnapshotRow)
    → is_taken q rows ≡ false
    → is_taken r (q ∷ rows) ≡ false
    → is_taken q (rows ++ r ∷ []) ≡ false
is_taken-snoc q r [] h k = ground (
  arith,
  k,
  str_eq_iff q.snapshot_date r.snapshot_date,
  str_eq_iff r.snapshot_date q.snapshot_date,
)
is_taken-snoc q r (s ∷ rows) h k = ground (arith, h, k, is_taken-snoc q r rows)

OneEach-snoc :
    (rows : List SnapshotRow) (r : SnapshotRow)
    → OneEach rows
    → is_taken r rows ≡ false
    → OneEach (rows ++ r ∷ [])
OneEach-snoc [] r one free = (refl, tt)
OneEach-snoc (q ∷ rows) r (only, one) free =
    (is_taken-snoc q r rows only free, OneEach-snoc rows r one (ground (arith, free)))

insert_snapshots-OneEach :
    (new rows : List SnapshotRow) → OneEach rows → OneEach (insert_snapshots new rows).0
unfolding insert_snapshots
insert_snapshots-OneEach [] rows one = one
insert_snapshots-OneEach (r ∷ new) rows one = elim (Bool-cases (is_taken r rows)) [
  | inl taken ↦ rw taken (insert_snapshots-OneEach new rows one)
  | inr free ↦
      rw free (insert_snapshots-OneEach new (rows ++ r ∷ []) (OneEach-snoc rows r one free))
]

has_bonus-append :
    (id : ℕ) (reason : String) (xs ys : List EarningRow)
    → has_bonus id reason (xs ++ ys) ≡ (has_bonus id reason xs || has_bonus id reason ys)
has_bonus-append id reason [] ys = refl
has_bonus-append id reason (x ∷ xs) ys = ground (arith, has_bonus-append id reason xs ys)

OneBonus-snoc :
    (rows : List EarningRow) (r : EarningRow)
    → OneBonus rows
    → has_bonus r.protocol_id r.reason rows ≡ false
    → OneBonus (rows ++ r ∷ [])
OneBonus-snoc [] r one free = (λ unmarked. refl, tt)
OneBonus-snoc (q ∷ rows) r (only, one) free = (
  λ bonus. ground (
    arith,
    only bonus,
    bonus,
    free,
    str_eq_iff q.reason r.reason,
    str_eq_iff r.reason q.reason,
    has_bonus-append q.protocol_id q.reason rows (r ∷ []),
  ),
  OneBonus-snoc rows r one (ground (arith, free)),
)

insert_bonuses-OneBonus :
    (new rows : List EarningRow) → OneBonus rows → OneBonus (insert_bonuses new rows).0
unfolding insert_bonuses
insert_bonuses-OneBonus [] rows one = one
insert_bonuses-OneBonus (r ∷ new) rows one =
    elim (Bool-cases (has_bonus r.protocol_id r.reason rows)) [
      | inl paid ↦ rw paid (insert_bonuses-OneBonus new rows one)
      | inr free ↦
          rw free (insert_bonuses-OneBonus new (rows ++ r ∷ []) (OneBonus-snoc rows r one free))
    ]

-- The keys of the snapshots and of the bonuses.
abbrev pub OncePaid : Tables → Type 0
OncePaid t = OneEach t.league_leaderboard_snapshots × OneBonus t.rewardz_earnings

module _ (fl : Float64) (cfg : LeagueConfig) (current_date : ℕ → String) {World : Type 0}
    (pg : Pg World) where
  snapshot_statement-OncePaid :
      (t t' : Tables) (n : ℕ)
      → snapshot_statement fl cfg current_date pg.dialect t ≡ ok (n, t')
      → OncePaid t
      → OncePaid t'
  unfolding snapshot_statement
  snapshot_statement-OncePaid t t' n refused_or (each, one) =
      let e = unless_refused-ok pg.dialect.bigint_interval _ _ refused_or in
      let rows : (insert_snapshots (new_snapshots fl cfg current_date t)
            t.league_leaderboard_snapshots).0
          ≡ t'.league_leaderboard_snapshots =
        ground (arith, e) in
      let same : t.rewardz_earnings ≡ t'.rewardz_earnings = ground (arith, e) in
      (
        subst OneEach rows (
            insert_snapshots-OneEach (new_snapshots fl cfg current_date t)
              t.league_leaderboard_snapshots each),
        subst OneBonus same one,
      )

  bonus_statement-OncePaid :
      (t t' : Tables) (n : ℕ)
      → bonus_statement fl cfg current_date t ≡ ok (n, t')
      → OncePaid t
      → OncePaid t'
  unfolding bonus_statement
  bonus_statement-OncePaid t t' n e (each, one) =
      let rows : (insert_bonuses (new_bonuses fl cfg current_date t) t.rewardz_earnings).0
          ≡ t'.rewardz_earnings =
        ground (arith, e) in
      let same : t.league_leaderboard_snapshots ≡ t'.league_leaderboard_snapshots =
        ground (arith, e) in
      (
        subst OneEach same each,
        subst OneBonus rows
            (insert_bonuses-OneBonus (new_bonuses fl cfg current_date t) t.rewardz_earnings one),
      )

  write-Keeps : LawfulPg pg → Keeps pg OncePaid (write_snapshot_and_bonuses fl cfg current_date pg)
  unfolding write_snapshot_and_bonuses
  write-Keeps law =
      Keeps-bind pg OncePaid _ _
        (Keeps-run_sql pg OncePaid law (snapshot_statement fl cfg current_date pg.dialect)
          snapshot_statement-OncePaid)
        λ inserted. Keeps-if pg OncePaid (inserted == 0) _ _ (Keeps-pure pg OncePaid 0) (
          Keeps-bind pg OncePaid _ _
            (Keeps-run_sql pg OncePaid law (bonus_statement fl cfg current_date)
              bonus_statement-OncePaid)
            λ bonuses. Keeps-pure pg OncePaid inserted)

  -- If no date has two rows of a rank or of a protocol and no protocol has two bonuses of a date, then
  -- that is so after a run, whichever statements fail.
  pub write_snapshot_and_bonuses_once :
      LawfulPg pg
      → (s : Session World) → OncePaid (pg.tables s.world)
      → OncePaid (pg.tables (write_snapshot_and_bonuses fl cfg current_date pg s).1.world)
  write_snapshot_and_bonuses_once law s = (write-Keeps law).at s

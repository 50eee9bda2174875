-- ===== src/Db/Statements.antt =====
-- What a statement of src/db.rs does to a session.
use keeper_bot.Base.{
  sym, ap, ◌∙◌, Option, ◌⊎◌, inl, inr, Option-cases, ◌≡◌, refl, none, some, String, Result, ok, err,
  arith,
}
use keeper_bot.Tables.{Tables}
use keeper_bot.Chain.{Session}
use keeper_bot.Chain.Submits.{Quiet}
use keeper_bot.Db.{Pg, run_sql, unless_refused}

-- The tables are a part of the world like any other.
pub record LawfulPg {World : Type 0} (pg : Pg World) : Type 0 where
  pub put-tables : (w : World) → pg.put (pg.tables w) w ≡ w
  pub tables-put : (t : Tables) (w : World) → pg.tables (pg.put t w) ≡ t

pub unless_refused-accepted :
    {A : Type 0} (refusal : Option String) (r : Result A)
    → refusal ≡ none
    → unless_refused refusal r ≡ r
unless_refused-accepted none r accepted = refl
unless_refused-accepted (some e) r accepted = absurd (ground (arith, accepted))

-- A statement that answers was not refused.
pub unless_refused-ok :
    {A : Type 0} (refusal : Option String) (r : Result A) (a : A)
    → unless_refused refusal r ≡ ok a
    → r ≡ ok a
unless_refused-ok none r a e = e
unless_refused-ok (some message) r a e = absurd (ground (arith, e))

module _ {World A : Type 0} (pg : Pg World) where
  pub run_sql-Quiet : (statement : Tables → Result (A × Tables)) → Quiet (run_sql pg statement)
  unfolding run_sql
  run_sql-Quiet statement = record { at = λ s. ground arith }

  -- The tables after a statement: those before it, or those that it makes of them.
  pub run_sql-tables :
      LawfulPg pg
      → (statement : Tables → Result (A × Tables)) (s : Session World)
      → ((pg.tables (run_sql pg statement s).1.world ≡ pg.tables s.world)
          × ((e : String) × ((run_sql pg statement s).0 ≡ err e)))
        ⊎ ((a : A) × (t : Tables) × (statement (pg.tables s.world) ≡ ok (a, t))
            × (pg.tables (run_sql pg statement s).1.world ≡ t)
            × ((run_sql pg statement s).0 ≡ ok a))
  unfolding run_sql
  run_sql-tables law statement s = by_answer (statement (pg.tables s.world)) refl
    where
      by_answer :
          (r : Result (A × Tables))
          → statement (pg.tables s.world) ≡ r
          → ((pg.tables (run_sql pg statement s).1.world ≡ pg.tables s.world)
              × ((e : String) × ((run_sql pg statement s).0 ≡ err e)))
            ⊎ ((a : A) × (t : Tables) × (statement (pg.tables s.world) ≡ ok (a, t))
                × (pg.tables (run_sql pg statement s).1.world ≡ t)
                × ((run_sql pg statement s).0 ≡ ok a))
      by_answer (err e) failed = elim (Option-cases (pg.fault s.world)) [
        | inl well ↦ inl (ground arith, (e, ground arith))
        | inr (e', fault) ↦ inl (ground arith, (e', ground arith))
      ]
      by_answer (ok (a, t)) answered = elim (Option-cases (pg.fault s.world)) [
        | inl well ↦ inr (a, t, answered, ground (arith, law.tables-put t s.world), ground arith)
        | inr (e, fault) ↦ inl (ground arith, (e, ground arith))
      ]

  pub run_sql-err :
      (statement : Tables → Result (A × Tables)) (e : String) (s : Session World)
      → pg.fault s.world ≡ none
      → statement (pg.tables s.world) ≡ err e
      → run_sql pg statement s ≡ (err e, s)
  unfolding run_sql
  run_sql-err statement e s well failed = ground arith

  pub run_sql-fault :
      (statement : Tables → Result (A × Tables)) (e : String) (s : Session World)
      → pg.fault s.world ≡ some e
      → run_sql pg statement s ≡ (err e, s)
  unfolding run_sql
  run_sql-fault statement e s fault = ground arith

  -- A statement that only reads.
  pub run_sql-read :
      LawfulPg pg
      → (statement : Tables → Result (A × Tables)) (a : A) (s : Session World)
      → pg.fault s.world ≡ none
      → statement (pg.tables s.world) ≡ ok (a, pg.tables s.world)
      → run_sql pg statement s ≡ (ok a, s)
  unfolding run_sql
  run_sql-read law statement a s well e = ground (arith, law.put-tables s.world)

  -- A statement that succeeds.
  pub run_sql-ok :
      (statement : Tables → Result (A × Tables)) (a : A) (t : Tables) (s : Session World)
      → pg.fault s.world ≡ none
      → statement (pg.tables s.world) ≡ ok (a, t)
      → run_sql pg statement s ≡ (ok a, record s { world = pg.put t s.world })
  unfolding run_sql
  run_sql-ok statement a t s well e = ground arith

  -- A statement that only reads leaves the session as it is, with an error or with its answer.
  pub run_sql-reads :
      LawfulPg pg
      → (statement : Tables → Result (A × Tables))
      → ((t t' : Tables) (a : A) → statement t ≡ ok (a, t') → t ≡ t')
      → (s : Session World)
      → ((e : String) × (run_sql pg statement s ≡ (err e, s)))
        ⊎ ((a : A) × (statement (pg.tables s.world) ≡ ok (a, pg.tables s.world))
            × (run_sql pg statement s ≡ (ok a, s)))
  run_sql-reads law statement reads s = elim (Option-cases (pg.fault s.world)) [
    | inr (e, fault) ↦ inl (e, run_sql-fault statement e s fault)
    | inl well ↦ by_answer well (statement (pg.tables s.world)) refl
  ]
    where
      by_answer :
          pg.fault s.world ≡ none
          → (r : Result (A × Tables)) → statement (pg.tables s.world) ≡ r
          → ((e : String) × (run_sql pg statement s ≡ (err e, s)))
            ⊎ ((a : A) × (statement (pg.tables s.world) ≡ ok (a, pg.tables s.world))
                × (run_sql pg statement s ≡ (ok a, s)))
      by_answer well (err e) failed = inl (e, run_sql-err statement e s well failed)
      by_answer well (ok (a, t)) answered =
          let here =
            answered ∙ ap (λ u. ok (a, u)) (sym (reads (pg.tables s.world) t a answered)) in
          inr (a, here, run_sql-read law statement a s well here)

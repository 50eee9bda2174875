-- ===== src/Db/Invariants.antt =====
-- src/db.rs: predicates of the tables that a call keeps, with one rule for each way to build a call.
use mathlib.Core.Path.{subst}
use keeper_bot.Base.{
  ◌≡◌, sym, inl, inr, Option-cases, Bool, true, false, Result, ok, err, if◌then◌else◌,
}
use keeper_bot.Tables.{Tables}
use keeper_bot.Chain.{Session, Io, pure, lift, attempt, ask, continue, ◌>>=◌}
use keeper_bot.Db.{Pg, run_sql}
use keeper_bot.Db.Statements.{LawfulPg, run_sql-fault, run_sql-read, run_sql-tables}

module _ {World : Type 0} (pg : Pg World) (P : Tables → Type 0) where
  -- If the tables are as `P` says before the call, then they are after it.
  pub record Keeps {A : Type 0} (m : Io World A) : Type 0 where
    pub at : (s : Session World) → P (pg.tables s.world) → P (pg.tables (m s).1.world)

  pub Keeps-bind :
      {A B : Type 0} (m : Io World A) (f : A → Io World B)
      → Keeps m
      → ((a : A) → Keeps (f a))
      → Keeps (m >>= f)
  Keeps-bind m f km kf = record { at = λ s h. let (r, s') = m s in then_at r s' (km.at s h) }
    where
      then_at :
          (r : Result _) (s' : Session World)
          → P (pg.tables s'.world)
          → P (pg.tables (continue r f s').1.world)
      then_at (ok a) s' h = (kf a).at s' h
      then_at (err e) s' h = h

  pub Keeps-pure : {A : Type 0} (a : A) → Keeps (pure a)
  Keeps-pure a = record { at = λ s h. h }

  pub Keeps-lift : {A : Type 0} (r : Result A) → Keeps (lift r)
  Keeps-lift r = record { at = λ s h. h }

  pub Keeps-attempt : {A : Type 0} (m : Io World A) → Keeps m → Keeps (attempt m)
  Keeps-attempt m km = record { at = λ s h. km.at s h }

  -- A call of a client that does not touch the database.
  pub Keeps-ask :
      {A : Type 0} (call : World → Result A × World)
      → ((w : World) → pg.tables (call w).1 ≡ pg.tables w)
      → Keeps (ask call)
  Keeps-ask call apart = record { at = λ s h. subst P (sym (apart s.world)) h }

  pub Keeps-if :
      {A : Type 0} (b : Bool) (m n : Io World A) → Keeps m → Keeps n → Keeps (if b then m else n)
  Keeps-if true m n km kn = km
  Keeps-if false m n km kn = kn

  pub Keeps-run_sql :
      {A : Type 0}
      → LawfulPg pg
      → (statement : Tables → Result (A × Tables))
      → ((t t' : Tables) (a : A) → statement t ≡ ok (a, t') → P t → P t')
      → Keeps (run_sql pg statement)
  Keeps-run_sql law statement keep = record {
    at = λ s h. elim (run_sql-tables pg law statement s) [
      | inl (same, _) ↦ subst P (sym same) h
      | inr (a, t, answered, moved, _) ↦ subst P (sym moved) (keep _ t a answered h)
    ];
  }

  -- A statement that only reads, followed by a call for what it has read.
  pub after_read :
      {A B : Type 0}
      → LawfulPg pg
      → (statement : Tables → Result (A × Tables)) (a : A) (f : A → Io World B) (s : Session World)
      → statement (pg.tables s.world) ≡ ok (a, pg.tables s.world)
      → Keeps (f a)
      → P (pg.tables s.world)
      → P (pg.tables ((run_sql pg statement >>= f) s).1.world)
  after_read law statement a f s reads keeps h = elim (Option-cases (pg.fault s.world)) [
    | inr (e, fault) ↦ rw (run_sql-fault pg statement e s fault) h
    | inl well ↦ rw (run_sql-read pg law statement a s well reads) (keeps.at s h)
  ]

-- ===== src/Subscriptions/Streaks.antt =====
-- src/subscriptions.rs: the streaks of the subscriptions through a poll.
use mathlib.Core.Path.{subst}
use keeper_bot.Base.{
  ℕ, none, ◌⊎◌, str_append, ◌≤◌, ◌≡◌, refl, sym, ◌∙◌, ℤ, pos, ◌+ℤ◌, leb_ℤ, true, false, List, [],
  ◌∷◌, map, All, String, str_eq, Result, ok, err, arith, Bool-cases, inl, inr,
}
use keeper_bot.Float64.{Float64}
use keeper_bot.Chain.{Session}
use keeper_bot.Config.{Config}
use keeper_bot.Tables
use keeper_bot.Tables.{Tables}
use keeper_bot.Db.{Pg}
use keeper_bot.Db.Statements.{LawfulPg, run_sql-read}
use keeper_bot.Db.Invariants.{
  Keeps, Keeps-ask, Keeps-attempt, Keeps-bind, Keeps-if, Keeps-pure, Keeps-run_sql,
}
use keeper_bot.Api.{wrap_i64}
use keeper_bot.Subscriptions.{
  SubscriptionRow, streak_multiplier, max_ℤ, executed_row, execute_statement, select_due,
  is_success, Client, answer_resolve, process_due, poll_subscriptions,
}

-- A longer streak is not given a lower multiplier, and the multiplier lies between 1 and 2.
streak_multiplier_monotone :
    (a b : ℕ)
    → a ≤ b
    → (10000 ≤ streak_multiplier (pos a))
      × (streak_multiplier (pos a) ≤ streak_multiplier (pos b))
      × (streak_multiplier (pos b) ≤ 20000)
unfolding streak_multiplier
streak_multiplier_monotone a b h = ground (arith, h)

-- No streak is longer than the longest one.
abbrev pub StreaksBounded : Tables → Type 0
StreaksBounded t = All (λ r. leb_ℤ r.streak_current r.streak_longest ≡ true) t.subscriptions

le_max_ℤ : (a b : ℤ) → leb_ℤ b (max_ℤ a b) ≡ true
le_max_ℤ a b = ground arith

-- A client that does not touch the database.
module _ {World : Type 0} where
  abbrev pub Apart : Client World → Pg World → Type 0
  Apart client pg =
      (url key query wallet : String) (w : World)
      → pg.tables (client.post url key query wallet w).1 ≡ pg.tables w

module _ (fl : Float64) where
  executed_row-bounded :
      (now : ℕ) (sub : SubscriptionRow) (new_streak longest : ℤ)
      (rows : List Tables.SubscriptionRow)
      → leb_ℤ new_streak longest ≡ true
      → All (λ r. leb_ℤ r.streak_current r.streak_longest ≡ true) rows
      → All
          (λ r. leb_ℤ r.streak_current r.streak_longest ≡ true)
          (map (executed_row fl now sub new_streak longest) rows)
  executed_row-bounded now sub new_streak longest [] le all = tt
  executed_row-bounded now sub new_streak longest (r ∷ rows) le (here, all) =
      let rest = executed_row-bounded now sub new_streak longest rows le all in
      elim (Bool-cases (str_eq r.subscription_id sub.subscription_id)) [
        | inl hit ↦ rw hit (le, rest)
        | inr miss ↦ rw miss (here, rest)
      ]

  execute_statement-bounded :
      (sub : SubscriptionRow) (t t' : Tables)
      → execute_statement fl sub t ≡ ok (tt, t')
      → StreaksBounded t
      → StreaksBounded t'
  unfolding execute_statement
  execute_statement-bounded sub t t' e bounded =
      let streak = wrap_i64 (sub.streak_current +ℤ pos 1) in
      let rows : map (executed_row fl t.now sub streak (max_ℤ sub.streak_longest streak))
            t.subscriptions
          ≡ t'.subscriptions =
        ground arith in
      rw (sym rows) (
        executed_row-bounded t.now sub streak (max_ℤ sub.streak_longest streak) t.subscriptions
          (le_max_ℤ sub.streak_longest streak) bounded)

  module _ (config : Config) {World : Type 0} (client : Client World) (pg : Pg World) where
    answer_resolve-Keeps :
        LawfulPg pg
        → (sub : SubscriptionRow) (r : Result ℕ)
        → Keeps pg StreaksBounded (answer_resolve fl config client pg sub r)
    answer_resolve-Keeps law sub (ok status) =
        Keeps-if pg StreaksBounded (is_success status) _ _
          (Keeps-run_sql pg StreaksBounded law (execute_statement fl sub)
            λ t t' done. execute_statement-bounded sub t t')
          (Keeps-pure pg StreaksBounded tt)
    answer_resolve-Keeps law sub (err e) = Keeps-pure pg StreaksBounded tt

    process_due-Keeps :
        LawfulPg pg
        → Apart client pg
        → (due : List SubscriptionRow)
        → Keeps pg StreaksBounded (process_due fl config client pg due)
    unfolding process_due
    process_due-Keeps law apart [] = Keeps-pure pg StreaksBounded tt
    process_due-Keeps law apart (sub ∷ due) =
        Keeps-bind pg StreaksBounded _ _
          (Keeps-attempt pg StreaksBounded _ (
            Keeps-ask pg StreaksBounded
              (client.post (str_append config.api_base_url "/v1/intents/resolve")
                config.internal_api_key sub.intent_query sub.wallet_address)
              (apart _ _ _ _)))
          λ resolved.
            Keeps-bind pg StreaksBounded _ _ (answer_resolve-Keeps law sub resolved)
              λ done. process_due-Keeps law apart due

    poll_subscriptions-Keeps :
        LawfulPg pg
        → Apart client pg
        → Keeps pg StreaksBounded (poll_subscriptions fl config client pg)
    unfolding poll_subscriptions select_due
    poll_subscriptions-Keeps law apart =
        Keeps-bind pg StreaksBounded _ _
          (Keeps-run_sql pg StreaksBounded law select_due
            λ t t' due e h. let same : t ≡ t' = ground (arith, e) in subst StreaksBounded same h)
          λ due. process_due-Keeps law apart due

    -- If the client does not touch the database and no streak is longer than the longest one of its
    -- subscription, then that is so after a poll, whatever the client answers and whichever
    -- statements fail.
    pub poll_subscriptions_bounded :
        LawfulPg pg
        → Apart client pg
        → (s : Session World) → StreaksBounded (pg.tables s.world)
        → StreaksBounded (pg.tables (poll_subscriptions fl config client pg s).1.world)
    poll_subscriptions_bounded law apart s = (poll_subscriptions-Keeps law apart).at s

    -- Every call of the client is an error or has a status that is not a success.
    abbrev pub Unresolved : Type 0
    Unresolved =
        (url key query wallet : String) (w : World)
        → ((e : String) × ((client.post url key query wallet w).0 ≡ err e))
          ⊎ ((status : ℕ) × ((client.post url key query wallet w).0 ≡ ok status)
              × (is_success status ≡ false))

    process_due_unresolved :
        Apart client pg
        → Unresolved
        → (due : List SubscriptionRow) (s : Session World)
        → ((process_due fl config client pg due s).0 ≡ ok tt)
          × (pg.tables (process_due fl config client pg due s).1.world ≡ pg.tables s.world)
    unfolding process_due
    process_due_unresolved apart failed [] s = (refl, refl)
    process_due_unresolved apart failed (sub ∷ due) s =
        let url = str_append config.api_base_url "/v1/intents/resolve" in
        let after =
          (client.post url config.internal_api_key sub.intent_query sub.wallet_address s.world).1 in
        let (answered, same) =
          process_due_unresolved apart failed due (record s { world = after }) in
        let kept = apart url config.internal_api_key sub.intent_query sub.wallet_address s.world in
        elim (failed url config.internal_api_key sub.intent_query sub.wallet_address s.world) [
          | inl (e, lost) ↦ rw lost (answered, same ∙ kept)
          | inr (status, refused, bad) ↦ rw (refused, bad) (answered, same ∙ kept)
        ]

    -- If the database answers and no intent is resolved, then a poll returns normally and leaves the
    -- tables as they are: no streak is lost or gained.
    pub poll_subscriptions_unresolved :
        LawfulPg pg
        → Apart client pg
        → Unresolved
        → (s : Session World) → pg.fault s.world ≡ none
        → ((poll_subscriptions fl config client pg s).0 ≡ ok tt)
          × (pg.tables (poll_subscriptions fl config client pg s).1.world ≡ pg.tables s.world)
    unfolding poll_subscriptions select_due
    poll_subscriptions_unresolved law apart failed s well =
        rw (run_sql-read pg law select_due _ s well refl) (process_due_unresolved apart failed _ s)

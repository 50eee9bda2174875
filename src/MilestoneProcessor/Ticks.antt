-- ===== src/MilestoneProcessor/Ticks.antt =====
-- src/milestone_processor.rs: the table of earnings through a tick.
use mathlib.Core.Path.{subst}
use keeper_bot.Base.{
  ℕ, ◌+◌, ◌≡◌, refl, ◌∙◌, ap, sym, ℤ, false, none, some, List, [], ◌∷◌, ◌++◌, All, All-append,
  get_elem?, String, str_eq, str_eq_iff, str_append, ok, arith,
}
use keeper_bot.LeagueConfig.{LeagueConfig}
use keeper_bot.Chain.{Session, pure}
use keeper_bot.Tables.{Tables, ProtocolRow, EarningRow}
use keeper_bot.Db.{Pg, Dialect, run_sql}
use keeper_bot.Db.Rows.{where_rows-at, append-nil, append-append}
use keeper_bot.Db.Statements.{LawfulPg}
use keeper_bot.Db.Invariants.{Keeps, Keeps-attempt, Keeps-bind, Keeps-if, Keeps-pure, Keeps-run_sql}
use keeper_bot.MilestoneProcessor.{
  Predicate, is_frozen, is_awarded, is_due, insert_statement, load_milestone_rewards, process_slug,
  process_rewards, tick, inserted, network_name, first_blink, first_issuance, unique_wallets,
  repeat_wallets,
}
use keeper_bot.MilestoneProcessor.Insertions.{
  OneAward, insert_earnings-OneAward, insert_earnings-append, is_awarded-append,
}
use keeper_bot.MilestoneProcessor.Selection.{award_rows-All}
use keeper_bot.MilestoneProcessor.Awards.{insert_statement-ok}

module _ (cfg : LeagueConfig) {World : Type 0} (pg : Pg World) (law : LawfulPg pg)
    (P : Tables → Type 0)
    (keep : (m amount : ℤ) (slug : String) (predicate : Predicate) (t t' : Tables) (n : ℕ)
      → insert_statement pg.dialect m amount slug predicate t ≡ ok (n, t')
      → P t
      → P t') where
  -- What every statement keeps, `process_slug` keeps.
  process_slug-Keeps :
      (slug : String) (m amount : ℤ) → Keeps pg P (process_slug cfg pg slug m amount)
  unfolding process_slug
  process_slug-Keeps slug m amount =
      Keeps-if pg P (str_eq slug "first_blink") _ _ (insert first_blink) (
        Keeps-if pg P (str_eq slug "first_stake") _ _ nothing (
          Keeps-if pg P (str_eq slug "first_issuance") _ _ (insert first_issuance) (
            Keeps-if pg P (str_eq slug "first_five_unique_wallets") _ _ (insert (unique_wallets 5))
              (Keeps-if pg P (str_eq slug "first_repeat_user") _ _
                (insert (repeat_wallets cfg.repeat_gap_hours 1))
                (Keeps-if pg P (str_eq slug "twenty_five_unique_wallets") _ _
                  (insert (unique_wallets 25))
                  (Keeps-if pg P (str_eq slug "ten_repeat_users") _ _
                    (insert (repeat_wallets cfg.repeat_gap_hours 10)) nothing))))))
    where
      insert :
          (predicate : Predicate)
          → Keeps pg P (run_sql pg (insert_statement pg.dialect m amount slug predicate))
      insert predicate =
          Keeps-run_sql pg P law (insert_statement pg.dialect m amount slug predicate)
            (λ t t' n. keep m amount slug predicate t t' n)

      nothing : Keeps pg P {A = ℕ} (pure 0)
      nothing = Keeps-pure pg P 0

  process_rewards-Keeps :
      (rewards : List (String × ℤ × ℤ)) (total : ℕ)
      → Keeps pg P (process_rewards cfg pg rewards total)
  unfolding process_rewards
  process_rewards-Keeps [] total = Keeps-pure pg P total
  process_rewards-Keeps ((slug, m, amount) ∷ rewards) total =
      Keeps-bind pg P _ _ (Keeps-attempt pg P _ (process_slug-Keeps slug m amount))
        λ result. process_rewards-Keeps rewards (total + inserted result)

  tick-Keeps : Keeps pg P (tick cfg pg)
  unfolding tick load_milestone_rewards
  tick-Keeps =
      Keeps-bind pg P _ _
        (Keeps-run_sql pg P law (load_milestone_rewards (network_name cfg.network))
          λ t t' rewards e. subst P (ground (arith, e)))
        λ rewards. process_rewards-Keeps rewards 0

-- A row that a tick may add to these tables.
abbrev pub IsAward : Tables → EarningRow → Type 0
IsAward t r =
    (i : ℕ) × (p : ProtocolRow) × (m : ℤ) × (get_elem? t.protocols i ≡ some p)
    × (r.protocol_id ≡ p.id)
    × (r.protocol_authority ≡ p.admin_wallet)
    × (r.milestone_id ≡ some m)
    × (r.included_in_root_epoch ≡ none)
    × (p.status ≡ "active")
    × (is_frozen p.id t.abuse_flags ≡ false)
    × (is_awarded p.id m t.rewardz_earnings ≡ false)

-- The tables with awards added to the earnings.
abbrev pub Awarded : Tables → Tables → Type 0
Awarded t t' =
    (new : List EarningRow) × (t'.rewardz_earnings ≡ t.rewardz_earnings ++ new)
    × All (IsAward t) new
    × (t'.protocols ≡ t.protocols)
    × (t'.abuse_flags ≡ t.abuse_flags)

insert_statement-Awarded :
    (dialect : Dialect) (t₀ : Tables) (m amount : ℤ) (slug : String) (predicate : Predicate)
    (t t' : Tables) (n : ℕ)
    → insert_statement dialect m amount slug predicate t ≡ ok (n, t')
    → Awarded t₀ t
    → Awarded t₀ t'
insert_statement-Awarded dialect t₀ m amount slug predicate t t' n e
      (before, grown, awards, same, flags) =
    let (new, f, after) = insert_statement-ok dialect m amount slug predicate t t' n e in
    let all_new : All (IsAward t₀) new =
      award_rows-All t.now (str_append "milestone:" slug) m amount t.wallet_weights (IsAward t₀) _
        new f
        (λ i p x at.
          let (j, here, due) = where_rows-at (is_due m predicate t) t.protocols i p at in
          (
            j,
            p,
            m,
            ap (λ ps. get_elem? ps j) (sym same) ∙ here,
            refl,
            refl,
            refl,
            refl,
            ground (arith, due, str_eq_iff p.status "active"),
            ap (is_frozen p.id) (sym flags) ∙ ground (arith, due),
            ground (arith, due, grown, is_awarded-append p.id m t₀.rewardz_earnings before),
          )) in
    let (kept, inserted_rows, all_kept) =
      insert_earnings-append (IsAward t₀) new t.rewardz_earnings all_new in
    (
      before ++ kept,
      ap (λ u. u.rewardz_earnings) after
          ∙ inserted_rows
          ∙ ap (λ rows. rows ++ kept) grown
          ∙ append-append t₀.rewardz_earnings before kept,
      All-append (IsAward t₀) before kept awards all_kept,
      ap (λ u. u.protocols) after ∙ same,
      ap (λ u. u.abuse_flags) after ∙ flags,
    )

module _ (cfg : LeagueConfig) {World : Type 0} (pg : Pg World) where
  -- If no protocol has two rows of a milestone, then that is so after a tick, whichever statements
  -- fail.
  pub tick-OneAward :
      LawfulPg pg
      → (s : Session World) → OneAward (pg.tables s.world).rewardz_earnings
      → OneAward (pg.tables (tick cfg pg s).1.world).rewardz_earnings
  tick-OneAward law s =
      (tick-Keeps cfg pg law (λ t. OneAward t.rewardz_earnings)
          λ m amount slug predicate t t' n e one.
            let (new, _, after) = insert_statement-ok pg.dialect m amount slug predicate t t' n e in
            subst (λ u. OneAward u.rewardz_earnings) (sym after)
              (insert_earnings-OneAward new t.rewardz_earnings one)).at
        s

  -- Whichever statements fail, a tick leaves the rows of the earnings in place and adds only awards:
  -- rows without a mark, for the admin of a protocol of the table that is active, has no open flag
  -- and did not have the milestone of the row before the tick.
  pub tick-Awarded :
      LawfulPg pg
      → (s : Session World) → Awarded (pg.tables s.world) (pg.tables (tick cfg pg s).1.world)
  tick-Awarded law s =
      (tick-Keeps cfg pg law (Awarded (pg.tables s.world))
          (insert_statement-Awarded pg.dialect (pg.tables s.world))).at
        s ([], sym (append-nil _), tt, refl, refl)

-- ===== src/MilestoneProcessor/Awards.antt =====
-- src/milestone_processor.rs: which milestones are awarded by a statement and by a tick.
use keeper_bot.Base.{
  ℕ, ◌≡◌, refl, ◌∙◌, ap, sym, inl, inr, ℤ, false, not, ◌&&◌, ◌||◌, Option, none, some, map, List,
  [], ◌∷◌, ◌++◌, All, All-of_get_elem?, get_elem?, String, str_eq, str_append, Result, ok, err,
  arith, Bool-cases, Option-cases, ◌⊎◌,
}
use keeper_bot.Tables.{Tables, ProtocolRow, EarningRow, WalletWeightRow}
use keeper_bot.Db.Statements.{unless_refused-ok, unless_refused-accepted}
use keeper_bot.Db.{Dialect, where_rows, eq_ℤ}
use keeper_bot.Db.Rows.{All-where_rows, DistinctIds, where_rows-none}
use keeper_bot.MilestoneProcessor.{
  scaled, amounts_of, weights_of, or_missing, Predicate, is_frozen, is_awarded, is_due, award,
  award_rows, insert_earnings, insert_statement, store_earnings,
}
use keeper_bot.MilestoneProcessor.Insertions.{is_awarded-insert_earnings, eq_ℤ_sound}
use keeper_bot.MilestoneProcessor.Selection.{is_awarded-award_rows}

-- An answer of the statement: the rows of its `SELECT`, inserted.
pub insert_statement-ok :
    (dialect : Dialect) (m amount : ℤ) (slug : String) (predicate : Predicate) (t t' : Tables)
    (n : ℕ)
    → insert_statement dialect m amount slug predicate t ≡ ok (n, t')
    → (new : List EarningRow) × (award_rows t.now
          (str_append "milestone:" slug)
          m
          amount
          t.wallet_weights
          (where_rows (is_due m predicate t) t.protocols)
        ≡ ok new)
      × (t' ≡ record t { rewardz_earnings = (insert_earnings new t.rewardz_earnings).0 })
unfolding insert_statement
insert_statement-ok dialect m amount slug predicate t t' n e =
    by_rows
      (award_rows t.now (str_append "milestone:" slug) m amount t.wallet_weights
        (where_rows (is_due m predicate t) t.protocols))
      refl (unless_refused-ok dialect.partial_index _ _ e)
  where
    by_rows :
        (rows : Result (List EarningRow))
        → award_rows t.now
            (str_append "milestone:" slug)
            m
            amount
            t.wallet_weights
            (where_rows (is_due m predicate t) t.protocols)
          ≡ rows
        → store_earnings t rows ≡ ok (n, t')
        → (new : List EarningRow) × (award_rows t.now
              (str_append "milestone:" slug)
              m
              amount
              t.wallet_weights
              (where_rows (is_due m predicate t) t.protocols)
            ≡ ok new)
          × (t' ≡ record t { rewardz_earnings = (insert_earnings new t.rewardz_earnings).0 })
    by_rows (ok new) f e = (new, f, ground (arith, e))
    by_rows (err x) f e = absurd (ground (arith, e))

insert_statement_awarded :
    (dialect : Dialect) (m amount : ℤ) (slug : String) (predicate : Predicate) (t t' : Tables)
    (n : ℕ) (m' : ℤ) (i : ℕ) (p : ProtocolRow)
    → DistinctIds t.protocols
    → get_elem? t.protocols i ≡ some p
    → insert_statement dialect m amount slug predicate t ≡ ok (n, t')
    → is_awarded p.id m' t'.rewardz_earnings ≡ (
        is_awarded p.id m' t.rewardz_earnings
        || eq_ℤ m m'
          && str_eq p.status "active"
          && not (is_frozen p.id t.abuse_flags)
          && predicate t.point_events p)
insert_statement_awarded dialect m amount slug predicate t t' n m' i p distinct at e =
    let (new, f, after) = insert_statement-ok dialect m amount slug predicate t t' n e in
    rw
      (
        after,
        is_awarded-insert_earnings p.id m' new t.rewardz_earnings,
        is_awarded-award_rows t.now (str_append "milestone:" slug) m amount t.wallet_weights p.id m'
            (is_due m predicate t) t.protocols new i p distinct at refl f,
      )
      (elim (Bool-cases (eq_ℤ m m')) [
        | inl same ↦
            ground
              (arith, same, ap (λ k. is_awarded p.id k t.rewardz_earnings) (eq_ℤ_sound m m' same))
        | inr other ↦ ground (arith, other)
      ])

-- The amount of the milestone, by each of the weights or by none, is a BIGINT.
abbrev pub Payable : ℤ → List WalletWeightRow → Type 0
Payable amount weights =
    ((x : ℤ) × (scaled amount none ≡ ok x))
    × All (λ ww. (x : ℤ) × (scaled amount (some ww.weight) ≡ ok x)) weights

amounts_of-answers :
    (amount : ℤ) (ws : List (Option ℤ))
    → All (λ w. (x : ℤ) × (scaled amount w ≡ ok x)) ws
    → (xs : List ℤ) × (amounts_of amount ws ≡ ok xs)
unfolding amounts_of
amounts_of-answers amount [] payable = ([], refl)
amounts_of-answers amount (w ∷ ws) ((x, e), payable) =
    let (xs, f) = amounts_of-answers amount ws payable in (x ∷ xs, rw (e, f) refl)

weights_of-Payable :
    (amount : ℤ) (p : ProtocolRow) (weights : List WalletWeightRow)
    → Payable amount weights
    → All (λ w. (x : ℤ) × (scaled amount w ≡ ok x)) (weights_of weights p)
weights_of-Payable amount p weights (missing, payable) =
    joined (where_rows _ weights) (All-where_rows _ _ weights payable)
  where
    each :
        (wws : List WalletWeightRow)
        → All (λ ww. (x : ℤ) × (scaled amount (some ww.weight) ≡ ok x)) wws
        → All (λ w. (x : ℤ) × (scaled amount w ≡ ok x)) (map some (map (λ ww. ww.weight) wws))
    each [] all = tt
    each (ww ∷ wws) (here, all) = (here, each wws all)

    joined :
        (wws : List WalletWeightRow)
        → All (λ ww. (x : ℤ) × (scaled amount (some ww.weight) ≡ ok x)) wws
        → All (λ w. (x : ℤ) × (scaled amount w ≡ ok x)) (or_missing (map (λ ww. ww.weight) wws))
    joined [] all = (missing, tt)
    joined (ww ∷ wws) all = each (ww ∷ wws) all

award_rows-answers :
    (now : ℕ) (reason : String) (m amount : ℤ) (weights : List WalletWeightRow)
    (ps : List ProtocolRow)
    → Payable amount weights
    → (new : List EarningRow) × (award_rows now reason m amount weights ps ≡ ok new)
unfolding award_rows
award_rows-answers now reason m amount weights [] payable = ([], refl)
award_rows-answers now reason m amount weights (p ∷ ps) payable =
    let (xs, e) =
      amounts_of-answers amount (weights_of weights p)
        (weights_of-Payable amount p weights payable) in
    let (new, f) = award_rows-answers now reason m amount weights ps payable in
    (map (award now reason m p) xs ++ new, rw (e, f) refl)

insert_statement-answers :
    (dialect : Dialect) (m amount : ℤ) (slug : String) (predicate : Predicate) (t : Tables)
    → dialect.partial_index ≡ none
    → Payable amount t.wallet_weights
    → (n : ℕ) × (t' : Tables) × (insert_statement dialect m amount slug predicate t ≡ ok (n, t'))
unfolding insert_statement
insert_statement-answers dialect m amount slug predicate t accepted payable =
    let (new, e) =
      award_rows-answers t.now (str_append "milestone:" slug) m amount t.wallet_weights
        (where_rows (is_due m predicate t) t.protocols) payable in
    (_, _, unless_refused-accepted dialect.partial_index _ accepted ∙ ap (store_earnings t) e)

-- If the ids of the protocols are distinct and the amount fits with each weight, then the statement
-- of a milestone is an error where the server refuses its conflict clause; where it does not, the
-- statement answers, and a protocol of the table has a milestone after it exactly if it had it
-- before, or if it is the milestone of the statement and the protocol is active, has no open flag and
-- satisfies the predicate.
pub insert_statement_refines :
    (dialect : Dialect) (m amount : ℤ) (slug : String) (predicate : Predicate) (t : Tables) (m' : ℤ)
    (i : ℕ) (p : ProtocolRow)
    → DistinctIds t.protocols
    → Payable amount t.wallet_weights
    → get_elem? t.protocols i ≡ some p
    → ((e : String) × (dialect.partial_index ≡ some e)
        × (insert_statement dialect m amount slug predicate t ≡ err e))
      ⊎ ((dialect.partial_index ≡ none)
          × (n : ℕ) × (t' : Tables) × (insert_statement dialect m amount slug predicate t
              ≡ ok (n, t'))
          × (is_awarded p.id m' t'.rewardz_earnings ≡ (
              is_awarded p.id m' t.rewardz_earnings
              || eq_ℤ m m'
                && str_eq p.status "active"
                && not (is_frozen p.id t.abuse_flags)
                && predicate t.point_events p)))
unfolding insert_statement
insert_statement_refines dialect m amount slug predicate t m' i p distinct payable at =
    elim (Option-cases dialect.partial_index) [
      | inr (e, refused) ↦ inl (e, refused, rw refused refl)
      | inl accepted ↦
          let (n, t', e) =
            insert_statement-answers dialect m amount slug predicate t accepted payable in
          inr (
            accepted,
            n,
            t',
            e,
            insert_statement_awarded dialect m amount slug predicate t t' n m' i p distinct at e,
          )
    ]

-- If the ids are distinct and the statement of a milestone answers, then a second run of it inserts
-- no row and leaves the tables as they are.
insert_statement_twice :
    (dialect : Dialect) (m amount : ℤ) (slug : String) (predicate : Predicate) (t t' : Tables)
    (n : ℕ)
    → DistinctIds t.protocols
    → insert_statement dialect m amount slug predicate t ≡ ok (n, t')
    → insert_statement dialect m amount slug predicate t' ≡ ok (0, t')
unfolding insert_statement award_rows insert_earnings
insert_statement_twice dialect m amount slug predicate t t' n distinct e =
    let (new, f, after) = insert_statement-ok dialect m amount slug predicate t t' n e in
    let settled : All (λ p. is_due m predicate t' p ≡ false) t'.protocols =
      All-of_get_elem? t'.protocols λ i p at. ground (
        arith,
        insert_statement_awarded dialect m amount slug predicate t t' n m i p distinct
            (ap (λ u. get_elem? u.protocols i) (sym after) ∙ at) e,
        after,
      ) in
    let none_due : where_rows (is_due m predicate t') t'.protocols ≡ [] =
      where_rows-none (is_due m predicate t') t'.protocols settled in
    elim (Option-cases dialect.partial_index) [
      | inl accepted ↦ rw (none_due, accepted) refl
      | inr (x, refused) ↦ absurd (ground (arith, e, refused))
    ]

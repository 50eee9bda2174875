-- ===== src/MilestoneProcessor/Selection.antt =====
-- src/milestone_processor.rs: the rows that the statement selects.
use mathlib.Core.Path.{subst}
use keeper_bot.Base.{
  ℕ, zero, suc, ◌≡◌, refl, ◌∙◌, ap, ◌≢◌, sym, inl, inr, ℤ, Bool, false, not, ◌&&◌, Option, some,
  List, [], ◌∷◌, ◌++◌, map, All, get_elem?, ◌==◌, String, Result, ok, err, arith, Bool-cases,
  length, All-append, All-map,
}
use keeper_bot.Tables.{ProtocolRow, EarningRow, WalletWeightRow}
use keeper_bot.Db.{where_rows, eq_ℤ}
use keeper_bot.Db.Rows.{DistinctIds, DistinctIds-at, where_rows-yes, where_rows-no}
use keeper_bot.MilestoneProcessor.{
  is_awarded, award, award_rows, amounts_of, scaled, weights_of, or_missing, ok_append, ok_cons,
  ok_map,
}
use keeper_bot.MilestoneProcessor.Insertions.{is_awarded-append}

length-amounts_of :
    (amount : ℤ) (ws : List (Option ℤ)) (xs : List ℤ)
    → amounts_of amount ws ≡ ok xs
    → length xs ≡ length ws
unfolding amounts_of
length-amounts_of amount [] xs e = ground (arith, e)
length-amounts_of amount (w ∷ ws) xs e =
    by_parts (scaled amount w) (amounts_of amount ws) refl e (length-amounts_of amount ws)
  where
    by_parts :
        (x : Result ℤ) (ys : Result (List ℤ))
        → amounts_of amount ws ≡ ys
        → ok_cons x ys ≡ ok xs
        → ((zs : List ℤ) → amounts_of amount ws ≡ ok zs → length zs ≡ length ws)
        → length xs ≡ suc (length ws)
    by_parts (ok x) (ok ys) f e rest = ground (arith, e, rest ys f)
    by_parts (ok x) (err y) f e rest = absurd (ground (arith, e))
    by_parts (err y) ys f e rest = absurd (ground (arith, e))

-- A protocol is joined to at least one weight.
length-weights_of :
    (weights : List WalletWeightRow) (p : ProtocolRow)
    → (length (weights_of weights p) == 0) ≡ false
length-weights_of weights p = some_weight (map _ (where_rows _ weights))
  where
    some_weight : (ws : List ℤ) → (length (or_missing ws) == 0) ≡ false
    some_weight [] = refl
    some_weight (w ∷ ws) = ground arith

module _ (now : ℕ) (reason : String) (m amount : ℤ) (weights : List WalletWeightRow) where
  award_rows-cons :
      (p : ProtocolRow) (ps : List ProtocolRow) (new : List EarningRow)
      → award_rows now reason m amount weights (p ∷ ps) ≡ ok new
      → (xs : List ℤ) × (ys : List EarningRow) × (award_rows now reason m amount weights ps ≡ ok ys)
        × (map (award now reason m p) xs ++ ys ≡ new)
        × ((length xs == 0) ≡ false)
  unfolding award_rows
  award_rows-cons p ps new e =
      by_parts (amounts_of amount (weights_of weights p))
        (award_rows now reason m amount weights ps) refl refl e
    where
      by_parts :
          (xs : Result (List ℤ)) (ys : Result (List EarningRow))
          → amounts_of amount (weights_of weights p) ≡ xs
          → award_rows now reason m amount weights ps ≡ ys
          → ok_append (ok_map (map (award now reason m p)) xs) ys ≡ ok new
          → (xs : List ℤ) × (ys : List EarningRow) × (award_rows now reason m amount weights ps
              ≡ ok ys)
            × (map (award now reason m p) xs ++ ys ≡ new)
            × ((length xs == 0) ≡ false)
      by_parts (ok xs) (ok ys) g f e = (
        xs,
        ys,
        f,
        ground (arith, e),
        rw (length-amounts_of amount (weights_of weights p) xs g) (length-weights_of weights p),
      )
      by_parts (ok xs) (err x) g f e = absurd (ground (arith, e))
      by_parts (err x) ys g f e = absurd (ground (arith, e))

  award_rows-nil :
      (new : List EarningRow) → award_rows now reason m amount weights [] ≡ ok new → [] ≡ new
  unfolding award_rows
  award_rows-nil new e = ground (arith, e)

  -- A predicate that holds of every award of the protocols holds of the rows of the `SELECT`.
  pub award_rows-All :
      (P : EarningRow → Type 0) (ps : List ProtocolRow) (new : List EarningRow)
      → award_rows now reason m amount weights ps ≡ ok new
      → ((i : ℕ) (p : ProtocolRow) (x : ℤ) → get_elem? ps i ≡ some p → P (award now reason m p x))
      → All P new
  award_rows-All P [] new e each = subst (All P) (award_rows-nil new e) tt
  award_rows-All P (p ∷ ps) new e each =
      let (xs, ys, f, parts, _) = award_rows-cons p ps new e in
      subst (All P) parts (
        All-append P (map (award now reason m p) xs) ys
          (All-map P (award now reason m p) xs λ x. each 0 p x refl)
          (award_rows-All P ps ys f λ i. each (suc i)))

  at_rows :
      {ps qs : List ProtocolRow} {r : Result (List EarningRow)}
      → ps ≡ qs
      → award_rows now reason m amount weights ps ≡ r
      → award_rows now reason m amount weights qs ≡ r
  at_rows same e = ap (award_rows now reason m amount weights) (sym same) ∙ e

  module _ (id : ℕ) (m' : ℤ) where
    is_awarded-award :
        (p : ProtocolRow) (xs : List ℤ)
        → is_awarded id m' (map (award now reason m p) xs)
          ≡ (not (length xs == 0) && p.id == id && eq_ℤ m m')
    is_awarded-award p [] = refl
    is_awarded-award p (x ∷ xs) = ground (arith, is_awarded-award p xs)

    is_awarded-award_rows_absent :
        (c : ProtocolRow → Bool) (ps : List ProtocolRow) (new : List EarningRow)
        → All (λ q. q.id ≢ id) ps
        → award_rows now reason m amount weights (where_rows c ps) ≡ ok new
        → is_awarded id m' new ≡ false
    is_awarded-award_rows_absent c [] new away e = rw (sym (award_rows-nil new e)) refl
    is_awarded-award_rows_absent c (p ∷ ps) new (ne, away) e = elim (Bool-cases (c p)) [
      | inl selected ↦
          let (xs, ys, f, parts, _) =
            award_rows-cons p (where_rows c ps) new (at_rows (where_rows-yes c p ps selected) e) in
          rw
            (
              sym parts,
              is_awarded-append id m' (map (award now reason m p) xs) ys,
              is_awarded-award p xs,
              is_awarded-award_rows_absent c ps ys away f,
            )
            (ground (arith, ne))
      | inr passed ↦
          is_awarded-award_rows_absent c ps new away (at_rows (where_rows-no c p ps passed) e)
    ]

    -- Each protocol that is selected is awarded the milestone.
    pub is_awarded-award_rows :
        (c : ProtocolRow → Bool) (ps : List ProtocolRow) (new : List EarningRow) (i : ℕ)
        (p : ProtocolRow)
        → DistinctIds ps
        → get_elem? ps i ≡ some p
        → p.id ≡ id
        → award_rows now reason m amount weights (where_rows c ps) ≡ ok new
        → is_awarded id m' new ≡ (eq_ℤ m m' && c p)
    is_awarded-award_rows c [] new i p distinct at same e = cc
    is_awarded-award_rows c (q ∷ ps) new zero p (away, distinct) at same e =
        let here : q ≡ p = ground arith in
        let away_id : All (λ r. r.id ≢ id) ps =
          subst (λ j. All (λ r. r.id ≢ j) ps) (rw here same) away in
        elim (Bool-cases (c q)) [
          | inl selected ↦
              let (xs, ys, f, parts, filled) =
                award_rows-cons q (where_rows c ps) new
                  (at_rows (where_rows-yes c q ps selected) e) in
              rw
                (
                  sym parts,
                  is_awarded-append id m' (map (award now reason m q) xs) ys,
                  is_awarded-award q xs,
                  is_awarded-award_rows_absent c ps ys away_id f,
                  filled,
                  sym here,
                  selected,
                )
                (ground (arith, same, here))
          | inr passed ↦
              rw
                (
                  sym here,
                  passed,
                  is_awarded-award_rows_absent c ps new away_id
                      (at_rows (where_rows-no c q ps passed) e),
                )
                (ground arith)
        ]
    is_awarded-award_rows c (q ∷ ps) new (suc i) p (away, distinct) at same e =
        let other = DistinctIds-at q ps i p away at in
        elim (Bool-cases (c q)) [
          | inl selected ↦
              let (xs, ys, f, parts, filled) =
                award_rows-cons q (where_rows c ps) new
                  (at_rows (where_rows-yes c q ps selected) e) in
              rw
                (
                  sym parts,
                  is_awarded-append id m' (map (award now reason m q) xs) ys,
                  is_awarded-award q xs,
                  is_awarded-award_rows c ps ys i p distinct at same f,
                )
                (ground (arith, same, other))
          | inr passed ↦
              is_awarded-award_rows c ps new i p distinct at same
                (at_rows (where_rows-no c q ps passed) e)
        ]

-- ===== src/MilestoneProcessor/Insertions.antt =====
-- src/milestone_processor.rs: the rows that the statement inserts.
use mathlib.Core.Path.{subst}
use keeper_bot.Base.{
  ℕ, ◌≡◌, refl, ◌∙◌, ap, sym, inl, inr, ℤ, pos, negsuc, Bool, true, false, ◌&&◌, ◌||◌, Option, none,
  some, List, [], ◌∷◌, ◌++◌, All, ◌==◌, arith, Bool-cases, Option-cases,
}
use keeper_bot.Tables.{EarningRow}
use keeper_bot.Db.{eq_ℤ}
use keeper_bot.Db.Rows.{append-nil, append-append}
use keeper_bot.MilestoneProcessor.{is_awarded, has_conflict, insert_earnings}

pub eq_ℤ_sound : (a b : ℤ) → eq_ℤ a b ≡ true → a ≡ b
eq_ℤ_sound (pos m) (pos n) h = ap pos (ground (arith, h))
eq_ℤ_sound (pos m) (negsuc n) h = absurd (ground (arith, h))
eq_ℤ_sound (negsuc m) (pos n) h = absurd (ground (arith, h))
eq_ℤ_sound (negsuc m) (negsuc n) h = ap negsuc (ground (arith, h))

pub eq_ℤ_sym : (a b : ℤ) → eq_ℤ a b ≡ eq_ℤ b a
eq_ℤ_sym a b = ground arith

-- A protocol has at most one row of a milestone.
abbrev pub OneAward : List EarningRow → Type 0
OneAward [] = Unit
OneAward (r ∷ rows) = (has_conflict r rows ≡ false) × OneAward rows

pub is_awarded-append :
    (id : ℕ) (m : ℤ) (xs ys : List EarningRow)
    → is_awarded id m (xs ++ ys) ≡ (is_awarded id m xs || is_awarded id m ys)
is_awarded-append id m [] ys = refl
is_awarded-append id m (x ∷ xs) ys = ground (arith, is_awarded-append id m xs ys)

has_conflict-snoc :
    (q r : EarningRow) (rows : List EarningRow)
    → has_conflict q rows ≡ false
    → has_conflict r (q ∷ rows) ≡ false
    → has_conflict q (rows ++ r ∷ []) ≡ false
has_conflict-snoc q r rows h k = by_milestones q.milestone_id r.milestone_id refl refl
  where
    by_milestones :
        (a b : Option ℤ)
        → q.milestone_id ≡ a
        → r.milestone_id ≡ b
        → has_conflict q (rows ++ r ∷ []) ≡ false
    by_milestones none b e f = ground (arith, e)
    by_milestones (some m) none e f =
        ground (arith, e, f, h, is_awarded-append q.protocol_id m rows (r ∷ []))
    by_milestones (some m) (some m') e f =
        ground (arith, e, f, h, k, eq_ℤ_sym m m', is_awarded-append q.protocol_id m rows (r ∷ []))

OneAward-snoc :
    (rows : List EarningRow) (r : EarningRow)
    → OneAward rows
    → has_conflict r rows ≡ false
    → OneAward (rows ++ r ∷ [])
OneAward-snoc [] r one free = (ground arith, tt)
OneAward-snoc (q ∷ rows) r (only, one) free =
    (has_conflict-snoc q r rows only free, OneAward-snoc rows r one (ground (arith, free)))

pub insert_earnings-OneAward :
    (new rows : List EarningRow) → OneAward rows → OneAward (insert_earnings new rows).0
unfolding insert_earnings
insert_earnings-OneAward [] rows one = one
insert_earnings-OneAward (r ∷ new) rows one = elim (Bool-cases (has_conflict r rows)) [
  | inl conflict ↦ rw conflict (insert_earnings-OneAward new rows one)
  | inr free ↦
      rw free (insert_earnings-OneAward new (rows ++ r ∷ []) (OneAward-snoc rows r one free))
]

-- The rows before stay, and those after them are some of the new ones.
pub insert_earnings-append :
    (P : EarningRow → Type 0) (new rows : List EarningRow)
    → All P new
    → (kept : List EarningRow) × ((insert_earnings new rows).0 ≡ rows ++ kept) × All P kept
unfolding insert_earnings
insert_earnings-append P [] rows all = ([], sym (append-nil rows), tt)
insert_earnings-append P (r ∷ new) rows (a, all) = elim (Bool-cases (has_conflict r rows)) [
  | inl conflict ↦ rw conflict (insert_earnings-append P new rows all)
  | inr free ↦
      let (kept, e, all_kept) = insert_earnings-append P new (rows ++ r ∷ []) all in
      rw free (r ∷ kept, e ∙ append-append rows (r ∷ []) kept, (a, all_kept))
]

key_id : {i j : ℕ} (b : Bool) → (i == j && b) ≡ true → i ≡ j
key_id b h = ground (arith, h)

-- Which milestones are awarded after the insertion.
pub is_awarded-insert_earnings :
    (id : ℕ) (m : ℤ) (new rows : List EarningRow)
    → is_awarded id m (insert_earnings new rows).0 ≡ (is_awarded id m rows || is_awarded id m new)
unfolding insert_earnings
is_awarded-insert_earnings id m [] rows = ground arith
is_awarded-insert_earnings id m (r ∷ new) rows = elim (Bool-cases (has_conflict r rows)) [
  | inl conflict ↦ rw (conflict, is_awarded-insert_earnings id m new rows) (known conflict)
  | inr free ↦
      rw
        (
          free,
          is_awarded-insert_earnings id m new (rows ++ r ∷ []),
          is_awarded-append id m rows (r ∷ []),
        )
        (ground arith)
]
  where
    known :
        has_conflict r rows ≡ true
        → (is_awarded id m rows || is_awarded id m new)
          ≡ (is_awarded id m rows || is_awarded id m (r ∷ new))
    known conflict = elim (Option-cases r.milestone_id) [
      | inl missing ↦ absurd (ground (arith, conflict, missing))
      | inr (m', here) ↦ elim (Bool-cases (r.protocol_id == id && eq_ℤ m' m)) [
        | inl same ↦
            let held : is_awarded id m rows ≡ true =
              subst (λ j. is_awarded j m rows ≡ true) (key_id (eq_ℤ m' m) same)
                (subst (λ n. is_awarded r.protocol_id n rows ≡ true)
                  (eq_ℤ_sound m' m (ground (arith, same))) (ground (arith, conflict, here))) in
            ground (arith, held)
        | inr other ↦ ground (arith, here, other)
      ]
    ]

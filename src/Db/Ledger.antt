-- ===== src/Db/Ledger.antt =====
-- src/db.rs, `record_rewardz_root_publish`: which rows the backfill marks.
use mathlib.Core.Option
use keeper_bot.Base.{
  ℕ, ◌≤◌, ◌<◌, suc, zero, ℤ, ◌≡◌, refl, sym, ◌∙◌, ap, true, false, none, some, List, [], ◌∷◌,
  if◌then◌else◌, Bytes, String, ok, get_elem?, arith, ◌≢◌, Bool-cases, inl, inr, ◌⊎◌,
}
use keeper_bot.Tables.{Tables, EarningRow, RootEpochRow}
use keeper_bot.Db.{
  eq_ℤ, any_eq, is_backfilled, backfill, insert_root_epoch, record_rewardz_root_publish,
}

eq_ℤ_refl : (a : ℤ) → eq_ℤ a a ≡ true
eq_ℤ_refl a = ground arith

insert_root_epoch_twice :
    (row : RootEpochRow) (rows : List RootEpochRow)
    → insert_root_epoch row (insert_root_epoch row rows) ≡ insert_root_epoch row rows
unfolding insert_root_epoch
insert_root_epoch_twice row [] = ground (arith, eq_ℤ_refl row.epoch)
insert_root_epoch_twice row (r ∷ rows) = elim (Bool-cases (eq_ℤ r.epoch row.epoch)) [
  | inl same ↦ rw (same, same) refl
  | inr other ↦ rw (other, other) (ap (◌∷◌ r) (insert_root_epoch_twice row rows))
]

module _ (epoch : ℤ) (authorities : List String) (cutoff : ℕ) where
  -- What the statement does to one row.
  abbrev pub stamp : EarningRow → EarningRow
  stamp r =
      if is_backfilled authorities cutoff r
      then record r { included_in_root_epoch = some epoch }
      else r

  backfill-stamp :
      (rows : List EarningRow) (i : ℕ)
      → get_elem? (backfill epoch authorities cutoff rows).0 i ≡ Option.map stamp (get_elem? rows i)
  unfolding backfill
  backfill-stamp [] i = refl
  backfill-stamp (r ∷ rows) zero = ground arith
  backfill-stamp (r ∷ rows) (suc i) = ground (arith, backfill-stamp rows i)

  backfill_twice :
      (epoch' : ℤ) (rows : List EarningRow)
      → backfill epoch' authorities cutoff (backfill epoch authorities cutoff rows).0
        ≡ ((backfill epoch authorities cutoff rows).0, 0)
  unfolding backfill
  backfill_twice epoch' [] = refl
  backfill_twice epoch' (r ∷ rows) = elim (Bool-cases (is_backfilled authorities cutoff r)) [
    | inl marked ↦ rw (marked, backfill_twice epoch' rows) refl
    | inr kept ↦ rw (kept, backfill_twice epoch' rows, kept) refl
  ]

  -- Recording one publish twice is recording it once: the second call marks no row and leaves the
  -- tables as they are.
  record_rewardz_root_publish_twice :
      (merkle_root : Bytes) (tx_sig : String) (total : ℕ) (t t' : Tables) (n : ℕ)
      → record_rewardz_root_publish epoch merkle_root tx_sig total authorities cutoff t ≡ ok (n, t')
      → record_rewardz_root_publish epoch merkle_root tx_sig total authorities cutoff t'
        ≡ ok (0, t')
  unfolding record_rewardz_root_publish
  record_rewardz_root_publish_twice merkle_root tx_sig total t t' n h =
      let row : RootEpochRow = record {
        epoch = epoch;
        merkle_root = merkle_root;
        tx_sig = tx_sig;
        total_included = total;
      } in
      ground (
        arith,
        backfill_twice epoch t.rewardz_earnings,
        insert_root_epoch_twice row t.rewardz_root_epochs,
      )

  -- A recorded publish marks a row with its epoch exactly if the row had no mark, belongs to one of
  -- the authorities and was there at the cutoff; any other row, a row marked before included, is
  -- as it was, and rows keep their places.
  pub record_rewardz_root_publish_marks :
      (merkle_root : Bytes) (tx_sig : String) (total : ℕ) (t t' : Tables) (n i : ℕ) (r : EarningRow)
      → record_rewardz_root_publish epoch merkle_root tx_sig total authorities cutoff t ≡ ok (n, t')
      → get_elem? t.rewardz_earnings i ≡ some r
      → ((r.included_in_root_epoch ≡ none)
          × (any_eq r.protocol_authority authorities ≡ true)
          × (r.created_at ≤ cutoff)
          × (get_elem? t'.rewardz_earnings i
              ≡ some (record r { included_in_root_epoch = some epoch })))
        ⊎ (((r.included_in_root_epoch ≢ none)
              ⊎ (any_eq r.protocol_authority authorities ≡ false)
              ⊎ (cutoff < r.created_at))
            × (get_elem? t'.rewardz_earnings i ≡ some r))
  unfolding record_rewardz_root_publish
  record_rewardz_root_publish_marks merkle_root tx_sig total t t' n i r h at =
      elim (Bool-cases (is_backfilled authorities cutoff r)) [
        | inl marked ↦ inl (
          ground (arith, marked),
          ground (arith, marked),
          ground (arith, marked),
          moved ∙ ap some (rw marked refl),
        )
        | inr kept ↦ inr (why kept, moved ∙ ap some (rw kept refl))
      ]
    where
      moved : get_elem? t'.rewardz_earnings i ≡ some (stamp r)
      moved =
          let same : (backfill epoch authorities cutoff t.rewardz_earnings).0
              ≡ t'.rewardz_earnings =
            ground arith in
          ap (λ rows. get_elem? rows i) (sym same)
          ∙ backfill-stamp t.rewardz_earnings i
          ∙ ap (Option.map stamp) at

      why :
          is_backfilled authorities cutoff r ≡ false
          → (r.included_in_root_epoch ≢ none)
            ⊎ (any_eq r.protocol_authority authorities ≡ false)
            ⊎ (cutoff < r.created_at)
      why e = ground (arith, e)

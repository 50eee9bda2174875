-- ===== src/Rental/Settlement.antt =====
-- src/rental.rs: the transactions of a scan.
use keeper_bot.Base.{◌≡◌, refl, ◌∙◌, ap, sym, List, [], ◌∷◌, ◌++◌, map, Bytes, Result, ok, err}
use keeper_bot.Chain.{Pubkey, Transaction, Rpc, Session, send_instruction, submit, pure, continue}
use keeper_bot.Db.Rows.{append-append, append-nil}
use keeper_bot.Rental.{
  settle_rental_ix, settle_single_rental, settle_all, settle_rentals, disc_rental_agreement,
}

continue-pure :
    {World A : Type 0} (r : Result A) (s : Session World)
    → (continue {World = World} r (λ x. pure tt) s).1 ≡ s
continue-pure (ok a) s = refl
continue-pure (err e) s = refl

module _ {World : Type 0} (rpc : Rpc World) (keypair program_id : Pubkey) where
  -- The transactions settle the accounts, one each and in their order.
  abbrev pub SettleEach : List (Pubkey × Bytes) → List Transaction → Type 0
  SettleEach accounts txs =
      map (λ tx. tx.instructions) txs
      ≡ map (λ a. settle_rental_ix keypair program_id a.0 ∷ []) accounts

  module _ (answers : (w : World) → (h : Bytes) × ((rpc.get_latest_blockhash w).0 ≡ ok h)) where
    settle_single_rental-sent :
        (rental_pda : Pubkey) (s : Session World)
        → (tx : Transaction) × ((settle_single_rental rpc keypair program_id rental_pda s).1.sent
            ≡ s.sent ++ tx ∷ [])
          × (tx.instructions ≡ settle_rental_ix keypair program_id rental_pda ∷ [])
    unfolding settle_single_rental send_instruction submit
    settle_single_rental-sent rental_pda s =
        let (recent_blockhash, e) = answers s.world in
        let tx : Transaction = record {
          instructions = settle_rental_ix keypair program_id rental_pda ∷ [];
          payer = keypair;
          recent_blockhash = recent_blockhash;
        } in
        (tx, rw e (ap (λ u. u.sent) (continue-pure _ _)), refl)

    settle_all-SettleEach :
        (accounts : List (Pubkey × Bytes)) (s : Session World)
        → (txs : List Transaction) × ((settle_all rpc keypair program_id accounts s).0 ≡ ok tt)
          × ((settle_all rpc keypair program_id accounts s).1.sent ≡ s.sent ++ txs)
          × SettleEach accounts txs
    unfolding settle_all
    settle_all-SettleEach [] s = ([], refl, sym (append-nil s.sent), refl)
    settle_all-SettleEach ((rental_pda, account) ∷ accounts) s =
        let s' = (settle_single_rental rpc keypair program_id rental_pda s).1 in
        let (tx, sent, settles) = settle_single_rental-sent rental_pda s in
        let (txs, answered, sent', each) = settle_all-SettleEach accounts s' in
        (
          tx ∷ txs,
          answered,
          sent' ∙ ap (λ l. l ++ txs) sent ∙ append-append s.sent (tx ∷ []) txs,
          rw (settles, each) refl,
        )

    -- If the cluster lists the rental agreements and always answers for a blockhash, then a scan
    -- returns normally and submits one settlement for each listed account, in the order of the list,
    -- whichever of them the cluster confirms.
    pub settle_rentals_each :
        (accounts : List (Pubkey × Bytes)) (w : World) (s : Session World)
        → rpc.get_program_accounts program_id
            (record { offset = 0; bytes = disc_rental_agreement ∷ [] } ∷ [])
            s.world
          ≡ (ok accounts, w)
        → (txs : List Transaction) × ((settle_rentals rpc keypair program_id s).0 ≡ ok tt)
          × ((settle_rentals rpc keypair program_id s).1.sent ≡ s.sent ++ txs)
          × SettleEach accounts txs
    unfolding settle_rentals
    settle_rentals_each accounts w s listed =
        rw listed (settle_all-SettleEach accounts (record s { world = w }))

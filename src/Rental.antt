-- ===== src/Rental.antt =====
-- src/rental.rs: the cron that settles the rental agreements of the program. The counts of
-- `settle_rentals` are only logged.
pub mod Settlement
use keeper_bot.Base.{ℕ, List, [], ◌∷◌, false, true, Bytes, Result}
use keeper_bot.Chain.{
  Pubkey, Instruction, meta, readonly_meta, Memcmp, Rpc, Session, Io, pure, attempt, ask,
  send_instruction, ◌>>=◌, ◌>>◌,
}
use keeper_bot.GameLoop.{system_program_id}

abbrev pub disc_rental_agreement : ℕ
disc_rental_agreement = 4

abbrev pub settle_rental_discriminator : ℕ
settle_rental_discriminator = 12

-- The instruction of `settle_single_rental`.
abbrev pub settle_rental_ix : Pubkey → Pubkey → Pubkey → Instruction
settle_rental_ix keypair program_id rental_pda = record {
  program_id = program_id;
  accounts = meta keypair true ∷ meta rental_pda false ∷ readonly_meta system_program_id false ∷ [];
  payload = settle_rental_discriminator ∷ [];
}

module _ {World : Type 0} (rpc : Rpc World) (keypair program_id : Pubkey) where
  unfoldable pub settle_single_rental : Pubkey → Io World (Unit {0})
  unfolding send_instruction
  settle_single_rental rental_pda = do
    send_instruction rpc keypair (settle_rental_ix keypair program_id rental_pda)
    pure tt

  -- `for (rental_pda, account) in &accounts`.
  unfoldable pub settle_all : List (Pubkey × Bytes) → Io World (Unit {0})
  unfolding settle_single_rental
  settle_all [] = pure tt
  settle_all ((rental_pda, account) ∷ accounts) = do
    attempt (settle_single_rental rental_pda)
    settle_all accounts

  unfoldable pub settle_rentals : Io World (Unit {0})
  unfolding settle_all
  settle_rentals = do
    accounts ← ask (
        rpc.get_program_accounts program_id
          (record { offset = 0; bytes = disc_rental_agreement ∷ [] } ∷ []))
    settle_all accounts

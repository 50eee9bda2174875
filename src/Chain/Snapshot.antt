-- ===== src/Chain/Snapshot.antt =====
-- A cluster that does not change while the keeper looks at it, and confirms what it is sent.
use keeper_bot.Base.{ℕ, Option, List, Bytes, ok, ok_or}
use keeper_bot.Chain.{Pubkey, Rpc}

pub record Snapshot : Type 0 where
  pub account : Pubkey → Option Bytes
  pub program_accounts : List (Pubkey × Bytes)
  pub slot : ℕ
  pub blockhash : Bytes

-- The client of a snapshot.
abbrev pub still : Snapshot → Rpc Unit
still c = record {
  get_account = λ pk w. (ok_or (c.account pk) "account not found", w);
  get_account_with_commitment = λ pk w. (ok (c.account pk), w);
  get_program_accounts = λ pk filters w. (ok c.program_accounts, w);
  get_slot = λ w. (ok c.slot, w);
  get_latest_blockhash = λ w. (ok c.blockhash, w);
  send_and_confirm_transaction = λ tx w. (ok "signature", w);
}

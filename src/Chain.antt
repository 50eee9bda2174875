-- ===== src/Chain.antt =====
-- What the keeper uses of the Solana crates: the RPC client, addresses and transactions. None of
-- it is in the repository, so it is a parameter. A session is the state of the cluster as the
-- client meets it, in which other clients act too, with the transactions that the keeper has
-- submitted so far.
pub mod Snapshot
pub mod Submits
use keeper_bot.Base.{ℕ, String, Bool, Option, List, [], ◌∷◌, ◌++◌, Bytes, Result, ok, err}

abbrev pub Pubkey : Type 0
Pubkey = Bytes

pub record AccountMeta : Type 0 where
  pub pubkey : Pubkey
  pub is_signer : Bool
  pub is_writable : Bool

-- `AccountMeta::new` and `AccountMeta::new_readonly`.
abbrev pub meta : Pubkey → Bool → AccountMeta
meta pubkey is_signer = record { pubkey = pubkey; is_signer = is_signer; is_writable = Bool.true }

abbrev pub readonly_meta : Pubkey → Bool → AccountMeta
readonly_meta pubkey is_signer = record {
  pubkey = pubkey;
  is_signer = is_signer;
  is_writable = Bool.false;
}

pub record Instruction : Type 0 where
  pub program_id : Pubkey
  pub accounts : List AccountMeta
  pub payload : Bytes

-- `Transaction::new_signed_with_payer(&[ix], Some(&payer), &[keypair], recent_blockhash)`.
pub record Transaction : Type 0 where
  pub instructions : List Instruction
  pub payer : Pubkey
  pub recent_blockhash : Bytes

-- `RpcFilterType::Memcmp`.
pub record Memcmp : Type 0 where
  pub offset : ℕ
  pub bytes : Bytes

abbrev pub Signature : Type 0
Signature = String

-- `get_account` answers a missing account with an error, `get_account_with_commitment` with none.
pub record Rpc (World : Type 0) : Type 0 where
  pub get_account : Pubkey → World → Result Bytes × World
  pub get_account_with_commitment : Pubkey → World → Result (Option Bytes) × World
  pub get_program_accounts : Pubkey → List Memcmp → World → Result (List (Pubkey × Bytes)) × World
  pub get_slot : World → Result ℕ × World
  pub get_latest_blockhash : World → Result Bytes × World
  pub send_and_confirm_transaction : Transaction → World → Result Signature × World

-- `Pubkey::find_program_address(..).0`, `Pubkey::from_str` and `to_string`.
pub record Sdk : Type 0 where
  pub find_program_address : List Bytes → Pubkey → Pubkey
  pub from_str : String → Option Pubkey
  pub to_string : Pubkey → String

pub record Session (World : Type 0) : Type 0 where
  pub world : World
  pub sent : List Transaction

-- A call that may fail, `Result<A, Box<dyn Error>>`, with its effect on the session.
abbrev pub Io : Type 0 → Type 0 → Type 0
Io World A = Session World → Result A × Session World

module _ {World A : Type 0} where
  abbrev pub pure : A → Io World A
  pure a s = (ok a, s)

  abbrev pub lift : Result A → Io World A
  lift r s = (r, s)

  -- A `match` on the result of a call: an error is a value here.
  abbrev pub attempt : Io World A → Io World (Result A)
  attempt m s = let (r, s') = m s in (ok r, s')

  -- A call of the client that submits nothing.
  abbrev pub ask : (World → Result A × World) → Io World A
  ask call s = let (r, w) = call s.world in (r, record s { world = w })

module _ {World A B : Type 0} where
  abbrev pub continue : Result A → (A → Io World B) → Io World B
  continue (ok a) f s = f a s
  continue (err e) f s = (err e, s)

  infixl 5 ◌>>=◌ ◌>>◌
  abbrev pub ◌>>=◌ : Io World A → (A → Io World B) → Io World B
  ◌>>=◌ m f s = let (r, s') = m s in continue r f s'

  abbrev pub ◌>>◌ : Io World A → Io World B → Io World B
  m >> n = m >>= λ _. n

module _ {World : Type 0} (rpc : Rpc World) where
  -- A submission is in the log whether the cluster confirms it or not.
  unfoldable pub submit : Transaction → Io World Signature
  submit tx s =
      let (r, w) = rpc.send_and_confirm_transaction tx s.world in
      (r, record { world = w; sent = s.sent ++ tx ∷ [] })

  -- The three lines that every sender of the keeper has: a recent blockhash, one signed
  -- instruction, and `send_and_confirm_transaction`.
  unfoldable pub send_instruction : Pubkey → Instruction → Io World Signature
  unfolding submit
  send_instruction keypair instruction = do
    recent_blockhash ← ask rpc.get_latest_blockhash
    submit (record {
      instructions = instruction ∷ [];
      payer = keypair;
      recent_blockhash = recent_blockhash;
    })

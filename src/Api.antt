-- ===== src/Api.antt =====
-- src/api.rs: the handlers of POST /sign-receipt and POST /bootstrap-award. A handler is a function
-- of the wall clock in seconds; signatures and base58 come from crates and are parameters. The i64
-- differences wrap as in a release build.
pub mod Freshness
pub mod Receipts
pub mod Awards
pub mod RewardzProof
use mathlib.Core.Option
use keeper_bot.Base.{
  ℕ, zero, suc, ◌+◌, ◌-◌, ◌/◌, ◌%◌, ◌^◌, ℤ, pos, negsuc, ◌+ℤ◌, ◌-ℤ◌, ltb_ℤ, as_u64, as_i64, Bool,
  true, false, not, ◌||◌, Option, none, some, List, [], ◌∷◌, ◌++◌, ◌==◌, ltb, leb, if◌then◌else◌,
  length, take, drop, Bytes, from_le_bytes, codes, utf8, String, str_eq, Result, ok, err,
}
use keeper_bot.Chain.{Pubkey, Rpc, Sdk, Session, Io, pure, attempt, ask, ◌>>=◌, ◌>>◌}
use keeper_bot.Tables.{Tables, UserRow, BalanceRow}
use keeper_bot.Db.{Pg, run_sql, get_user_total_points}

-- What the file uses of the signature and base58 crates. `verify` and `sign_message` take the bytes
-- of a message, `decode` is `bs58::decode(..).into_vec()`.
pub record Wallets : Type 0 where
  pub decode : String → Option Bytes
  pub encode : Bytes → String
  pub verify : Bytes → Pubkey → Bytes → Bool
  pub sign_message : Bytes → Bytes

pub record AppState : Type 0 where
  pub program_id : Pubkey
  pub points_request_ttl_seconds : ℤ
  pub points_receipt_ttl_seconds : ℤ

pub record SignReceiptRequest : Type 0 where
  pub authority : String
  pub points_claim : ℕ
  pub root : String
  pub timestamp : ℤ
  pub signature : String

pub record Receipt : Type 0 where
  pub prev_total : ℕ
  pub new_total : ℕ
  pub epoch : ℕ
  pub nonce : ℕ
  pub expiry : ℤ
  pub signature : String

pub record BootstrapAwardRequest : Type 0 where
  pub authority : String
  pub timestamp : ℤ
  pub signature : String

-- `Result<Json<A>, (StatusCode, Json<ErrorResponse>)>`.
pub data Response (A : Type 0) : Type 0 where
  json : A → Response A
  error : ℕ → String → Response A

-- An `i64` after an operation that wraps.
unfoldable pub wrap_i64 : ℤ → ℤ
wrap_i64 (pos n) = as_i64 (n % 2 ^ 64)
wrap_i64 (negsuc n) = as_i64 (2 ^ 64 - 1 - n % 2 ^ 64)

-- `abs` of an `i64`, which leaves the least one as it is.
unfoldable pub abs_i64 : ℤ → ℤ
abs_i64 (pos n) = pos n
abs_i64 (negsuc n) = if n == 2 ^ 63 - 1 then negsuc n else pos (suc n)

-- `(now - timestamp).abs() > ttl`.
unfoldable pub is_expired : ℤ → ℤ → ℤ → Bool
unfolding ◌-ℤ◌ wrap_i64 abs_i64
is_expired now timestamp ttl = ltb_ℤ ttl (abs_i64 (wrap_i64 (now -ℤ timestamp)))

-- The decimal digits of a number, at most as many as the fuel.
unfoldable pub digits : ℕ → ℕ → Bytes
digits zero n = []
digits (suc fuel) n =
    let high = digits fuel (n / 10) in
    if ltb n 10 then (48 + n) ∷ [] else high ++ (48 + n % 10) ∷ []

-- A `u64` and an `i64` as text have at most 20 digits.
abbrev pub show_u64 : ℕ → Bytes
show_u64 n = digits 20 n

abbrev pub show_i64 : ℤ → Bytes
show_i64 (pos n) = show_u64 n
show_i64 (negsuc n) = 45 ∷ show_u64 (suc n)

-- The parts of a message, with a colon before each.
abbrev pub fields : List Bytes → Bytes
fields [] = []
fields (field ∷ rest) = 58 ∷ field ++ fields rest

abbrev pub receipt_request_message : SignReceiptRequest → Bytes
receipt_request_message req =
    codes "rewardz:points-receipt:v1"
    ++ fields (
        utf8 req.authority
        ∷ utf8 req.root
        ∷ show_u64 req.points_claim
        ∷ show_i64 req.timestamp
        ∷ [])

abbrev pub receipt_message : String → ℕ → ℕ → ℕ → ℤ → Bytes
receipt_message authority prev_total new_total nonce expiry =
    codes "rewardz:receipt:v1"
    ++ fields (
        utf8 authority
        ∷ show_u64 prev_total
        ∷ show_u64 new_total
        ∷ show_u64 nonce
        ∷ show_i64 expiry
        ∷ [])

abbrev pub award_message : BootstrapAwardRequest → Bytes
award_message req =
    codes "rewardz:points-bootstrap-award:v1"
    ++ fields (utf8 req.authority ∷ show_i64 req.timestamp ∷ [])

abbrev pub bootstrap_amount : ℤ
bootstrap_amount = pos 100

-- Steps 5 and 6 of `bootstrap_award`: `false` is the rollback, when the user exists.
unfoldable pub has_user : String → List UserRow → Bool
has_user wallet [] = false
has_user wallet (u ∷ us) = str_eq u.wallet_address wallet || has_user wallet us

unfoldable pub has_balance : String → List BalanceRow → Bool
has_balance wallet [] = false
has_balance wallet (b ∷ bs) = str_eq b.wallet_address wallet || has_balance wallet bs

unfoldable pub award_statement : String → Tables → Result (Bool × Tables)
unfolding has_user has_balance
award_statement wallet t =
    let user : UserRow = record { wallet_address = wallet; total_points = bootstrap_amount } in
    let balance : BalanceRow = record {
      wallet_address = wallet;
      total_earned = bootstrap_amount;
      total_pending = pos 0;
      total_spent = pos 0;
      total_reserved = pos 0;
    } in
    let balances =
      if has_balance wallet t.user_balances
      then t.user_balances
      else t.user_balances ++ balance ∷ [] in
    if has_user wallet t.users
    then ok (false, t)
    else ok (true, record t { users = t.users ++ user ∷ []; user_balances = balances })

-- The `match` of `fetch_current_epoch` on the account.
abbrev pub epoch_in : Result Bytes → Option ℕ
epoch_in (ok account) =
    if leb 74 (length account) then some (from_le_bytes (take 8 (drop 66 account))) else none
epoch_in (err e) = none

module _ (sdk : Sdk) (wallets : Wallets) where
  open sdk use {find_program_address, from_str}

  -- Steps 1 and 2 of both handlers: the refusal, if there is one, or the authority. A signature has
  -- 64 bytes.
  unfoldable pub check_signature : String → String → Bytes → Response Pubkey
  check_signature authority signature message = elim (from_str authority) [
    | none ↦ error 400 "Invalid authority pubkey"
    | some pk ↦ elim (wallets.decode signature) [
      | none ↦ error 400 "Invalid signature encoding"
      | some sig ↦
          if not (length sig == 64)
          then error 400 "Invalid signature"
          else if not (wallets.verify sig pk message)
          then error 401 "Invalid wallet signature"
          else json pk
    ]
  ]

  module _ {World : Type 0} (rpc : Rpc World) (pg : Pg World) (state : AppState) where
    unfoldable pub fetch_current_epoch : Io World (Option ℕ)
    fetch_current_epoch = do
      answer ←
          attempt (
            ask (rpc.get_account (find_program_address (codes "point_root" ∷ []) state.program_id)))
      pure (epoch_in answer)

    abbrev pub receipt_of : SignReceiptRequest → ℤ → ℕ → Option ℕ → Receipt
    receipt_of req now latest epoch =
        let expiry = wrap_i64 (now +ℤ state.points_receipt_ttl_seconds) in
        record {
          prev_total = req.points_claim;
          new_total = latest;
          epoch = elim epoch [ some e ↦ e | none ↦ 0 ];
          nonce = as_u64 now;
          expiry = expiry;
          signature = wallets.encode (
              wallets.sign_message
                (receipt_message req.authority req.points_claim latest (as_u64 now) expiry));
        }

    -- Step 5 of `sign_receipt`.
    unfoldable pub answer_claim : SignReceiptRequest → ℤ → ℕ → Io World (Response (Option Receipt))
    answer_claim req now latest =
        if latest == req.points_claim
        then pure (json none)
        else if ltb latest req.points_claim
        then pure (error 409 "Stale DB: claimed points exceed current total")
        else (do epoch ← fetch_current_epoch; pure (json (some (receipt_of req now latest epoch))))

    -- Step 4: the total in the database, 0 where the user has no row.
    unfoldable pub answer_total :
        SignReceiptRequest → ℤ → Result (Option ℤ) → Io World (Response (Option Receipt))
    answer_total req now (ok (some total)) = answer_claim req now (as_u64 total)
    answer_total req now (ok none) = answer_claim req now 0
    answer_total req now (err e) = pure (error 500 "Database error")

    -- Step 4, where steps 1 to 3 refuse nothing.
    unfoldable pub receipt_checked :
        SignReceiptRequest → ℤ → Response Pubkey → Bool → Io World (Response (Option Receipt))
    receipt_checked req now (error status message) expired = pure (error status message)
    receipt_checked req now (json authority) true = pure (error 400 "Request timestamp expired")
    receipt_checked req now (json authority) false = do
      total ← attempt (run_sql pg (get_user_total_points req.authority))
      answer_total req now total

    unfoldable pub sign_receipt : SignReceiptRequest → ℤ → Io World (Response (Option Receipt))
    sign_receipt req now =
        receipt_checked req now
          (check_signature req.authority req.signature (receipt_request_message req))
          (is_expired now req.timestamp state.points_request_ttl_seconds)

    -- The transaction of `bootstrap_award`, and its answer.
    unfoldable pub answer_award : Result Bool → Response String
    answer_award (ok true) = json "Awarded 100 bootstrap points"
    answer_award (ok false) =
        error 409 "User already exists (bootstrap already applied or has points)"
    answer_award (err e) = error 500 "Database error"

    -- Step 4 of `bootstrap_award`: `is_ok()` of the read of the account.
    unfoldable pub award_unless_staked :
        BootstrapAwardRequest → Result Bytes → Io World (Response String)
    award_unless_staked req (ok account) =
        pure (error 409 "Already bootstrapped: UserStake account exists")
    award_unless_staked req (err e) = do
      applied ← attempt (run_sql pg (award_statement req.authority))
      pure (answer_award applied)

    -- Step 4, where steps 1 to 3 refuse nothing.
    unfoldable pub award_checked :
        BootstrapAwardRequest → Response Pubkey → Bool → Io World (Response String)
    award_checked req (error status message) expired = pure (error status message)
    award_checked req (json authority) true = pure (error 400 "Request timestamp expired")
    award_checked req (json authority) false = do
      staked ← attempt (
          ask (
            rpc.get_account
              (find_program_address (codes "user_stake" ∷ authority ∷ []) state.program_id)))
      award_unless_staked req staked

    unfoldable pub bootstrap_award : BootstrapAwardRequest → ℤ → Io World (Response String)
    bootstrap_award req now =
        award_checked req (check_signature req.authority req.signature (award_message req))
          (is_expired now req.timestamp state.points_request_ttl_seconds)

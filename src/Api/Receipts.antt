-- ===== src/Api/Receipts.antt =====
-- src/api.rs, `sign_receipt`: what a signed receipt says.
use keeper_bot.Base.{
  ℕ, ◌<◌, ◌≡◌, refl, sym, ap, ◌∙◌, ◌≢◌, inl, inr, ℤ, pos, negsuc, ◌+◌, ◌-◌, ◌^◌, Bool, true, false,
  Option, none, some, Bytes, length, String, ok, err, arith, Option-cases,
}
use keeper_bot.Chain.{Pubkey, Rpc, Sdk, Session}
use keeper_bot.Db.{Pg, run_sql, get_user_total_points}
use keeper_bot.Db.Statements.{LawfulPg, run_sql-tables}
use keeper_bot.Api.{
  Wallets, AppState, SignReceiptRequest, Receipt, Response, json, error, is_expired,
  receipt_request_message, check_signature, fetch_current_epoch, answer_claim, answer_total,
  receipt_checked, sign_receipt,
}

-- What a total of the database counts as: 0 where the wallet has no row, and 2^64 - k for a stored
-- -k.
abbrev pub CountsAs : Option ℤ → ℕ → Type 0
CountsAs none n = n ≡ 0
CountsAs (some (pos m)) n = n ≡ m
CountsAs (some (negsuc m)) n = n ≡ 2 ^ 64 - (m + 1)

-- A signature of 64 bytes under a parsed authority was verified.
abbrev pub IsSigned : Sdk → Wallets → String → String → Bytes → Type 0
IsSigned sdk wallets authority signature message =
    (pk : Pubkey) × (sig : Bytes) × (sdk.from_str authority ≡ some pk)
    × (wallets.decode signature ≡ some sig)
    × (length sig ≡ 64)
    × (wallets.verify sig pk message ≡ true)

check_signature-IsSigned :
    (sdk : Sdk) (wallets : Wallets) (authority signature : String) (message : Bytes) (pk : Pubkey)
    → check_signature sdk wallets authority signature message ≡ json pk
    → IsSigned sdk wallets authority signature message
unfolding check_signature
check_signature-IsSigned sdk wallets authority signature message pk e =
    elim (Option-cases (sdk.from_str authority)) [
      | inl bad ↦ absurd (ground (arith, e))
      | inr (key, parsed) ↦ elim (Option-cases (wallets.decode signature)) [
        | inl bad ↦ absurd (ground (arith, e))
        | inr (sig, decoded) ↦ (key, sig, parsed, decoded, ground (arith, e), ground (arith, e))
      ]
    ]

module _ {World : Type 0} (sdk : Sdk) (wallets : Wallets) (rpc : Rpc World) (pg : Pg World)
    (state : AppState) where
  fetch_current_epoch_total :
      (s : Session World)
      → (epoch : Option ℕ) × ((fetch_current_epoch sdk wallets rpc pg state s).0 ≡ ok epoch)
  unfolding fetch_current_epoch
  fetch_current_epoch_total s = (_, refl)

  answer_claim_grows :
      (req : SignReceiptRequest) (now : ℤ) (latest : ℕ) (s : Session World) (r : Receipt)
      → (answer_claim sdk wallets rpc pg state req now latest s).0 ≡ ok (json (some r))
      → (r.prev_total ≡ req.points_claim) × (r.new_total ≡ latest) × (req.points_claim < latest)
  unfolding answer_claim
  answer_claim_grows req now latest s r e =
      let (epoch, fetched) = fetch_current_epoch_total s in
      (ground (arith, e, fetched), ground (arith, e, fetched), ground (arith, e, fetched))

  answer_total_grows :
      (req : SignReceiptRequest) (now : ℤ) (total : Option ℤ) (s : Session World) (r : Receipt)
      → (answer_total sdk wallets rpc pg state req now (ok total) s).0 ≡ ok (json (some r))
      → (r.prev_total ≡ req.points_claim)
        × CountsAs total r.new_total
        × (req.points_claim < r.new_total)
  unfolding answer_total
  answer_total_grows req now (some (pos m)) s r e =
      let (prev, new, grows) = answer_claim_grows req now m s r e in
      (prev, new, omega (arith, new, grows))
  answer_total_grows req now (some (negsuc m)) s r e =
      let (prev, new, grows) = answer_claim_grows req now (2 ^ 64 - 1 - m) s r e in
      (prev, omega (arith, new), omega (arith, new, grows))
  answer_total_grows req now none s r e =
      let (prev, new, grows) = answer_claim_grows req now 0 s r e in
      (prev, new, omega (arith, new, grows))

  answer_total_refuses :
      (req : SignReceiptRequest) (now : ℤ) (message : String) (s : Session World) (r : Receipt)
      → (answer_total sdk wallets rpc pg state req now (err message) s).0 ≢ ok (json (some r))
  unfolding answer_total
  answer_total_refuses req now message s r e = absurd (ground (arith, e))

  -- The request was not refused in steps 1 to 3, and the receipt grows to the stored total.
  receipt_checked_grows :
      LawfulPg pg
      → (req : SignReceiptRequest) (now : ℤ) (checked : Response Pubkey) (expired : Bool)
        (s : Session World) (r : Receipt)
      → (receipt_checked sdk wallets rpc pg state req now checked expired s).0 ≡ ok (json (some r))
      → ((pk : Pubkey) × (checked ≡ json pk))
        × (expired ≡ false)
        × (r.prev_total ≡ req.points_claim)
        × (req.points_claim < r.new_total)
        × (total : Option ℤ) × (get_user_total_points req.authority (pg.tables s.world)
            ≡ ok (total, pg.tables s.world))
        × CountsAs total r.new_total
  unfolding receipt_checked get_user_total_points
  receipt_checked_grows law req now (error status message) expired s r e =
      absurd (ground (arith, e))
  receipt_checked_grows law req now (json pk) true s r e = absurd (ground (arith, e))
  receipt_checked_grows law req now (json pk) false s r e =
      let (result, s') = run_sql pg (get_user_total_points req.authority) s in
      elim (run_sql-tables pg law (get_user_total_points req.authority) s) [
        | inl (_, (message, failed)) ↦ absurd (
            answer_total_refuses req now message s' r
              (ap (λ a. (answer_total sdk wallets rpc pg state req now a s').0) (sym failed) ∙ e))
        | inr (total, t, ran, _, answered) ↦
            let (prev, new, grows) = answer_total_grows req now total s' r (
              ap (λ a. (answer_total sdk wallets rpc pg state req now a s').0) (sym answered)
              ∙ e) in
            let unchanged : t ≡ pg.tables s.world = ground (arith, ran) in
            ((pk, refl), refl, prev, grows, total, ran ∙ ap (λ u. ok (total, u)) unchanged, new)
      ]

  -- A receipt is signed only for a request whose signature verifies and which is fresh; it goes from
  -- the claimed total to a greater one, which is what the total in the database counts as: a total that
  -- is not negative as itself, no row as 0, and a stored -k as 2^64 - k.
  pub sign_receipt_sound :
      LawfulPg pg
      → (req : SignReceiptRequest) (now : ℤ) (s : Session World) (r : Receipt)
      → (sign_receipt sdk wallets rpc pg state req now s).0 ≡ ok (json (some r))
      → IsSigned sdk wallets req.authority req.signature (receipt_request_message req)
        × (is_expired now req.timestamp state.points_request_ttl_seconds ≡ false)
        × (r.prev_total ≡ req.points_claim)
        × (r.prev_total < r.new_total)
        × (total : Option ℤ) × (get_user_total_points req.authority (pg.tables s.world)
            ≡ ok (total, pg.tables s.world))
        × CountsAs total r.new_total
  unfolding sign_receipt
  sign_receipt_sound law req now s r e =
      let ((pk, checked), fresh, prev, grows, total, stored, counts) =
        receipt_checked_grows law req now
          (check_signature sdk wallets req.authority req.signature (receipt_request_message req))
          (is_expired now req.timestamp state.points_request_ttl_seconds) s r e in
      (
        check_signature-IsSigned sdk wallets req.authority req.signature
            (receipt_request_message req) pk checked,
        fresh,
        prev,
        omega (arith, prev, grows),
        total,
        stored,
        counts,
      )

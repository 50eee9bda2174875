-- ===== src/Api/Awards.antt =====
-- src/api.rs, `bootstrap_award`: the tables before and after an award.
use mathlib.Core.Path.{subst}
use keeper_bot.Base.{
  ℕ, ◌≡◌, refl, sym, ap, ◌∙◌, ◌⊎◌, inl, inr, ℤ, Bool, true, false, List, [], ◌∷◌, ◌++◌, Bytes,
  codes, String, str_eq_iff, Result, ok, err, arith, Bool-cases,
}
use keeper_bot.Chain.{Pubkey, Rpc, Sdk, Session}
use keeper_bot.Tables.{Tables, UserRow}
use keeper_bot.Db.{Pg}
use keeper_bot.Db.Statements.{LawfulPg, run_sql-tables}
use keeper_bot.Api.{
  Wallets, AppState, BootstrapAwardRequest, Response, json, error, is_expired, has_user,
  award_statement, bootstrap_amount, answer_award, award_unless_staked, award_checked,
  bootstrap_award,
}

has_user-append :
    (wallet : String) (us : List UserRow) (u : UserRow)
    → u.wallet_address ≡ wallet
    → has_user wallet (us ++ u ∷ []) ≡ true
unfolding has_user
has_user-append wallet [] u e = ground (arith, str_eq_iff u.wallet_address wallet)
has_user-append wallet (v ∷ us) u e = ground (arith, has_user-append wallet us u e)

award_statement-cases :
    (wallet : String) (t t' : Tables) (awarded : Bool)
    → award_statement wallet t ≡ ok (awarded, t')
    → ((awarded ≡ true) × (has_user wallet t.users ≡ false) × (has_user wallet t'.users ≡ true))
      ⊎ ((awarded ≡ false) × (t' ≡ t))
unfolding award_statement
award_statement-cases wallet t t' awarded e = elim (Bool-cases (has_user wallet t.users)) [
  | inl known ↦ inr (ground (arith, known), ground (arith, known))
  | inr new ↦ inl (
    ground (arith, new),
    new,
    ground (
      arith,
      new,
      has_user-append wallet t.users
          (record { wallet_address = wallet; total_points = bootstrap_amount }) refl,
    ),
  )
]

has_user-more :
    (wallet : String) (us vs : List UserRow)
    → has_user wallet us ≡ true
    → has_user wallet (us ++ vs) ≡ true
unfolding has_user
has_user-more wallet [] vs known = absurd (ground (arith, known))
has_user-more wallet (u ∷ us) vs known = ground (arith, known, has_user-more wallet us vs)

award_statement-has_user :
    (wallet other : String) (t t' : Tables) (awarded : Bool)
    → has_user wallet t.users ≡ true
    → award_statement other t ≡ ok (awarded, t')
    → has_user wallet t'.users ≡ true
unfolding award_statement
award_statement-has_user wallet other t t' awarded known e =
    elim (Bool-cases (has_user other t.users)) [
      | inl present ↦ ground (arith, present, known)
      | inr new ↦
          let user : UserRow = record { wallet_address = other; total_points = bootstrap_amount } in
          ground (arith, new, has_user-more wallet t.users (user ∷ []) known)
    ]

module _ {World : Type 0} (sdk : Sdk) (wallets : Wallets) (rpc : Rpc World) (pg : Pg World)
    (state : AppState) where
  -- Either the tables are as they were and the answer is a refusal, or the wallet had no row, is
  -- awarded, and the answer says so.
  abbrev pub AwardOutcome : String → Tables → Result (Response String) × Session World → Type 0
  AwardOutcome wallet t a =
      ((pg.tables a.1.world ≡ t)
        × ((status : ℕ) × (message : String) × (a.0 ≡ ok (error status message))))
      ⊎ ((a.0 ≡ ok (json "Awarded 100 bootstrap points"))
          × (has_user wallet t.users ≡ false)
          × (award_statement wallet t ≡ ok (true, pg.tables a.1.world)))

  award_unless_staked-AwardOutcome :
      LawfulPg pg
      → (req : BootstrapAwardRequest) (staked : Result Bytes) (s : Session World)
      → AwardOutcome req.authority
          (pg.tables s.world)
          (award_unless_staked sdk wallets rpc pg state req staked s)
  unfolding award_unless_staked answer_award
  award_unless_staked-AwardOutcome law req (ok account) s = inl (refl, (409, _, refl))
  award_unless_staked-AwardOutcome law req (err e) s =
      elim (run_sql-tables pg law (award_statement req.authority) s) [
        | inl (same, (e', failed)) ↦
            inl (same, (500, "Database error", ap (λ r. ok (answered r)) failed))
        | inr (awarded, t, ran, moved, result) ↦
            elim (award_statement-cases req.authority (pg.tables s.world) t awarded ran) [
              | inl (yes_awarded, new, _) ↦ inr (
                ap (λ r. ok (answered r)) (result ∙ ap ok yes_awarded),
                new,
                ran ∙ ap ok (ap (λ a. (a, t)) yes_awarded ∙ ap (λ u. (true, u)) (sym moved)),
              )
              | inr (no_award, same) ↦
                  inl (moved ∙ same, (409, _, ap (λ r. ok (answered r)) (result ∙ ap ok no_award)))
            ]
      ]
    where
      answered : Result Bool → Response String
      answered = answer_award sdk wallets rpc pg state

  -- The client of the cluster does not touch the database.
  abbrev pub SeparateAccounts : Type 0
  SeparateAccounts = (pk : Pubkey) (w : World) → pg.tables (rpc.get_account pk w).1 ≡ pg.tables w

  award_checked-AwardOutcome :
      LawfulPg pg
      → SeparateAccounts
      → (req : BootstrapAwardRequest) (r : Response Pubkey) (expired : Bool) (s : Session World)
      → AwardOutcome req.authority
          (pg.tables s.world)
          (award_checked sdk wallets rpc pg state req r expired s)
  unfolding award_checked
  award_checked-AwardOutcome law apart req (error status message) expired s =
      inl (refl, (status, message, refl))
  award_checked-AwardOutcome law apart req (json authority) true s = inl (refl, (400, _, refl))
  award_checked-AwardOutcome law apart req (json authority) false s =
      let pda = sdk.find_program_address (codes "user_stake" ∷ authority ∷ []) state.program_id in
      let (staked, w) = rpc.get_account pda s.world in
      subst
        (λ t.
          AwardOutcome req.authority t
            (award_unless_staked sdk wallets rpc pg state req staked (record s { world = w })))
        (apart pda s.world)
        (award_unless_staked-AwardOutcome law req staked (record s { world = w }))

  -- Whatever the request, the clock and the cluster: either the tables are as they were and the
  -- answer of `bootstrap_award` is a refusal, or the wallet had no row, and the tables are those in
  -- which it is awarded.
  pub bootstrap_award-AwardOutcome :
      LawfulPg pg
      → SeparateAccounts
      → (req : BootstrapAwardRequest) (now : ℤ) (s : Session World)
      → AwardOutcome req.authority
          (pg.tables s.world)
          (bootstrap_award sdk wallets rpc pg state req now s)
  unfolding bootstrap_award
  bootstrap_award-AwardOutcome law apart req now s =
      award_checked-AwardOutcome law apart req _
        (is_expired now req.timestamp state.points_request_ttl_seconds) s

  -- A row of a wallet stays, whoever asks for an award.
  bootstrap_award-has_user :
      LawfulPg pg
      → SeparateAccounts
      → (wallet : String) (req : BootstrapAwardRequest) (now : ℤ) (s : Session World)
      → has_user wallet (pg.tables s.world).users ≡ true
      → has_user wallet
          (pg.tables (bootstrap_award sdk wallets rpc pg state req now s).1.world).users
        ≡ true
  bootstrap_award-has_user law apart wallet req now s known =
      elim (bootstrap_award-AwardOutcome law apart req now s) [
        | inl (same, _) ↦ ap (λ t. has_user wallet t.users) same ∙ known
        | inr (_, _, ran) ↦
            award_statement-has_user wallet req.authority (pg.tables s.world) _ true known ran
      ]

  -- The session after a list of requests for an award, each with the clock at its time.
  abbrev pub after_awards : List (BootstrapAwardRequest × ℤ) → Session World → Session World
  after_awards [] s = s
  after_awards ((req, now) ∷ rest) s =
      after_awards rest (bootstrap_award sdk wallets rpc pg state req now s).1

  after_awards-has_user :
      LawfulPg pg
      → SeparateAccounts
      → (wallet : String) (reqs : List (BootstrapAwardRequest × ℤ)) (s : Session World)
      → has_user wallet (pg.tables s.world).users ≡ true
      → has_user wallet (pg.tables (after_awards reqs s).world).users ≡ true
  after_awards-has_user law apart wallet [] s known = known
  after_awards-has_user law apart wallet ((req, now) ∷ rest) s known =
      after_awards-has_user law apart wallet rest _
        (bootstrap_award-has_user law apart wallet req now s known)

  awarded-has_user :
      LawfulPg pg
      → SeparateAccounts
      → (req : BootstrapAwardRequest) (now : ℤ) (answer : String) (s : Session World)
      → (bootstrap_award sdk wallets rpc pg state req now s).0 ≡ ok (json answer)
      → has_user req.authority
          (pg.tables (bootstrap_award sdk wallets rpc pg state req now s).1.world).users
        ≡ true
  awarded-has_user law apart req now answer s awarded =
      elim (bootstrap_award-AwardOutcome law apart req now s) [
        | inl (_, (status, message, refused)) ↦ absurd (ground (arith, awarded, refused))
        | inr (_, _, ran) ↦
            elim (award_statement-cases req.authority (pg.tables s.world) _ true ran) [
              | inr (contradiction, _) ↦ absurd (ground (arith, contradiction))
              | inl (_, _, known) ↦ known
            ]
      ]

  -- A wallet that was awarded is never awarded again: after any further requests for awards, of any
  -- wallets, a request for it is refused and leaves the tables as they are.
  pub bootstrap_award_once :
      LawfulPg pg
      → SeparateAccounts
      → (req req' : BootstrapAwardRequest) (now now' : ℤ) (answer : String)
        (between : List (BootstrapAwardRequest × ℤ)) (s : Session World)
      → (bootstrap_award sdk wallets rpc pg state req now s).0 ≡ ok (json answer)
      → req'.authority ≡ req.authority
      → let later = after_awards between (bootstrap_award sdk wallets rpc pg state req now s).1 in
        (pg.tables (bootstrap_award sdk wallets rpc pg state req' now' later).1.world
          ≡ pg.tables later.world)
        × ((status : ℕ) × (message : String) × ((bootstrap_award sdk wallets rpc pg state req' now'
                later).0
              ≡ ok (error status message)))
  bootstrap_award_once law apart req req' now now' answer between s awarded same =
      let first : Session World = (bootstrap_award sdk wallets rpc pg state req now s).1 in
      let later : Session World = after_awards between first in
      let known =
        after_awards-has_user law apart req.authority between first
          (awarded-has_user law apart req now answer s awarded) in
      elim (bootstrap_award-AwardOutcome law apart req' now' later) [
        | inl refused ↦ refused
        | inr (_, new, _) ↦
            let unknown =
              ap (λ wallet. has_user wallet (pg.tables later.world).users) (sym same) ∙ new in
            absurd (ground (arith, known, unknown))
      ]

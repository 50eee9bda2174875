-- ===== src/RewardzPublisher/Guards.antt =====
-- src/rewardz_publisher.rs: the dry run and the cap.
use mathlib.Core.Path.{fun_ext, subst}
use keeper_bot.Base.{
  sym, zero, suc, ℤ, pos, negsuc, Option, some, IsI64, ℕ, ◌+◌, ◌*◌, ◌<◌, ◌≤◌, ◌^◌, ◌≡◌, refl, ap,
  true, none, List, [], ◌∷◌, Bytes, length, All, ok, err, arith,
}
use keeper_bot.Merkle.{Entry}
use keeper_bot.Chain.{Pubkey, Rpc, Sdk, Session, Io, ◌>>=◌}
use keeper_bot.Chain.Submits.{Quiet, Quiet-bind}
use keeper_bot.LeagueConfig.{LeagueConfig}
use keeper_bot.Db.{Pg, run_sql, RewardzEarningsRow, select_now, get_rewardz_earnings_grouped}
use keeper_bot.Db.Statements.{LawfulPg, run_sql-Quiet, run_sql-read}
use keeper_bot.RewardzPublisher.{
  RewardzApi, RewardzEnv, is_dry_run, total_of, entries_of, publish_rows, publish_rewardz_root,
}

-- The sum of the amounts, without a bound.
abbrev pub sum_amounts : List Entry → ℕ
sum_amounts [] = 0
sum_amounts ((_, amt) ∷ es) = amt + sum_amounts es

sum_amounts_bound :
    (es : List Entry) → All (λ e. e.1 < 2 ^ 64) es → sum_amounts es ≤ length es * 2 ^ 64
sum_amounts_bound [] small = omega arith
sum_amounts_bound ((_, amt) ∷ es) (s, small) = omega (arith, sum_amounts_bound es small)

-- The u128 total of fewer than 2^64 `u64` amounts is their sum: it never wraps.
total_of_exact :
    (es : List Entry)
    → All (λ e. e.1 < 2 ^ 64) es
    → length es < 2 ^ 64
    → total_of es ≡ sum_amounts es
unfolding total_of
total_of_exact [] small few = refl
total_of_exact ((pk, amt) ∷ es) (s, small) few =
    omega (arith, total_of_exact es small (omega arith), sum_amounts_bound es small)

module _ (api : RewardzApi) (sdk : Sdk) (keccak256 : Bytes → Bytes) (env : RewardzEnv)
    {World : Type 0} (rpc : Rpc World) (pg : Pg World) (keypair program_id : Pubkey) (epoch : ℕ)
    (cfg : LeagueConfig) where
  publish_rows-dry_Quiet :
      is_dry_run env ≡ true
      → (rows : List RewardzEarningsRow) (cutoff : ℕ)
      → Quiet (publish_rows api sdk keccak256 env rpc pg keypair program_id epoch cfg rows cutoff)
  unfolding publish_rows
  publish_rows-dry_Quiet dry rows cutoff = record { at = λ s. ground arith }

  publish_rows-dry :
      is_dry_run env ≡ true
      → (rpc' : Rpc World) (rows : List RewardzEarningsRow) (cutoff : ℕ) (s : Session World)
      → publish_rows api sdk keccak256 env rpc pg keypair program_id epoch cfg rows cutoff s
        ≡ publish_rows api sdk keccak256 env rpc' pg keypair program_id epoch cfg rows cutoff s
  unfolding publish_rows
  publish_rows-dry dry rpc' rows cutoff s = ground arith

  -- In a dry run a publish submits nothing, and its result and the session after it are the same
  -- with any other client of the cluster: the cluster is not asked either.
  pub publish_rewardz_root_dry_run :
      is_dry_run env ≡ true
      → (rpc' : Rpc World) (s : Session World)
      → ((publish_rewardz_root api sdk keccak256 env rpc pg keypair program_id epoch cfg s).1.sent
          ≡ s.sent)
        × (publish_rewardz_root api sdk keccak256 env rpc pg keypair program_id epoch cfg s
            ≡ publish_rewardz_root api sdk keccak256 env rpc' pg keypair program_id epoch cfg s)
  unfolding publish_rewardz_root
  publish_rewardz_root_dry_run dry rpc' s =
      let quiet = Quiet-bind _ _ (run_sql-Quiet pg select_now) λ cutoff.
        Quiet-bind _ _ (run_sql-Quiet pg get_rewardz_earnings_grouped)
          λ rows. publish_rows-dry_Quiet dry rows cutoff in
      let same : publish_rows api sdk keccak256 env rpc pg keypair program_id epoch cfg
          ≡ publish_rows api sdk keccak256 env rpc' pg keypair program_id epoch cfg =
        fun_ext λ rows. fun_ext λ cutoff. fun_ext λ s. publish_rows-dry dry rpc' rows cutoff s in
      (
        quiet.at s,
        ap
            (λ (k : List RewardzEarningsRow → ℕ → Io World Unit).
              (run_sql pg select_now >>= λ cutoff.
              run_sql pg get_rewardz_earnings_grouped >>= λ rows. k rows cutoff)
                s)
            same,
      )

  -- What a row adds: nothing if its authority is no address or its amount is negative.
  abbrev amount_of : Option Pubkey → ℤ → ℕ
  amount_of none amount = 0
  amount_of (some pk) (pos n) = n
  amount_of (some pk) (negsuc n) = 0

  -- The sum of the amounts that can be claimed, without a bound.
  abbrev pub claimable_total : List RewardzEarningsRow → ℕ
  claimable_total [] = 0
  claimable_total (r ∷ rows) =
      amount_of (sdk.from_str r.protocol_authority) r.cumulative_amount + claimable_total rows

  -- What the entries of rows whose amounts are BIGINTs have to do with these.
  record Counted (es : List Entry) (rows : List RewardzEarningsRow) : Type 0 where
    sum : sum_amounts es ≡ claimable_total rows
    small : All (λ e. e.1 < 2 ^ 64) es
    few : length es ≤ length rows

  -- A row that adds nothing, and one that adds an entry.
  Counted-skip :
      (r : RewardzEarningsRow) (rows : List RewardzEarningsRow)
      → Counted (entries_of api sdk rows) rows
      → amount_of (sdk.from_str r.protocol_authority) r.cumulative_amount ≡ 0
      → entries_of api sdk (r ∷ rows) ≡ entries_of api sdk rows
      → Counted (entries_of api sdk (r ∷ rows)) (r ∷ rows)
  Counted-skip r rows rest nothing same =
      subst (λ es. Counted es (r ∷ rows)) (sym same)
        (record {
          sum = omega (arith, rest.sum, nothing);
          small = rest.small;
          few = omega (arith, rest.few);
        })

  Counted-more :
      (r : RewardzEarningsRow) (rows : List RewardzEarningsRow) (pk : Pubkey) (n : ℕ)
      → Counted (entries_of api sdk rows) rows
      → n < 2 ^ 64
      → amount_of (sdk.from_str r.protocol_authority) r.cumulative_amount ≡ n
      → entries_of api sdk (r ∷ rows) ≡ (pk, n) ∷ entries_of api sdk rows
      → Counted (entries_of api sdk (r ∷ rows)) (r ∷ rows)
  Counted-more r rows pk n rest fit adds same =
      subst (λ es. Counted es (r ∷ rows)) (sym same)
        (record {
          sum = omega (arith, rest.sum, adds);
          small = (fit, rest.small);
          few = omega (arith, rest.few);
        })

  entries_of-Counted :
      (rows : List RewardzEarningsRow)
      → All (λ r. IsI64 r.cumulative_amount) rows
      → Counted (entries_of api sdk rows) rows
  unfolding entries_of
  entries_of-Counted [] fits = record { sum = refl; small = tt; few = omega arith }
  entries_of-Counted (r ∷ rows) (fit, fits) =
      by_row (sdk.from_str r.protocol_authority) r.cumulative_amount refl refl fit
        (entries_of-Counted rows fits)
    where
      by_row :
          (pk : Option Pubkey) (amount : ℤ)
          → sdk.from_str r.protocol_authority ≡ pk
          → r.cumulative_amount ≡ amount
          → IsI64 amount
          → Counted (entries_of api sdk rows) rows
          → Counted (entries_of api sdk (r ∷ rows)) (r ∷ rows)
      by_row none amount parsed same fit rest =
          Counted-skip r rows rest (rw parsed refl) (ground (arith, parsed))
      by_row (some pk) (negsuc n) parsed same fit rest =
          Counted-skip r rows rest (rw (parsed, same) refl) (ground (arith, parsed, same))
      by_row (some pk) (pos zero) parsed same fit rest =
          Counted-skip r rows rest (rw (parsed, same) refl) (ground (arith, parsed, same))
      by_row (some pk) (pos (suc n)) parsed same fit rest =
          Counted-more r rows pk (suc n) rest (omega (arith, fit)) (rw (parsed, same) refl)
            (ground (arith, parsed, same))

  publish_rows-over :
      (rows : List RewardzEarningsRow) (cutoff : ℕ) (s : Session World)
      → cfg.max_rewardz_per_epoch < total_of (entries_of api sdk rows)
      → publish_rows api sdk keccak256 env rpc pg keypair program_id epoch cfg rows cutoff s
        ≡ (err "cumulative rewardz total exceeds per-epoch cap", s)
  unfolding publish_rows
  publish_rows-over rows cutoff s over = ground arith

  -- With a database that answers, and fewer than 2^64 groups, whose amounts are BIGINTs: if the sum of
  -- the amounts that can be claimed, which no arithmetic wraps, is above the cap, then the publish is
  -- an error, and neither the cluster nor the database is changed.
  pub publish_rewardz_root_over_cap :
      LawfulPg pg
      → (rows : List RewardzEarningsRow) (s : Session World) → pg.fault s.world ≡ none
      → get_rewardz_earnings_grouped (pg.tables s.world) ≡ ok (rows, pg.tables s.world)
      → All (λ r. IsI64 r.cumulative_amount) rows
      → length rows < 2 ^ 64
      → cfg.max_rewardz_per_epoch < claimable_total rows
      → publish_rewardz_root api sdk keccak256 env rpc pg keypair program_id epoch cfg s
        ≡ (err "cumulative rewardz total exceeds per-epoch cap", s)
  unfolding publish_rewardz_root select_now
  publish_rewardz_root_over_cap law rows s well grouped fits few over =
      let counted = entries_of-Counted rows fits in
      let total =
        total_of_exact (entries_of api sdk rows) counted.small (omega (arith, counted.few, few)) in
      let over_cap : cfg.max_rewardz_per_epoch < total_of (entries_of api sdk rows) =
        omega (arith, total, counted.sum, over) in
      rw
        (
          run_sql-read pg law select_now (pg.tables s.world).now s well refl,
          run_sql-read pg law get_rewardz_earnings_grouped rows s well grouped,
        )
        (publish_rows-over rows _ s over_cap)

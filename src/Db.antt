-- ===== src/Db.antt =====
-- src/db.rs: the SQL helpers. Each is a function of the tables, run in one transaction: it is
-- applied whole, or it fails and leaves the tables as they were.
pub mod Invariants
pub mod Ledger
pub mod Proofs
pub mod Rows
pub mod Statements
use keeper_bot.Base.{
  ℕ, ◌+◌, ◌^◌, ℤ, pos, negsuc, ◌+ℤ◌, ltb_ℤ, leb_ℤ, ◌≡◌, Bool, true, false, ◌&&◌, ◌||◌, Option, none,
  some, List, [], ◌∷◌, ◌++◌, map, ltb, leb, if◌then◌else◌, Bytes, bytes_eq, String, str_eq, codes,
  sort_by_key, Result, ok, err,
}
use mathlib.Core.Option
use keeper_bot.Hex
use keeper_bot.Tables.{Tables, UserRow, MerkleProofRow, EarningRow, RootEpochRow}
use keeper_bot.Chain.{Session, Io}

-- What the server refuses when it prepares a statement, with its message: a call of `make_interval`
-- with days or hours of type BIGINT, and an `ON CONFLICT` that does not repeat the predicate of the
-- partial index on its columns.
pub record Dialect : Type 0 where
  pub bigint_interval : Option String
  pub partial_index : Option String

abbrev pub unless_refused {ℓ} : {A : Type ℓ} → Option String → Result A → Result A
unless_refused none answer = answer
unless_refused (some e) answer = err e

-- The database as a part of the world: its tables at this moment, whether a statement that is sent
-- now fails (a lost connection, a full disk), and what its server refuses at any time.
pub record Pg (World : Type 0) : Type 0 where
  pub tables : World → Tables
  pub put : Tables → World → World
  pub fault : World → Option String
  pub dialect : Dialect

module _ {World A : Type 0} (pg : Pg World) where
  apply_sql : Result (A × Tables) → Io World A
  apply_sql (ok (a, t)) s = (ok a, record s { world = pg.put t s.world })
  apply_sql (err e) s = (err e, s)

  -- A transaction: a fault or an error of the statements leaves everything as it was.
  unfoldable pub run_sql : (Tables → Result (A × Tables)) → Io World A
  unfolding apply_sql
  run_sql statement s =
      let applied = apply_sql (statement (pg.tables s.world)) s in
      elim (pg.fault s.world) [ some e ↦ (err e, s) | none ↦ applied ]

-- SQL's `WHERE`.
abbrev pub where_rows {ℓ} : {A : Type ℓ} → (A → Bool) → List A → List A
where_rows p [] = []
where_rows p (x ∷ xs) = let rest = where_rows p xs in if p x then x ∷ rest else rest

-- `= ANY(..)`.
abbrev pub any_eq : String → List String → Bool
any_eq a [] = false
any_eq a (b ∷ bs) = str_eq a b || any_eq a bs

-- `=` on BIGINT.
abbrev pub eq_ℤ : ℤ → ℤ → Bool
eq_ℤ a b = leb_ℤ a b && leb_ℤ b a

pub record UserPointsRow : Type 0 where
  pub wallet_address : String
  pub total_points : ℤ

-- `SELECT .. FROM users WHERE total_points > 0 ORDER BY wallet_address`.
unfoldable pub get_users_with_points : Tables → Result (List UserPointsRow × Tables)
get_users_with_points t = ok (
  map (λ u. record { wallet_address = u.wallet_address; total_points = u.total_points })
      (sort_by_key (λ u. codes u.wallet_address)
        (where_rows (λ (u : UserRow). ltb_ℤ (pos 0) u.total_points) t.users)),
  t,
)

-- `INSERT INTO merkle_proofs .. ON CONFLICT (epoch, authority) DO UPDATE`.
unfoldable pub upsert_proof : MerkleProofRow → List MerkleProofRow → List MerkleProofRow
upsert_proof row [] = row ∷ []
upsert_proof row (r ∷ rows) =
    if eq_ℤ r.epoch row.epoch && str_eq r.authority row.authority
    then record r { root = row.root; amount = row.amount; proof = row.proof } ∷ rows
    else r ∷ upsert_proof row rows

-- The loop over the proofs.
unfoldable pub upsert_proofs :
    ℤ → Bytes → List (String × ℤ × List Bytes) → List MerkleProofRow → List MerkleProofRow
unfolding upsert_proof
upsert_proofs epoch root_hex [] rows = rows
upsert_proofs epoch root_hex ((authority, amount, proof) ∷ proofs) rows =
    upsert_proofs epoch root_hex proofs (
      upsert_proof
        (record {
          epoch = epoch;
          root = root_hex;
          authority = authority;
          amount = amount;
          proof = proof;
        })
        rows)

-- Proofs of earlier epochs are deleted first.
unfoldable pub save_merkle_proofs :
    ℤ → Bytes → List (String × ℤ × List Bytes) → Tables → Result (Unit {0} × Tables)
unfolding upsert_proofs Hex.encode
save_merkle_proofs epoch root proofs t =
    let kept = where_rows (λ (r : MerkleProofRow). leb_ℤ epoch r.epoch) t.merkle_proofs in
    ok (tt, record t { merkle_proofs = upsert_proofs epoch (Hex.encode root) proofs kept })

-- `fetch_optional`: the first row.
abbrev pub fetch_optional {ℓ} : {A : Type ℓ} → List A → Option A
fetch_optional [] = none
fetch_optional (x ∷ xs) = some x

unfoldable pub get_merkle_proof : Bytes → String → Tables → Result (Option MerkleProofRow × Tables)
get_merkle_proof root_hex authority t = ok (
  fetch_optional (
      where_rows (λ (r : MerkleProofRow). bytes_eq r.root root_hex && str_eq r.authority authority)
        t.merkle_proofs),
  t,
)

pub record RewardzEarningsRow : Type 0 where
  pub protocol_authority : String
  pub cumulative_amount : ℤ

-- The groups of `GROUP BY protocol_authority`.
unfoldable pub authorities_of : List EarningRow → List String
authorities_of [] = []
authorities_of (r ∷ rows) =
    let rest = authorities_of rows in
    if any_eq r.protocol_authority rest then rest else r.protocol_authority ∷ rest

-- `SUM(amount)` of one group.
unfoldable pub sum_of : String → List EarningRow → ℤ
unfolding ◌+ℤ◌
sum_of authority [] = pos 0
sum_of authority (r ∷ rows) =
    let rest = sum_of authority rows in
    if str_eq r.protocol_authority authority then r.amount +ℤ rest else rest

-- `::BIGINT` fails out of range.
unfoldable pub to_bigint : ℤ → Result ℤ
to_bigint (pos n) = if ltb n (2 ^ 63) then ok (pos n) else err "bigint out of range"
to_bigint (negsuc n) = if ltb n (2 ^ 63) then ok (negsuc n) else err "bigint out of range"

unfoldable pub sum_groups : List EarningRow → List String → Result (List RewardzEarningsRow)
unfolding sum_of to_bigint
sum_groups rows [] = ok []
sum_groups rows (a ∷ rest) =
    let further = sum_groups rows rest in
    elim (to_bigint (sum_of a rows)) [
      | ok total ↦ elim further [
        | ok out ↦ ok (record { protocol_authority = a; cumulative_amount = total } ∷ out)
        | err e ↦ err e
      ]
      | err e ↦ err e
    ]

unfoldable pub get_rewardz_earnings_grouped : Tables → Result (List RewardzEarningsRow × Tables)
unfolding sum_groups authorities_of sort_by_key
get_rewardz_earnings_grouped t =
    let groups = sort_by_key codes (authorities_of t.rewardz_earnings) in
    elim (sum_groups t.rewardz_earnings groups) [ ok rows ↦ ok (rows, t) | err e ↦ err e ]

-- `ON CONFLICT (epoch) DO NOTHING`.
unfoldable pub insert_root_epoch : RootEpochRow → List RootEpochRow → List RootEpochRow
insert_root_epoch row [] = row ∷ []
insert_root_epoch row (r ∷ rows) =
    if eq_ℤ r.epoch row.epoch then r ∷ rows else r ∷ insert_root_epoch row rows

abbrev pub is_null {ℓ} : {A : Type ℓ} → Option A → Bool
is_null none = true
is_null (some _) = false

-- The `WHERE` of the backfill.
abbrev pub is_backfilled : List String → ℕ → EarningRow → Bool
is_backfilled authorities cutoff r =
    is_null r.included_in_root_epoch
    && any_eq r.protocol_authority authorities
    && leb r.created_at cutoff

-- The new rows and `rows_affected`.
unfoldable pub backfill : ℤ → List String → ℕ → List EarningRow → List EarningRow × ℕ
backfill epoch authorities cutoff [] = ([], 0)
backfill epoch authorities cutoff (r ∷ rows) =
    let (rest, n) = backfill epoch authorities cutoff rows in
    if is_backfilled authorities cutoff r
    then (record r { included_in_root_epoch = some epoch } ∷ rest, n + 1)
    else (r ∷ rest, n)

unfoldable pub record_rewardz_root_publish :
    ℤ → Bytes → String → ℕ → List String → ℕ → Tables → Result (ℕ × Tables)
unfolding insert_root_epoch backfill
record_rewardz_root_publish epoch merkle_root tx_sig total_included authorities cutoff t =
    let epochs =
      insert_root_epoch
        (record {
          epoch = epoch;
          merkle_root = merkle_root;
          tx_sig = tx_sig;
          total_included = total_included;
        })
        t.rewardz_root_epochs in
    let (earnings, affected) = backfill epoch authorities cutoff t.rewardz_earnings in
    ok (affected, record t { rewardz_root_epochs = epochs; rewardz_earnings = earnings })

unfoldable pub get_user_total_points : String → Tables → Result (Option ℤ × Tables)
get_user_total_points wallet t = ok (
  Option.map (λ (u : UserRow). u.total_points)
      (fetch_optional (where_rows (λ (u : UserRow). str_eq u.wallet_address wallet) t.users)),
  t,
)

-- `SELECT NOW()`.
unfoldable pub select_now : Tables → Result (ℕ × Tables)
select_now t = ok (t.now, t)

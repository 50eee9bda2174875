-- ===== src/Db/Proofs.antt =====
-- src/db.rs: `save_merkle_proofs` followed by `get_merkle_proof`.
use keeper_bot.Base.{
  ℕ, suc, zero, ℤ, leb_ℤ, ◌≡◌, refl, sym, ◌∙◌, ap, true, ◌&&◌, Option, some, List, [], ◌∷◌, Bytes,
  bytes_eq, bytes_eq_refl, String, str_eq, str_eq_iff, ok, get_elem?, arith, ◌≢◌, Bool-cases, inl,
  inr, All,
}
use mathlib.Core.Path.{subst}
use mathlib.Core.Option.{some-injective}
use keeper_bot.Hex
use keeper_bot.Tables.{Tables, MerkleProofRow}
use keeper_bot.Db.{
  eq_ℤ, where_rows, fetch_optional, upsert_proof, upsert_proofs, save_merkle_proofs,
  get_merkle_proof,
}

-- What `get_merkle_proof` selects.
abbrev find_row : Bytes → String → List MerkleProofRow → Option MerkleProofRow
find_row root authority rows =
    fetch_optional (
      where_rows (λ (r : MerkleProofRow). bytes_eq r.root root && str_eq r.authority authority)
        rows)

-- An entry of the call as a row of the table.
abbrev pub proof_row : ℤ → Bytes → String × ℤ × List Bytes → MerkleProofRow
proof_row epoch root_hex (authority, amount, proof) = record {
  epoch = epoch;
  root = root_hex;
  authority = authority;
  amount = amount;
  proof = proof;
}

upsert_proof-other :
    (row : MerkleProofRow) (root : Bytes) (authority : String) (rows : List MerkleProofRow)
    → row.authority ≢ authority
    → find_row root authority (upsert_proof row rows) ≡ find_row root authority rows
unfolding upsert_proof
upsert_proof-other row root authority [] ne = ground (arith, str_eq_iff row.authority authority)
upsert_proof-other row root authority (r ∷ rows) ne = ground (
  arith,
  str_eq_iff row.authority authority,
  str_eq_iff r.authority authority,
  str_eq_iff r.authority row.authority,
  upsert_proof-other row root authority rows ne,
)

-- No row is of a later epoch than the one saved.
abbrev pub NoLater : ℤ → List MerkleProofRow → Type 0
NoLater epoch = All (λ r. leb_ℤ r.epoch epoch ≡ true)

eq_of_eq_ℤ : (a b : ℤ) → leb_ℤ a b ≡ true → leb_ℤ b a ≡ true → a ≡ b
eq_of_eq_ℤ a b h k = ground arith

upsert_proof_self :
    (row : MerkleProofRow) (rows : List MerkleProofRow)
    → All (λ r. r.epoch ≡ row.epoch) rows
    → find_row row.root row.authority (upsert_proof row rows) ≡ some row
unfolding upsert_proof
upsert_proof_self row [] same =
    ground (arith, str_eq_iff row.authority row.authority, bytes_eq_refl row.root)
upsert_proof_self row (r ∷ rows) (e, same) = ground (
  arith,
  e,
  str_eq_iff r.authority row.authority,
  str_eq_iff row.authority row.authority,
  bytes_eq_refl row.root,
  upsert_proof_self row rows same,
)

abbrev AllOf : ℤ → List MerkleProofRow → Type 0
AllOf epoch = All (λ r. r.epoch ≡ epoch)

upsert_proof-AllOf :
    (row : MerkleProofRow) (rows : List MerkleProofRow)
    → AllOf row.epoch rows
    → AllOf row.epoch (upsert_proof row rows)
unfolding upsert_proof
upsert_proof-AllOf row [] same = (refl, tt)
upsert_proof-AllOf row (r ∷ rows) (e, same) =
    elim (Bool-cases (eq_ℤ r.epoch row.epoch && str_eq r.authority row.authority)) [
      | inl hit ↦ rw hit (e, same)
      | inr miss ↦ rw miss (e, upsert_proof-AllOf row rows same)
    ]

-- The authorities of the entries differ.
abbrev pub DistinctAuthorities : List (String × ℤ × List Bytes) → Type 0
DistinctAuthorities [] = Unit
DistinctAuthorities ((a, _, _) ∷ es) = All (λ e. a ≢ e.0) es × DistinctAuthorities es

module _ (epoch : ℤ) (root_hex : Bytes) where
  upsert_proofs-other :
      (authority : String) (entries : List (String × ℤ × List Bytes)) (rows : List MerkleProofRow)
      → All (λ e. authority ≢ e.0) entries
      → find_row root_hex authority (upsert_proofs epoch root_hex entries rows)
        ≡ find_row root_hex authority rows
  unfolding upsert_proofs
  upsert_proofs-other authority [] rows away = refl
  upsert_proofs-other authority ((a, m, p) ∷ es) rows (ne, away) =
      upsert_proofs-other authority es _ away
      ∙ upsert_proof-other (proof_row epoch root_hex (a, m, p)) root_hex authority rows
          (λ e. ne (sym e))

  upsert_proofs_self :
      (entries : List (String × ℤ × List Bytes)) (rows : List MerkleProofRow) (i : ℕ)
      (entry : String × ℤ × List Bytes)
      → AllOf epoch rows
      → DistinctAuthorities entries
      → get_elem? entries i ≡ some entry
      → find_row root_hex entry.0 (upsert_proofs epoch root_hex entries rows)
        ≡ some (proof_row epoch root_hex entry)
  unfolding upsert_proofs
  upsert_proofs_self [] rows i entry same d at = cc
  upsert_proofs_self ((a, m, p) ∷ es) rows zero entry same (away, d) at =
      subst
        (λ e.
          find_row root_hex e.0 (upsert_proofs epoch root_hex ((a, m, p) ∷ es) rows)
          ≡ some (proof_row epoch root_hex e))
        (some-injective _ _ at)
        (upsert_proofs-other a es _ away
          ∙ upsert_proof_self (proof_row epoch root_hex (a, m, p)) rows same)
  upsert_proofs_self ((a, m, p) ∷ es) rows (suc i) entry same (away, d) at =
      upsert_proofs_self es _ i entry
        (upsert_proof-AllOf (proof_row epoch root_hex (a, m, p)) rows same) d at

kept-AllOf :
    (epoch : ℤ) (rows : List MerkleProofRow)
    → NoLater epoch rows
    → AllOf epoch (where_rows (λ (r : MerkleProofRow). leb_ℤ epoch r.epoch) rows)
kept-AllOf epoch [] h = tt
kept-AllOf epoch (r ∷ rows) (late, h) = elim (Bool-cases (leb_ℤ epoch r.epoch)) [
  | inl keep ↦ rw keep (eq_of_eq_ℤ r.epoch epoch late keep, kept-AllOf epoch rows h)
  | inr gone ↦ rw gone (kept-AllOf epoch rows h)
]

-- If no stored row is of a later epoch and the authorities saved are distinct, then after
-- `save_merkle_proofs` a lookup by the saved root and an authority returns the amount, the proof
-- and the epoch that were saved for it.
pub get_merkle_proof-save_merkle_proofs :
    (epoch : ℤ) (root : Bytes) (entries : List (String × ℤ × List Bytes)) (t t' : Tables) (i : ℕ)
    (entry : String × ℤ × List Bytes)
    → NoLater epoch t.merkle_proofs
    → DistinctAuthorities entries
    → get_elem? entries i ≡ some entry
    → save_merkle_proofs epoch root entries t ≡ ok (tt, t')
    → get_merkle_proof (Hex.encode root) entry.0 t'
      ≡ ok (some (proof_row epoch (Hex.encode root) entry), t')
unfolding save_merkle_proofs get_merkle_proof
get_merkle_proof-save_merkle_proofs epoch root entries t t' i entry late d at saved =
    let kept = where_rows (λ (r : MerkleProofRow). leb_ℤ epoch r.epoch) t.merkle_proofs in
    let found =
      upsert_proofs_self epoch (Hex.encode root) entries kept i entry
        (kept-AllOf epoch t.merkle_proofs late) d at in
    let rows : upsert_proofs epoch (Hex.encode root) entries kept ≡ t'.merkle_proofs =
      ground arith in
    ap (λ o. ok (o, t')) (ap (find_row (Hex.encode root) entry.0) (sym rows) ∙ found)

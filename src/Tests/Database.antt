-- ===== src/Tests/Database.antt =====
-- The theorems on the SQL helpers at small tables.
use keeper_bot.Base.{
  ℕ, ◌<◌, ◌≤◌, ◌≡◌, refl, ◌≢◌, ◌⊎◌, true, false, ℤ, pos, none, some, List, [], ◌∷◌, Bytes,
  get_elem?, String, str_eq, str_eq_iff, ok, arith,
}
use keeper_bot.Hex
use keeper_bot.Db
use keeper_bot.Tables.{Tables, EarningRow}
use keeper_bot.Db.{
  any_eq, backfill, insert_root_epoch, record_rewardz_root_publish, save_merkle_proofs,
  get_merkle_proof,
}
use keeper_bot.Db.Ledger.{record_rewardz_root_publish_marks}
use keeper_bot.Db.Proofs.{proof_row, get_merkle_proof-save_merkle_proofs}
use keeper_bot.Tests.Samples.{no_rows}

abbrev pub earning : String → ℤ → ℕ → EarningRow
earning authority amount created_at = record {
  protocol_id = 1;
  protocol_authority = authority;
  amount = amount;
  reason = "milestone";
  milestone_id = none;
  created_at = created_at;
  included_in_root_epoch = none;
}

abbrev pub earned : Tables
earned = record no_rows {
  rewardz_earnings = earning "alice" (pos 30) 900 ∷ earning "bob" (pos 5) 1200 ∷ [];
}

abbrev published : Tables
published = record no_rows {
  rewardz_earnings =
      record (earning "alice" (pos 30) 900) { included_in_root_epoch = some (pos 4) }
      ∷ earning "bob" (pos 5) 1200
      ∷ [];
  rewardz_root_epochs =
      record { epoch = pos 4; merkle_root = 1 ∷ []; tx_sig = "signature"; total_included = 30 }
      ∷ [];
}

earned-published :
    record_rewardz_root_publish (pos 4) (1 ∷ []) "signature" 30 ("alice" ∷ "bob" ∷ []) 1000 earned
    ≡ ok (1, published)
unfolding record_rewardz_root_publish backfill insert_root_epoch
earned-published = refl

record_rewardz_root_publish_marks_example :
    (((earning "bob" (pos 5) 1200).included_in_root_epoch ≡ none)
      × (any_eq "bob" ("alice" ∷ "bob" ∷ []) ≡ true)
      × (1200 ≤ 1000)
      × (get_elem? published.rewardz_earnings 1
          ≡ some (record (earning "bob" (pos 5) 1200) { included_in_root_epoch = some (pos 4) })))
    ⊎ ((((earning "bob" (pos 5) 1200).included_in_root_epoch ≢ none)
          ⊎ (any_eq "bob" ("alice" ∷ "bob" ∷ []) ≡ false)
          ⊎ (1000 < 1200))
        × (get_elem? published.rewardz_earnings 1 ≡ some (earning "bob" (pos 5) 1200)))
record_rewardz_root_publish_marks_example =
    record_rewardz_root_publish_marks (pos 4) ("alice" ∷ "bob" ∷ []) 1000 (1 ∷ []) "signature" 30
      earned published 1 1 (earning "bob" (pos 5) 1200) earned-published refl

abbrev two_proofs : List (String × ℤ × List Bytes)
two_proofs = ("alice", pos 30, (1 ∷ []) ∷ []) ∷ ("bob", pos 5, (2 ∷ []) ∷ []) ∷ []

abbrev saved : Tables
saved = record no_rows {
  merkle_proofs =
      proof_row (pos 4) (Hex.encode (7 ∷ [])) ("alice", pos 30, (1 ∷ []) ∷ [])
      ∷ proof_row (pos 4) (Hex.encode (7 ∷ [])) ("bob", pos 5, (2 ∷ []) ∷ [])
      ∷ [];
}

saved-proofs : save_merkle_proofs (pos 4) (7 ∷ []) two_proofs no_rows ≡ ok (tt, saved)
unfolding save_merkle_proofs Db.upsert_proofs Db.upsert_proof
saved-proofs = refl

alice_not_bob : ◌≢◌ {A = String} "alice" "bob"
alice_not_bob e =
    let h : str_eq "alice" "bob" ≡ true = (str_eq_iff "alice" "bob").1 e in
    absurd (ground (arith, h))

get_merkle_proof-save_merkle_proofs_example :
    get_merkle_proof (Hex.encode (7 ∷ [])) "bob" saved
    ≡ ok (some (proof_row (pos 4) (Hex.encode (7 ∷ [])) ("bob", pos 5, (2 ∷ []) ∷ [])), saved)
get_merkle_proof-save_merkle_proofs_example =
    get_merkle_proof-save_merkle_proofs (pos 4) (7 ∷ []) two_proofs no_rows saved 1
      ("bob", pos 5, (2 ∷ []) ∷ []) tt ((alice_not_bob, tt), (tt, tt)) refl saved-proofs

-- ===== src/Tests/Handlers.antt =====
-- The theorems on the HTTP handlers at one wallet.
use keeper_bot.Base.{
  ℤ, Option, bytes_eq, bytes_le, from_le_bytes, ℕ, ◌-◌, ◌<◌, ◌^◌, ◌≡◌, refl, ◌↔◌, ◌⊎◌, pos, negsuc,
  ◌-ℤ◌, true, false, none, some, [], ◌∷◌, to_le_bytes, String, Result, ok, err, arith,
}
use keeper_bot.Chain.{Rpc, Session}
use keeper_bot.Tables.{Tables}
use keeper_bot.Db.{run_sql, get_user_total_points}
use keeper_bot.Api.{
  Wallets, AppState, SignReceiptRequest, BootstrapAwardRequest, Receipt, Response, json, error,
  wrap_i64, abs_i64, is_expired, receipt_request_message, has_user, has_balance, award_statement,
  check_signature, fetch_current_epoch, receipt_of, answer_claim, answer_total, receipt_checked,
  sign_receipt, answer_award, award_unless_staked, award_checked, bootstrap_award,
}
use keeper_bot.Api.Freshness.{IsNear, is_expired_iff}
use keeper_bot.Api.Receipts.{IsSigned, CountsAs, sign_receipt_sound}
use keeper_bot.Api.Awards.{AwardOutcome, bootstrap_award-AwardOutcome, bootstrap_award_once}
use keeper_bot.Api.RewardzProof.{
  RewardzProofResponse, prefixed_hex, amounts_of, answer_leaf, answer_tree,
}
use keeper_bot.Api.RewardzProof.Served.{Redeemable, answer_tree-Redeemable}
use keeper_bot.Base.Maps.{lookup, insert}
use keeper_bot.Merkle.{hash_pair, hash_leaf}
use keeper_bot.RewardzMerkle.Parity.{as_rewardz, build_rewardz_tree-built}
use keeper_bot.Tests.Merkle.{leaf_a, two_tree, two_tree-built, two_entries-DistinctKeys}
use keeper_bot.Tests.Samples.{
  toy_digest, bob, two_entries, text_sdk, plain_pg, plain_pg-LawfulPg, no_rows, one_account, alice,
}

abbrev served : RewardzProofResponse
served = record {
  cumulative_amount = 7;
  epoch = 3;
  proof = prefixed_hex leaf_a ∷ [];
  root = prefixed_hex two_tree.root;
  valid_until = pos 4600;
}

served-answer :
    answer_tree bob two_tree.root 3 (pos 4600) two_entries (some (as_rewardz two_tree))
    ≡ json served
unfolding answer_tree answer_leaf amounts_of lookup insert bytes_eq to_le_bytes from_le_bytes
    hash_pair hash_leaf bytes_le
served-answer = refl

answer_tree-Redeemable_example : Redeemable toy_digest two_entries bob two_tree.root 3 served
answer_tree-Redeemable_example =
    answer_tree-Redeemable toy_digest bob two_tree.root 3 (pos 4600) two_entries
      (some (as_rewardz two_tree)) served two_entries-DistinctKeys
      (build_rewardz_tree-built toy_digest two_entries two_tree two_tree-built) served-answer

-- A crate that accepts every signature of 64 zeros.
abbrev open_wallets : Wallets
open_wallets = record {
  decode = λ text. some (to_le_bytes 64 0);
  encode = λ bytes. "signature";
  verify = λ sig pk message. true;
  sign_message = λ message. message;
}

abbrev no_accounts : Rpc Tables
no_accounts = record (one_account []) { get_account = λ pk w. (err "account not found", w) }

abbrev state : AppState
state = record {
  program_id = alice;
  points_request_ttl_seconds = pos 300;
  points_receipt_ttl_seconds = pos 600;
}

abbrev award_request : BootstrapAwardRequest
award_request = record { authority = "alice"; timestamp = pos 1000; signature = "signature" }

abbrev start : Session Tables
start = record { world = no_rows; sent = [] }

abbrev first_award : Result (Response String) × Session Tables
first_award =
    bootstrap_award text_sdk open_wallets no_accounts plain_pg state award_request (pos 1010) start

first-awarded : first_award.0 ≡ ok (json "Awarded 100 bootstrap points")
unfolding bootstrap_award award_checked award_unless_staked answer_award check_signature is_expired
    wrap_i64 abs_i64 ◌-ℤ◌ run_sql award_statement has_user has_balance to_le_bytes
first-awarded = refl

abbrev bob_request : BootstrapAwardRequest
bob_request = record award_request { authority = "bob" }

abbrev second_award : Session Tables
second_award =
    (bootstrap_award text_sdk open_wallets no_accounts plain_pg state bob_request (pos 1015)
      first_award.1).1

bootstrap_award_once_example :
    (plain_pg.tables
        (bootstrap_award text_sdk open_wallets no_accounts plain_pg state award_request
          (pos 1020)
          second_award).1.world
      ≡ plain_pg.tables second_award.world)
    × ((status : ℕ) × (message : String) × ((bootstrap_award text_sdk open_wallets no_accounts
            plain_pg state award_request
            (pos 1020)
            second_award).0
          ≡ ok (error status message)))
bootstrap_award_once_example =
    bootstrap_award_once text_sdk open_wallets no_accounts plain_pg state plain_pg-LawfulPg
      (λ pk w. refl) award_request award_request (pos 1010) (pos 1020)
      "Awarded 100 bootstrap points" ((bob_request, pos 1015) ∷ []) start first-awarded refl

bootstrap_award-AwardOutcome_example :
    AwardOutcome text_sdk open_wallets no_accounts plain_pg state "alice" no_rows first_award
bootstrap_award-AwardOutcome_example =
    bootstrap_award-AwardOutcome text_sdk open_wallets no_accounts plain_pg state plain_pg-LawfulPg
      (λ pk w. refl) award_request (pos 1010) start

abbrev receipt_request : SignReceiptRequest
receipt_request = record {
  authority = "alice";
  points_claim = 40;
  root = "";
  timestamp = pos 1000;
  signature = "signature";
}

abbrev funded : Session Tables
funded = record {
  world = record no_rows {
    users = record { wallet_address = "alice"; total_points = pos 100 } ∷ [];
  };
  sent = [];
}

abbrev receipt : Receipt
receipt =
    receipt_of text_sdk open_wallets no_accounts plain_pg state receipt_request (pos 1010) 100 none

receipt-signed :
    (sign_receipt text_sdk open_wallets no_accounts plain_pg state receipt_request
      (pos 1010)
      funded).0
    ≡ ok (json (some receipt))
unfolding sign_receipt receipt_checked answer_total answer_claim fetch_current_epoch check_signature
    is_expired wrap_i64 abs_i64 ◌-ℤ◌ run_sql get_user_total_points to_le_bytes
receipt-signed = refl

sign_receipt_sound_example :
    IsSigned text_sdk open_wallets "alice" "signature" (receipt_request_message receipt_request)
    × (is_expired (pos 1010) (pos 1000) (pos 300) ≡ false)
    × (receipt.prev_total ≡ 40)
    × (receipt.prev_total < receipt.new_total)
    × (total : Option ℤ) × (get_user_total_points "alice" funded.world ≡ ok (total, funded.world))
    × CountsAs total receipt.new_total
sign_receipt_sound_example =
    sign_receipt_sound text_sdk open_wallets no_accounts plain_pg state plain_pg-LawfulPg
      receipt_request (pos 1010) funded receipt receipt-signed

is_expired_iff_example : (is_expired (pos 1010) (negsuc (2 ^ 63 - 1011)) (pos 300) ≡ false) ↔ (
    IsNear 1010 (negsuc (2 ^ 63 - 1011)) 300
    ⊎ (negsuc (2 ^ 63 - 1011) ≡ negsuc (2 ^ 63 - 1 - 1010)))
is_expired_iff_example =
    is_expired_iff 1010 300 (negsuc (2 ^ 63 - 1011)) (omega arith) (omega arith) (omega arith)

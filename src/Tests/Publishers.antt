-- ===== src/Tests/Publishers.antt =====
-- The theorems on the two publishers at small tables.
use keeper_bot.Base.{
  ◌+◌, ◌*◌, ◌%◌, ◌^◌, ◌≡◌, refl, ◌⊎◌, true, pos, ◌+ℤ◌, none, some, List, [], ◌∷◌, ◌++◌, Bytes,
  to_le_bytes, from_le_bytes, take, drop, get_elem?, length, length-to_le_bytes, All, sort_by_key,
  ok, err, arith,
}
use keeper_bot.Chain.{Pubkey, Transaction, Session}
use keeper_bot.LeagueConfig.{devnet_config}
use keeper_bot.Tables.{Tables}
use keeper_bot.Db
use keeper_bot.Db.{RewardzEarningsRow, get_rewardz_earnings_grouped}
use keeper_bot.Publisher.{publisher_tick}
use keeper_bot.Publisher.Submission.{IsPointRoot, publisher_tick_one_transaction}
use keeper_bot.RewardzPublisher.{
  RewardzApi, RewardzEnv, is_dry_run, set_rewardz_root_data, publish_rewardz_root,
  rewardz_publisher_tick,
}
use keeper_bot.RewardzPublisher.Payload.{set_rewardz_root_data_parts}
use keeper_bot.RewardzPublisher.Submission.{IsTick, rewardz_publisher_tick_one_transaction}
use keeper_bot.RewardzPublisher.Guards.{publish_rewardz_root_dry_run, publish_rewardz_root_over_cap}
use keeper_bot.Tests.Samples.{
  toy_digest, alice, bob, text_sdk, plain_pg, plain_pg-LawfulPg, no_rows, one_account,
}
use keeper_bot.Tests.Database.{earning, earned}

abbrev program : Pubkey
program = to_le_bytes 32 5

abbrev sample_api : RewardzApi
sample_api = record {
  config_seed = 1 ∷ [];
  rewardz_root_seed = 2 ∷ [];
  ix_set_rewardz_root = 30;
  rewardz_root_len = 4;
  off_epoch = 0;
  rewardz_deny_list_max = 8;
  rroot_read_root = λ bytes. to_le_bytes 32 0;
  rroot_read_u64 = λ bytes off. from_le_bytes (take 8 (drop off bytes));
  rroot_read_deny_list_len = λ bytes. 1;
  rroot_read_deny_entry = λ bytes i. some alice;
}

abbrev live : RewardzEnv
live = record { solana_network = some "devnet"; rewardz_publisher_dry_run = none }

abbrev dry : RewardzEnv
dry = record { solana_network = some "devnet"; rewardz_publisher_dry_run = some "1" }

abbrev start : Tables → Session Tables
start t = record { world = t; sent = [] }

publisher_tick_one_transaction_example :
    ((publisher_tick text_sdk toy_digest
        (one_account (7 ∷ []))
        plain_pg
        alice
        program
        3
        (start earned)).0
      ≡ ok ((3 + 1) % 2 ^ 64))
    × (((publisher_tick text_sdk toy_digest
            (one_account (7 ∷ []))
            plain_pg
            alice
            program
            3
            (start earned)).1.sent
          ≡ [])
        ⊎ ((tx : Transaction) × ((publisher_tick text_sdk toy_digest
                (one_account (7 ∷ []))
                plain_pg
                alice
                program
                3
                (start earned)).1.sent
              ≡ [] ++ tx ∷ [])
            × IsPointRoot text_sdk toy_digest
                (one_account (7 ∷ []))
                plain_pg
                alice
                program
                ((3 + 1) % 2 ^ 64)
                tx))
publisher_tick_one_transaction_example =
    publisher_tick_one_transaction text_sdk toy_digest (one_account (7 ∷ [])) plain_pg alice program
      3 (start earned)

denied : All (λ (entry : Bytes). length entry ≡ 32) (alice ∷ bob ∷ [])
denied = (length-to_le_bytes 32 1, (length-to_le_bytes 32 2, tt))

set_rewardz_root_data_parts_example :
    (length (set_rewardz_root_data sample_api alice 9 12 (alice ∷ bob ∷ [])) ≡ 58 + 32 * 2)
    × (take 32 (drop 1 (set_rewardz_root_data sample_api alice 9 12 (alice ∷ bob ∷ []))) ≡ alice)
    × (from_le_bytes
          (take 8 (drop 33 (set_rewardz_root_data sample_api alice 9 12 (alice ∷ bob ∷ []))))
        ≡ 9)
    × (from_le_bytes
          (take 16 (drop 41 (set_rewardz_root_data sample_api alice 9 12 (alice ∷ bob ∷ []))))
        ≡ 12)
    × (get_elem? (drop 57 (set_rewardz_root_data sample_api alice 9 12 (alice ∷ bob ∷ []))) 0
        ≡ some 2)
set_rewardz_root_data_parts_example =
    set_rewardz_root_data_parts sample_api alice 9 12 (alice ∷ bob ∷ []) (length-to_le_bytes 32 1)
      (omega arith) (omega arith) (omega arith) denied

rewardz_publisher_tick_one_transaction_example :
    ((rewardz_publisher_tick sample_api text_sdk toy_digest live
        (one_account (7 ∷ 0 ∷ 0 ∷ 0 ∷ []))
        plain_pg
        alice
        program
        0
        (start earned)).1.sent
      ≡ [])
    ⊎ ((tx : Transaction) × ((rewardz_publisher_tick sample_api text_sdk toy_digest live
            (one_account (7 ∷ 0 ∷ 0 ∷ 0 ∷ []))
            plain_pg
            alice
            program
            0
            (start earned)).1.sent
          ≡ [] ++ tx ∷ [])
        × IsTick sample_api text_sdk toy_digest live
            (one_account (7 ∷ 0 ∷ 0 ∷ 0 ∷ []))
            plain_pg
            alice
            program
            (start earned)
            0
            tx)
rewardz_publisher_tick_one_transaction_example =
    rewardz_publisher_tick_one_transaction sample_api text_sdk toy_digest live
      (one_account (7 ∷ 0 ∷ 0 ∷ 0 ∷ [])) plain_pg alice program plain_pg-LawfulPg 0 (start earned)

is_dry : is_dry_run dry ≡ true
unfolding is_dry_run
is_dry = refl

publish_rewardz_root_dry_run_example :
    ((publish_rewardz_root sample_api text_sdk toy_digest dry
        (one_account [])
        plain_pg
        alice
        program
        9
        devnet_config
        (start earned)).1.sent
      ≡ [])
    × (publish_rewardz_root sample_api text_sdk toy_digest dry
          (one_account [])
          plain_pg
          alice
          program
          9
          devnet_config
          (start earned)
        ≡ publish_rewardz_root sample_api text_sdk toy_digest dry
            (one_account (7 ∷ []))
            plain_pg
            alice
            program
            9
            devnet_config
            (start earned))
publish_rewardz_root_dry_run_example =
    publish_rewardz_root_dry_run sample_api text_sdk toy_digest dry (one_account []) plain_pg alice
      program 9 devnet_config is_dry (one_account (7 ∷ [])) (start earned)

-- More than the 10000 that the devnet configuration allows.
abbrev rich : Tables
rich = record no_rows {
  rewardz_earnings = earning "alice" (pos 30) 900 ∷ earning "alice" (pos 9990) 950 ∷ [];
}

abbrev rich_rows : List RewardzEarningsRow
rich_rows = record { protocol_authority = "alice"; cumulative_amount = pos 10020 } ∷ []

rich-grouped : get_rewardz_earnings_grouped rich ≡ ok (rich_rows, rich)
unfolding get_rewardz_earnings_grouped Db.sum_groups Db.sum_of Db.to_bigint Db.authorities_of
    sort_by_key ◌+ℤ◌
rich-grouped = refl

publish_rewardz_root_over_cap_example :
    publish_rewardz_root sample_api text_sdk toy_digest live
      (one_account [])
      plain_pg
      alice
      program
      9
      devnet_config
      (start rich)
    ≡ (err "cumulative rewardz total exceeds per-epoch cap", start rich)
publish_rewardz_root_over_cap_example =
    publish_rewardz_root_over_cap sample_api text_sdk toy_digest live (one_account []) plain_pg
      alice program 9 devnet_config plain_pg-LawfulPg rich_rows (start rich) refl rich-grouped
      (omega arith, tt) (omega arith) (omega arith)

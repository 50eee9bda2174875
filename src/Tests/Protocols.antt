-- ===== src/Tests/Protocols.antt =====
-- The theorems on the rows of the protocols at a table of two.
use keeper_bot.Base.{
  ℕ, zero, suc, ◌≡◌, refl, pos, Option, none, some, [], ◌∷◌, to_le_bytes, get_elem?, arith,
}
use keeper_bot.Chain.{Session}
use keeper_bot.LeagueConfig.{devnet_config}
use keeper_bot.Tables.{Tables, ProtocolRow}
use keeper_bot.StakeWatcher.{tick}
use keeper_bot.StakeWatcher.Sticky.{SameWindow, tick_sticky}
use keeper_bot.Tests.Samples.{text_sdk, plain_pg, plain_pg-LawfulPg, no_rows, one_account, alice}

abbrev protocol : ℕ → Option ℕ → ProtocolRow
protocol id unlocked_at = record {
  id = id;
  admin_wallet = "admin";
  status = "active";
  visibility = "visible";
  remaining_capacity = some (pos 40);
  capacity_window_start = unlocked_at;
  active_stake = some (pos 7);
  capacity_unlocked_at = unlocked_at;
  referral_code = some "code";
  quality_score = none;
}

abbrev two_protocols : Tables
two_protocols = record no_rows { protocols = protocol 1 (some 500) ∷ protocol 2 none ∷ [] }

abbrev start : Session Tables
start = record { world = two_protocols; sent = [] }

only_first :
    (j : ℕ) (q : ProtocolRow) → get_elem? two_protocols.protocols j ≡ some q → q.id ≡ 1 → j ≡ 0
only_first zero q at same = refl
only_first (suc zero) q at same = ground arith
only_first (suc (suc j)) q at same = ground arith

tick_sticky_example :
    SameWindow 0
      (protocol 1 (some 500))
      (tick text_sdk devnet_config (one_account (to_le_bytes 60 1)) plain_pg alice start).1.world
tick_sticky_example =
    tick_sticky text_sdk devnet_config (one_account (to_le_bytes 60 1)) plain_pg alice
      plain_pg-LawfulPg (λ pk w. refl) start 0 (protocol 1 (some 500)) 500 refl refl only_first

abbrev after_first : Tables
after_first = record no_rows {
  protocols =
      protocol 1 (some 500)
      ∷ record (protocol 2 none) {
        remaining_capacity = some (pos 100);
        capacity_window_start = some 1000;
      }
      ∷ [];
}

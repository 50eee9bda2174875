-- ===== src/Tests/Samples.antt =====
-- Stand-ins for the code that is a parameter: a hash function, addresses and a database.
use keeper_bot.Base.{
  ◌+◌, ◌*◌, ◌/◌, ◌^◌, ◌==◌, leb, ltb, if◌then◌else◌, pos_part, ◌≡◌, refl, none, some, List, [], ◌∷◌,
  ◌++◌, Bytes, codes, from_le_bytes, to_le_bytes, length, length-to_le_bytes, ok,
}
use keeper_bot.Float64.{Float64}
use keeper_bot.Merkle.{Entry}
use keeper_bot.Chain.{Pubkey, Rpc, Sdk}
use keeper_bot.Tables.{Tables}
use keeper_bot.Db.{Pg}
use keeper_bot.Db.Statements.{LawfulPg}

-- The 256 low bits of the input, as a number.
abbrev pub toy_digest : Bytes → Bytes
toy_digest x = to_le_bytes 32 (from_le_bytes x)

pub length-toy_digest : (x : Bytes) → length (toy_digest x) ≡ 32
length-toy_digest x = length-to_le_bytes 32 (from_le_bytes x)

abbrev pub alice : Pubkey
alice = to_le_bytes 32 1

abbrev pub bob : Pubkey
bob = to_le_bytes 32 2

abbrev pub two_entries : List Entry
two_entries = (alice, 5) ∷ (bob, 7) ∷ []

abbrev pub join_seeds : List Bytes → Bytes
join_seeds [] = []
join_seeds (seed ∷ seeds) = seed ++ join_seeds seeds

-- An address is its text, and a derived address the bytes of its seeds.
abbrev pub text_sdk : Sdk
text_sdk = record {
  find_program_address = λ seeds program_id. join_seeds seeds;
  from_str = λ text. some (codes text);
  to_string = λ pk. "address";
}

-- A database that is the whole world, and one that also has no faults.
abbrev pub plain_pg : Pg Tables
plain_pg = record {
  tables = λ t. t;
  put = λ t w. t;
  fault = λ w. none;
  dialect = record { bigint_interval = none; partial_index = none };
}

pub plain_pg-LawfulPg : LawfulPg plain_pg
plain_pg-LawfulPg = record { put-tables = λ w. refl; tables-put = λ t w. refl }

abbrev pub no_rows : Tables
no_rows = record {
  now = 1000;
  users = [];
  user_balances = [];
  merkle_proofs = [];
  rewardz_earnings = [];
  rewardz_root_epochs = [];
  protocols = [];
  protocol_events = [];
  point_events = [];
  abuse_flags = [];
  wallet_weights = [];
  milestones = [];
  milestone_rewards = [];
  subscriptions = [];
  league_leaderboard_snapshots = [];
}

-- A cluster that holds one account's bytes under every address.
abbrev pub one_account : Bytes → Rpc Tables
one_account bytes = record {
  get_account = λ pk w. (ok bytes, w);
  get_account_with_commitment = λ pk w. (ok (some bytes), w);
  get_program_accounts = λ pk filters w. (ok [], w);
  get_slot = λ w. (ok 20, w);
  get_latest_blockhash = λ w. (ok (to_le_bytes 32 3), w);
  send_and_confirm_transaction = λ tx w. (ok "signature", w);
}

-- Fixed-point numbers of ten-thousandths in the place of the floating-point ones.
abbrev pub fixed_point : Float64
fixed_point = record {
  literal = λ n. n;
  of_int = λ a. pos_part a * 10000;
  infinity = 10 ^ 30;
  plus = λ a b. a + b;
  times = λ a b. a * b / 10000;
  over = λ a b. if b == 0 then 0 else a * 10000 / b;
  le = leb;
  lt = ltb;
  ten_thousandths = λ a. a;
}

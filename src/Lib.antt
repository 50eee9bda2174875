-- ===== src/Lib.antt =====
-- The keeper bot: the process that publishes Merkle roots of points and of rewardz on Solana,
-- cranks the mining rounds of the game, and keeps the protocols' capacity rows up to date.
--
-- The parts, with the file of the repository that each models:
--   * Hex: src/hex.rs, lower-case hex text of bytes.
--   * Merkle: src/merkle.rs, the tree over (authority, points), its proofs and the verifier. Levels
--     has the loop, Order and Nodes the facts on pairs and nodes, Proofs is about its proofs,
--     Soundness about the leaves that verify.
--   * RewardzMerkle: src/rewardz_merkle.rs, which has loops of its own and debug assertions. Parity
--     compares it with Merkle, Guards is about the assertions and the proofs.
--   * Chain: the Solana crates' client, addresses and transactions, which the repository only calls.
--     They are records of functions, one for each client; Submits counts
--     transactions, Snapshot is a cluster that does not change.
--   * GameLoop: src/game_loop.rs, from the account parsers to `tick_game_loop`. Crank is about the
--     number of transactions of a tick, Schedule and Due about when it acts.
--   * Tables and Db: the tables that the SQL of the process names, and src/db.rs. A query is a
--     function of the tables; `run_sql` runs it as one transaction that may fail. Ledger is about the
--     record of a publish, Proofs about stored proofs, Statements about `run_sql` itself.
--     Some statements of the process are such that PostgreSQL refuses them when it prepares them;
--     whether the server does is a field of the database.
--   * LeagueConfig: src/league_config.rs, the presets of the league.
--   * Publisher: src/publisher.rs, `publish_root` and its cron.
--   * RewardzPublisher: src/rewardz_publisher.rs, `publish_rewardz_root`, its cron and the readers
--     of the root account. Payload is about the instruction data, Submission about what is
--     submitted, Guards about the cap and the dry run.
--   * StakeWatcher: src/stake_watcher.rs, the mirror of stakes and the unlock of capacity.
--   * CapacityReset: src/capacity_reset.rs, the periodic reset of capacity.
--   * Float64: the arithmetic of f64, of the processor and of the database, as a record of operations.
--   * AntiAbuse: src/anti_abuse.rs, the detectors that raise flags. Flags is about the statement that
--     they share, Totals about a tick from statement to statement, Once about whole
--     ticks.
--   * MilestoneProcessor: src/milestone_processor.rs, the awards. Selection and Insertions are about
--     the two halves of its statement, Awards about the statement, Ticks about a tick, Freeze about
--     a tick of AntiAbuse before one of this.
--   * VisibilityTick: src/visibility_tick.rs, the state machine of the visibility. Decisions is about
--     `decide`, Timeline about the events, Settling about a second tick.
--   * QualityScore: src/quality_score.rs, the scores; Updates is about the rows of the protocols.
--   * Leaderboard: src/leaderboard.rs, the daily ranking; Bonuses is about its keys, Reruns about a
--     second run of a day.
--   * Rental: src/rental.rs, the settlement of rentals, in Settlement.
--   * Subscriptions: src/subscriptions.rs, the poll of subscriptions; Streaks is about their streaks.
--   * Config: src/config.rs, the configuration; Decimal is about its numbers and defaults.
--   * Api: src/api.rs, the handlers `sign_receipt` and `bootstrap_award`, and in RewardzProof
--     `get_rewardz_proof`. Freshness is about the test of timestamps, Receipts about signed
--     receipts, Awards about awarded wallets, Served about served proofs.
--   * Start: src/main.rs, the commands and the tasks that each spawns, with the starters of
--     src/capacity_reset.rs and src/game_loop.rs that do more than spawn. Modes is about what the
--     default command starts.
--   * Base: names and lemmas that the parts share. Tests: concrete inputs.
--
-- How they interact. A session holds the world, in which the cluster and the database are, and the
-- transactions submitted so far; a call that may fail is a function from a session to a result and a
-- session, and `?` of the source is the bind of the do blocks. A `match` on a result that is only
-- logged is `attempt`. The publishers read the database, build a tree with Merkle or RewardzMerkle,
-- submit one instruction, and write proofs or marks back; the stake watcher reads the cluster and
-- writes the protocols' rows; the game loop and the rentals only meet the cluster. AntiAbuse raises
-- flags, which MilestoneProcessor and VisibilityTick read; QualityScore writes the score that
-- VisibilityTick and Leaderboard read; MilestoneProcessor and Leaderboard write the earnings that
-- RewardzPublisher groups and publishes. Db.Invariants has the rules by which a predicate of the
-- tables is kept through a call, whichever of its statements fail.
--
-- Bounds and fuel. The numbers are natural numbers; where the source adds u64 or u128 values the
-- wrap-around of a release build is written out. The loop over the levels of a tree has one round
-- of fuel for each leaf, which is enough because each level has half as many nodes. Byte strings
-- are lists of numbers, and Keccak-256 is an arbitrary function of them.
--
-- Not modelled: log lines, timers and the scheduling of tasks, the connection pool, the router
-- and the JSON shapes of src/api.rs, and the parser of the command line in src/main.rs. The crates
-- rewardz-mvp-api, sha3, solana, sqlx and reqwest are parameters, and so is the schema of the
-- database beyond the columns that the statements name.
mod Base
pub mod Hex
pub mod Merkle
pub mod RewardzMerkle
pub mod Chain
pub mod GameLoop
pub mod Float64
pub mod Tables
pub mod Db
pub mod LeagueConfig
pub mod Publisher
pub mod RewardzPublisher
pub mod StakeWatcher
pub mod CapacityReset
pub mod AntiAbuse
pub mod MilestoneProcessor
pub mod VisibilityTick
pub mod QualityScore
pub mod Leaderboard
pub mod Rental
pub mod Config
pub mod Subscriptions
pub mod Api
pub mod Start
pub mod Tests

-- ===== src/MilestoneProcessor/Freeze.antt =====
-- src/anti_abuse.rs and src/milestone_processor.rs: a tick of the one before a tick of the other.
use keeper_bot.Base.{ℕ, ◌==◌, List}
use keeper_bot.Float64.{Float64}
use keeper_bot.LeagueConfig.{LeagueConfig}
use keeper_bot.Tables.{Tables, EarningRow}
use keeper_bot.Db.{where_rows}
use keeper_bot.AntiAbuse
use keeper_bot.MilestoneProcessor

-- The rows of the earnings of one protocol.
abbrev pub earnings_of : ℕ → List EarningRow → List EarningRow
earnings_of id = where_rows λ (r : EarningRow). r.protocol_id == id

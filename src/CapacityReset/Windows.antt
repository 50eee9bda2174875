-- ===== src/CapacityReset/Windows.antt =====
-- src/capacity_reset.rs: the windows of the protocols after a reset.
use keeper_bot.Base.{ℕ, ◌+◌, ◌*◌, ◌≤◌, ◌≡◌, ◌⊎◌, none, ℤ, Option, some, if◌then◌else◌}
use keeper_bot.LeagueConfig.{LeagueConfig, weekly, yearly}
use keeper_bot.Tables.{Tables, ProtocolRow}
use keeper_bot.CapacityReset.{is_elapsed, reset_row}

module _ (baseline secs : ℤ) (now : ℕ) where
  -- The row that a protocol has after the reset.
  abbrev after_reset : ProtocolRow → ProtocolRow
  after_reset p =
      if is_elapsed now secs p.capacity_window_start then reset_row baseline now p else p

-- The seconds of a window: those of the override, where there is one, and else a week or a year.
abbrev pub IsWindow : Option ℕ → LeagueConfig → ℕ → Type 0
IsWindow (some override) cfg secs = secs ≡ override
IsWindow none cfg secs =
    ((cfg.capacity_reset_cadence ≡ weekly) × (secs ≡ 604800))
    ⊎ ((cfg.capacity_reset_cadence ≡ yearly) × (secs ≡ 31536000))

-- There is no window, or it started at least so many seconds ago, in microseconds.
abbrev pub HasElapsed : ℕ → ℕ → Option ℕ → Type 0
HasElapsed now secs none = Unit
HasElapsed now secs (some start) = start + secs * 1000000 ≤ now

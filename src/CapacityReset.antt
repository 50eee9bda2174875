-- ===== src/CapacityReset.antt =====
-- src/capacity_reset.rs: the cron that refills the capacity of each protocol.
pub mod Windows
use keeper_bot.Base.{
  ℕ, ◌+◌, ◌-◌, ◌*◌, ◌%◌, ◌^◌, ℤ, pos, negsuc, as_i64, Bool, true, Option, none, some, List, [], ◌∷◌,
  if◌then◌else◌, leb, String, Result, ok, err,
}
use keeper_bot.LeagueConfig.{LeagueConfig, ResetCadence, weekly, yearly}
use keeper_bot.Tables.{Tables, ProtocolRow}

abbrev pub cadence_secs : ResetCadence → ℕ
cadence_secs weekly = 7 * 86400
cadence_secs yearly = 365 * 86400

-- The `WHERE`: no window yet, or one that started at least `secs` seconds ago. A window that starts
-- in the future has not elapsed; a column of type TIMESTAMPTZ counts microseconds.
unfoldable pub is_elapsed : ℕ → ℤ → Option ℕ → Bool
is_elapsed now secs none = true
is_elapsed now (pos secs) (some start) = leb (start + secs * 1000000) now
is_elapsed now (negsuc n) (some start) = leb start (now + (n + 1) * 1000000)

-- The new row of a protocol in the `UPDATE`.
abbrev pub reset_row : ℤ → ℕ → ProtocolRow → ProtocolRow
reset_row baseline now p = record p {
  remaining_capacity = some baseline;
  capacity_window_start = some now;
}

-- The rows after the `UPDATE`, and `rows_affected`.
unfoldable pub reset_rows : ℤ → ℤ → ℕ → List ProtocolRow → List ProtocolRow × ℕ
reset_rows baseline secs now [] = ([], 0)
reset_rows baseline secs now (p ∷ ps) =
    let (rest, n) = reset_rows baseline secs now ps in
    if is_elapsed now secs p.capacity_window_start
    then (reset_row baseline now p ∷ rest, n + 1)
    else (p ∷ rest, n)

-- `override_secs` is the value of LEAGUE_CAPACITY_RESET_OVERRIDE_SECS, if it is set.
abbrev pub window_secs : Option ℕ → LeagueConfig → ℕ
window_secs none cfg = cadence_secs cfg.capacity_reset_cadence
window_secs (some override) cfg = override

unfoldable pub reset_capacities : Option ℕ → LeagueConfig → Tables → Result (ℕ × Tables)
unfolding reset_rows
reset_capacities override_secs cfg t =
    let secs = window_secs override_secs cfg in
    let (rows, n) = reset_rows (as_i64 cfg.starter_grant_rewardz) (as_i64 secs) t.now t.protocols in
    ok (n, record t { protocols = rows })

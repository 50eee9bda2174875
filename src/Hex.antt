-- ===== src/Hex.antt =====
-- src/hex.rs: lower-case hex. Text is a list of ASCII codes here.
pub mod RoundTrip
use keeper_bot.Base.{ℕ, ◌+◌, ◌/◌, ◌%◌, List, [], ◌∷◌, ltb, if◌then◌else◌, Bytes}

-- One digit of `{:x}`: `0` to `9` and `a` to `f`.
unfoldable pub hex_digit : ℕ → ℕ
hex_digit n = if ltb n 10 then 48 + n else 87 + n

-- `bytes.iter().map(|b| format!("{b:02x}")).collect()`.
unfoldable pub encode : Bytes → Bytes
unfolding hex_digit
encode [] = []
encode (b ∷ bs) = hex_digit (b / 16) ∷ hex_digit (b % 16) ∷ encode bs

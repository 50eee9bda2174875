-- ===== src/Api/Freshness.antt =====
-- src/api.rs: which timestamps a handler takes as fresh.
use keeper_bot.Base.{
  ℕ, suc, ◌+◌, ◌-◌, ◌^◌, ◌≤◌, ◌<◌, ◌≡◌, ◌↔◌, ◌⊎◌, ℤ, pos, negsuc, ◌-ℤ◌, IsI64, false, arith,
}
use keeper_bot.Api.{wrap_i64, abs_i64, is_expired}

-- At most `ttl` seconds lie between the clock and the timestamp.
abbrev pub IsNear : ℕ → ℤ → ℕ → Type 0
IsNear now (pos n) ttl = (n ≤ now + ttl) × (now ≤ n + ttl)
IsNear now (negsuc n) ttl = now + suc n ≤ ttl

wrap_small : (n : ℕ) → n < 2 ^ 63 → wrap_i64 (pos n) ≡ pos n
unfolding wrap_i64
wrap_small n h = ground arith

wrap_small_neg : (n : ℕ) → n < 2 ^ 63 → wrap_i64 (negsuc n) ≡ negsuc n
unfolding wrap_i64
wrap_small_neg n h = ground arith

wrap_large : (n : ℕ) → 2 ^ 63 ≤ n → n < 2 ^ 64 → wrap_i64 (pos n) ≡ negsuc (2 ^ 64 - 1 - n)
unfolding wrap_i64
wrap_large n h k = ground arith

-- With a clock and a lifetime below 2^62 seconds, a timestamp counts as fresh exactly if it is at
-- most the lifetime away from the clock, or lies exactly 2^63 seconds before it, where the
-- difference wraps to the least `i64`, whose absolute value wraps again.
pub is_expired_iff :
    (now ttl : ℕ) (timestamp : ℤ)
    → now < 2 ^ 62
    → ttl < 2 ^ 62
    → IsI64 timestamp
    → (is_expired (pos now) timestamp (pos ttl) ≡ false)
      ↔ (IsNear now timestamp ttl ⊎ (timestamp ≡ negsuc (2 ^ 63 - 1 - now)))
unfolding is_expired abs_i64 ◌-ℤ◌
is_expired_iff now ttl (pos n) a b c =
    ground (arith, wrap_small (now - n), wrap_small_neg (n - now - 1))
is_expired_iff now ttl (negsuc n) a b c =
    ground (arith, wrap_small (now + suc n), wrap_large (now + suc n))

-- ===== src/Float64.antt =====
-- The `f64` arithmetic of the processor and of the database, which is a parameter: a value is its 64
-- bits.
use keeper_bot.Base.{◌≡◌, ℕ, ℤ, Bool, true}

abbrev pub Double : Type 0
Double = ℕ

-- `literal` is the value nearest to a number of ten-thousandths, `of_int` the one nearest to an
-- integer, and `ten_thousandths` rounds a value that is not negative to four decimals.
pub record Float64 : Type 0 where
  pub literal : ℕ → Double
  pub of_int : ℤ → Double
  pub infinity : Double
  pub plus : Double → Double → Double
  pub times : Double → Double → Double
  pub over : Double → Double → Double
  pub le : Double → Double → Bool
  pub lt : Double → Double → Bool
  pub ten_thousandths : Double → ℕ

-- The order is transitive, which holds also where a NaN is compared: it is below nothing.
abbrev pub IsTransitive : Float64 → Type 0
IsTransitive fl = (x y z : Double) → fl.le x y ≡ true → fl.le y z ≡ true → fl.le x z ≡ true

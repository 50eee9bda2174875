-- ===== src/Hex/RoundTrip.antt =====
-- src/hex.rs: hex text, with a reader of it.
use keeper_bot.Base.{
  ℕ, ◌+◌, ◌-◌, ◌*◌, ◌/◌, ◌%◌, ◌≤◌, ◌<◌, ◌≡◌, refl, ◌∙◌, ◌⊎◌, Option, none, some, [], ◌∷◌, leb,
  if◌then◌else◌, ◌&&◌, Bytes, IsBytes, All, length, arith,
}
use keeper_bot.Hex.{hex_digit, encode}

-- A reader of hex text: `none` for an odd length or another character.
digit_value : ℕ → Option ℕ
digit_value c =
    if leb 48 c && leb c 57
    then some (c - 48)
    else if leb 97 c && leb c 102
    then some (c - 87)
    else none

join_digits : Option ℕ → Option ℕ → Option Bytes → Option Bytes
join_digits (some hi) (some lo) (some rest) = some ((hi * 16 + lo) ∷ rest)
join_digits _ _ _ = none

pub decode : Bytes → Option Bytes
unfolding digit_value join_digits
decode [] = some []
decode (c ∷ []) = none
decode (c ∷ d ∷ rest) = join_digits (digit_value c) (digit_value d) (decode rest)

digit_value-hex_digit : (n : ℕ) → n < 16 → digit_value (hex_digit n) ≡ some n
unfolding digit_value hex_digit
digit_value-hex_digit n h = ground arith

join_digits-some :
    (hi lo : ℕ) (rest : Bytes) {a b : Option ℕ} {c : Option Bytes}
    → a ≡ some hi
    → b ≡ some lo
    → c ≡ some rest
    → join_digits a b c ≡ some ((hi * 16 + lo) ∷ rest)
unfolding join_digits
join_digits-some hi lo rest p q r = ground arith

-- Encoded bytes are read back, so two byte strings with one text are equal.
decode-encode : (bytes : Bytes) → IsBytes bytes → decode (encode bytes) ≡ some bytes
unfolding decode encode
decode-encode [] h = refl
decode-encode (b ∷ bs) (hb, h) =
    join_digits-some (b / 16) (b % 16) bs (digit_value-hex_digit (b / 16) (omega arith))
      (digit_value-hex_digit (b % 16) (omega arith)) (decode-encode bs h)
    ∙ ground arith

-- A digit `0` to `9` or a letter `a` to `f`.
abbrev pub IsLowerHex : ℕ → Type 0
IsLowerHex c = (48 ≤ c) × (c ≤ 57) ⊎ (97 ≤ c) × (c ≤ 102)

-- The text has two characters for each byte, and each is a lower-case hex digit.
pub encode_shape :
    (bytes : Bytes)
    → IsBytes bytes
    → (length (encode bytes) ≡ 2 * length bytes) × All IsLowerHex (encode bytes)
unfolding encode hex_digit
encode_shape [] h = (omega arith, tt)
encode_shape (b ∷ bs) (hb, h) =
    let (len, rest) = encode_shape bs h in (omega arith, (ground arith, (ground arith, rest)))

-- ===== src/Base/Sorting.antt =====
-- A stable sort by a key that is compared as text, and what it keeps.
use mathlib.Core.List.{List, [], ◌∷◌}
use keeper_bot.Base.Tests.{if◌then◌else◌}
use keeper_bot.Base.ByteStrings.{Bytes, bytes_le}

module _ {ℓ} {A : Type ℓ} where
  unfoldable pub sort_insert : (A → Bytes) → A → List A → List A
  sort_insert key a [] = a ∷ []
  sort_insert key a (b ∷ bs) =
      let further = b ∷ sort_insert key a bs in
      if bytes_le (key a) (key b) then a ∷ b ∷ bs else further

  unfoldable pub sort_by_key : (A → Bytes) → List A → List A
  unfolding sort_insert
  sort_by_key key [] = []
  sort_by_key key (a ∷ rest) = sort_insert key a (sort_by_key key rest)

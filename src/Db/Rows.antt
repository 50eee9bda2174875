-- ===== src/Db/Rows.antt =====
-- src/db.rs: rows that a `WHERE` selects, and the ids of the protocols.
use mathlib.Core.Option.{some-injective}
use keeper_bot.Base.{
  Bool-cases, inl, inr, ℕ, zero, suc, ◌≡◌, refl, sym, ◌∙◌, ap, ◌≢◌, Bool, true, false, Option, some,
  List, [], ◌∷◌, ◌++◌, All, get_elem?, arith,
}
use keeper_bot.Tables.{ProtocolRow}
use keeper_bot.Db.{where_rows}

-- The column `id` is a key.
abbrev pub DistinctIds : List ProtocolRow → Type 0
DistinctIds [] = Unit
DistinctIds (p ∷ ps) = All (λ q. q.id ≢ p.id) ps × DistinctIds ps

module _ {ℓ} {A : Type ℓ} where
  pub where_rows-none :
      (c : A → Bool) (xs : List A) → All (λ x. c x ≡ false) xs → where_rows c xs ≡ []
  where_rows-none c [] none_selected = refl
  where_rows-none c (x ∷ xs) (passed, none_selected) =
      ground (arith, passed, where_rows-none c xs none_selected)

  pub where_rows-yes :
      (c : A → Bool) (x : A) (xs : List A)
      → c x ≡ true
      → where_rows c (x ∷ xs) ≡ x ∷ where_rows c xs
  where_rows-yes c x xs h = rw h refl

  pub where_rows-no :
      (c : A → Bool) (x : A) (xs : List A) → c x ≡ false → where_rows c (x ∷ xs) ≡ where_rows c xs
  where_rows-no c x xs h = rw h refl

  pub All-where_rows {κ} :
      (P : A → Type κ) (c : A → Bool) (xs : List A) → All P xs → All P (where_rows c xs)
  All-where_rows P c [] all = tt
  All-where_rows P c (x ∷ xs) (here, all) = elim (Bool-cases (c x)) [
    | inl selected ↦ rw selected (here, All-where_rows P c xs all)
    | inr passed ↦ rw passed (All-where_rows P c xs all)
  ]

  get_elem?-eq :
      (i : ℕ) {xs ys : List A} {o : Option A} → xs ≡ ys → get_elem? xs i ≡ o → get_elem? ys i ≡ o
  get_elem?-eq i same at = ap (λ zs. get_elem? zs i) (sym same) ∙ at

  pub where_rows-append :
      (c : A → Bool) (xs ys : List A) → where_rows c (xs ++ ys) ≡ where_rows c xs ++ where_rows c ys
  where_rows-append c [] ys = refl
  where_rows-append c (x ∷ xs) ys = ground (arith, where_rows-append c xs ys)

  -- A selected row is a row that the condition holds of.
  pub where_rows-at :
      (c : A → Bool) (xs : List A) (i : ℕ) (x : A)
      → get_elem? (where_rows c xs) i ≡ some x
      → (j : ℕ) × (get_elem? xs j ≡ some x) × (c x ≡ true)
  where_rows-at c [] i x at = cc
  where_rows-at c (y ∷ ys) i x at = elim (Bool-cases (c y)) [
    | inl selected ↦
        at_selected i (get_elem?-eq i (where_rows-yes c y ys selected) at) selected
          (λ k. where_rows-at c ys k x)
    | inr passed ↦
        let (j, here, holds) =
          where_rows-at c ys i x (get_elem?-eq i (where_rows-no c y ys passed) at) in
        (suc j, here, holds)
  ]
    where
      at_selected :
          (k : ℕ)
          → get_elem? (y ∷ where_rows c ys) k ≡ some x
          → c y ≡ true
          → ((k : ℕ)
              → get_elem? (where_rows c ys) k ≡ some x
              → (j : ℕ) × (get_elem? ys j ≡ some x) × (c x ≡ true))
          → (j : ℕ) × (get_elem? (y ∷ ys) j ≡ some x) × (c x ≡ true)
      at_selected zero at selected rest = (0, at, ap c (sym (some-injective y x at)) ∙ selected)
      at_selected (suc k) at selected rest =
          let (j, here, holds) = rest k at in (suc j, here, holds)

  pub append-nil : (xs : List A) → xs ++ [] ≡ xs
  append-nil [] = refl
  append-nil (x ∷ xs) = ap (◌∷◌ x) (append-nil xs)

  pub append-append : (xs ys zs : List A) → (xs ++ ys) ++ zs ≡ xs ++ (ys ++ zs)
  append-append [] ys zs = refl
  append-append (x ∷ xs) ys zs = ap (◌∷◌ x) (append-append xs ys zs)

pub DistinctIds-at :
    (q : ProtocolRow) (ps : List ProtocolRow) (i : ℕ) (p : ProtocolRow)
    → All (λ r. r.id ≢ q.id) ps
    → get_elem? ps i ≡ some p
    → p.id ≢ q.id
DistinctIds-at q [] i p away at = cc
DistinctIds-at q (r ∷ ps) zero p (ne, away) at = ground (arith, ne)
DistinctIds-at q (r ∷ ps) (suc i) p (ne, away) at = DistinctIds-at q ps i p away at

pub DistinctIds-same :
    (ps : List ProtocolRow) (i j : ℕ) (p q : ProtocolRow)
    → DistinctIds ps
    → get_elem? ps i ≡ some p
    → get_elem? ps j ≡ some q
    → q.id ≡ p.id
    → q ≡ p
DistinctIds-same [] i j p q distinct at at' same = cc
DistinctIds-same (r ∷ ps) zero zero p q distinct at at' same =
    sym (some-injective r q at') ∙ some-injective r p at
DistinctIds-same (r ∷ ps) zero (suc j) p q (away, distinct) at at' same =
    absurd (ground (arith, DistinctIds-at r ps j q away at', same))
DistinctIds-same (r ∷ ps) (suc i) zero p q (away, distinct) at at' same =
    absurd (ground (arith, DistinctIds-at r ps i p away at, same))
DistinctIds-same (r ∷ ps) (suc i) (suc j) p q (away, distinct) at at' same =
    DistinctIds-same ps i j p q distinct at at' same

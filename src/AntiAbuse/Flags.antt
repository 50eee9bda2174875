-- ===== src/AntiAbuse/Flags.antt =====
-- src/anti_abuse.rs: which flags are open after one of the statements.
use mathlib.Core.Path.{subst}
use keeper_bot.Base.{
  ℕ, zero, suc, ◌≡◌, refl, ◌≢◌, sym, inl, inr, Bool, true, false, ◌&&◌, ◌||◌, some, List, [], ◌∷◌,
  ◌++◌, map, All, All-of_get_elem?, get_elem?, String, str_eq, str_eq_iff, ok, arith, Bool-cases,
}
use keeper_bot.Tables.{Tables, ProtocolRow, AbuseFlagRow, Json}
use keeper_bot.Db.{where_rows, is_null}
use keeper_bot.Db.Rows.{DistinctIds, DistinctIds-at, append-nil, where_rows-none}
use keeper_bot.AntiAbuse.{has_open_flag, is_flagged, flag_of, insert_flags}

-- A kind and a protocol have at most one open flag.
abbrev pub OneOpen : List AbuseFlagRow → Type 0
OneOpen [] = Unit
OneOpen (f ∷ fs) =
    (is_null f.resolved_at ≡ true → has_open_flag f.kind f.protocol_id fs ≡ false) × OneOpen fs

pub has_open_flag-append :
    (kind : String) (id : ℕ) (xs ys : List AbuseFlagRow)
    → has_open_flag kind id (xs ++ ys) ≡ (has_open_flag kind id xs || has_open_flag kind id ys)
has_open_flag-append kind id [] ys = refl
has_open_flag-append kind id (x ∷ xs) ys = ground (arith, has_open_flag-append kind id xs ys)

-- An open flag of `ys` is of a kind and a protocol that have none in `xs`.
abbrev Fresh : List AbuseFlagRow → List AbuseFlagRow → Type 0
Fresh xs = All λ y. has_open_flag y.kind y.protocol_id xs ≡ false

Fresh-tail : (x : AbuseFlagRow) (xs ys : List AbuseFlagRow) → Fresh (x ∷ xs) ys → Fresh xs ys
Fresh-tail x xs [] fresh = tt
Fresh-tail x xs (y ∷ ys) (f, fresh) = (ground (arith, f), Fresh-tail x xs ys fresh)

Fresh-head :
    (x : AbuseFlagRow) (xs ys : List AbuseFlagRow)
    → Fresh (x ∷ xs) ys
    → is_null x.resolved_at ≡ true
    → has_open_flag x.kind x.protocol_id ys ≡ false
Fresh-head x xs [] fresh unresolved = refl
Fresh-head x xs (y ∷ ys) (f, fresh) unresolved =
    ground (
      arith,
      str_eq_iff x.kind y.kind,
      str_eq_iff y.kind x.kind,
      Fresh-head x xs ys fresh unresolved,
    )

OneOpen-append :
    (xs ys : List AbuseFlagRow) → OneOpen xs → OneOpen ys → Fresh xs ys → OneOpen (xs ++ ys)
OneOpen-append [] ys one_xs one_ys fresh = one_ys
OneOpen-append (x ∷ xs) ys (only, one_xs) one_ys fresh = (
  λ unresolved. ground (
    arith,
    has_open_flag-append x.kind x.protocol_id xs ys,
    only unresolved,
    Fresh-head x xs ys fresh unresolved,
  ),
  OneOpen-append xs ys one_xs one_ys (Fresh-tail x xs ys fresh),
)

module _ (kind : String) (describe : ProtocolRow → String × List (String × Json)) where
  flags-absent :
      (c : ProtocolRow → Bool) (kind' : String) (id : ℕ) (ps : List ProtocolRow)
      → All (λ q. q.id ≢ id) ps
      → has_open_flag kind' id (map (flag_of kind describe) (where_rows c ps)) ≡ false
  flags-absent c kind' id [] away = refl
  flags-absent c kind' id (p ∷ ps) (ne, away) = elim (Bool-cases (c p)) [
    | inl selected ↦ rw selected (ground (arith, ne, flags-absent c kind' id ps away))
    | inr passed ↦ rw passed (flags-absent c kind' id ps away)
  ]

  -- The flags that a statement inserts, as they are seen.
  flags-open :
      (c : ProtocolRow → Bool) (kind' : String) (ps : List ProtocolRow) (i : ℕ) (p : ProtocolRow)
      → DistinctIds ps
      → get_elem? ps i ≡ some p
      → has_open_flag kind' p.id (map (flag_of kind describe) (where_rows c ps))
        ≡ (str_eq kind kind' && c p)
  flags-open c kind' [] i p distinct at = cc
  flags-open c kind' (q ∷ ps) zero p (away, distinct) at =
      let same : q ≡ p = ground arith in
      rw (sym same) (elim (Bool-cases (c q)) [
        | inl selected ↦ rw (selected, flags-absent c kind' q.id ps away) (ground arith)
        | inr passed ↦ rw (passed, flags-absent c kind' q.id ps away) (ground arith)
      ])
  flags-open c kind' (q ∷ ps) (suc i) p (away, distinct) at =
      let rest = flags-open c kind' ps i p distinct at in
      let other = DistinctIds-at q ps i p away at in
      elim (Bool-cases (c q)) [
        | inl selected ↦ rw selected (ground (arith, rest, other))
        | inr passed ↦ rw passed rest
      ]

  flags-OneOpen :
      (c : ProtocolRow → Bool) (ps : List ProtocolRow)
      → DistinctIds ps
      → OneOpen (map (flag_of kind describe) (where_rows c ps))
  flags-OneOpen c [] distinct = tt
  flags-OneOpen c (p ∷ ps) (away, distinct) = elim (Bool-cases (c p)) [
    | inl selected ↦
        rw selected (λ unresolved. flags-absent c kind p.id ps away, flags-OneOpen c ps distinct)
    | inr passed ↦ rw passed (flags-OneOpen c ps distinct)
  ]

  flags-Fresh :
      (selects : ProtocolRow → Bool) (flags : List AbuseFlagRow) (ps : List ProtocolRow)
      → Fresh flags (map (flag_of kind describe) (where_rows (is_flagged kind selects flags) ps))
  flags-Fresh selects flags [] = tt
  flags-Fresh selects flags (p ∷ ps) = elim (Bool-cases (is_flagged kind selects flags p)) [
    | inl selected ↦ rw selected (ground (arith, selected), flags-Fresh selects flags ps)
    | inr passed ↦ rw passed (flags-Fresh selects flags ps)
  ]

  module _ (selects : ProtocolRow → Bool) where
    pub insert_flags-OneOpen :
        (t t' : Tables) (n : ℕ)
        → insert_flags kind selects describe t ≡ ok (n, t')
        → DistinctIds t.protocols
        → OneOpen t.abuse_flags
        → DistinctIds t'.protocols × OneOpen t'.abuse_flags
    unfolding insert_flags
    insert_flags-OneOpen t t' n e distinct one =
        let flagged = where_rows (is_flagged kind selects t.abuse_flags) t.protocols in
        let rows : t.abuse_flags ++ map (flag_of kind describe) flagged ≡ t'.abuse_flags =
          ground arith in
        let same : t.protocols ≡ t'.protocols = ground arith in
        (
          subst DistinctIds same distinct,
          subst OneOpen rows (
              OneOpen-append t.abuse_flags (map (flag_of kind describe) flagged) one
                (flags-OneOpen (is_flagged kind selects t.abuse_flags) t.protocols distinct)
                (flags-Fresh selects t.abuse_flags t.protocols)),
        )

    -- Where each active and selected protocol has an open flag, nothing is inserted.
    pub insert_flags_again :
        (t : Tables) (before : List AbuseFlagRow) {signal : ProtocolRow → Bool}
        → ((p : ProtocolRow) → selects p ≡ true → signal p ≡ true)
        → ((i : ℕ) (p : ProtocolRow)
            → get_elem? t.protocols i ≡ some p
            → has_open_flag kind p.id t.abuse_flags
              ≡ (has_open_flag kind p.id before || str_eq p.status "active" && signal p))
        → insert_flags kind selects describe t ≡ ok (0, t)
    unfolding insert_flags
    insert_flags_again t before {signal} selected opened =
        let settled : All (λ p. is_flagged kind selects t.abuse_flags p ≡ false) t.protocols =
          All-of_get_elem? t.protocols λ i p at. ground (arith, opened i p at, selected p) in
        ground (arith, where_rows-none _ t.protocols settled, append-nil t.abuse_flags)

    -- A flag is open after the statement if it was before, or if it is of the kind of the statement
    -- and the protocol is active and selected.
    pub insert_flags_refines :
        (t : Tables)
        → DistinctIds t.protocols
        → (n : ℕ) × (flags : List AbuseFlagRow) × (insert_flags kind selects describe t
            ≡ ok (n, record t { abuse_flags = flags }))
          × ((i : ℕ) (p : ProtocolRow) (kind' : String)
              → get_elem? t.protocols i ≡ some p
              → has_open_flag kind' p.id flags ≡ (
                  has_open_flag kind' p.id t.abuse_flags
                  || str_eq kind kind' && str_eq p.status "active" && selects p))
    unfolding insert_flags
    insert_flags_refines t distinct =
        let flagged = where_rows (is_flagged kind selects t.abuse_flags) t.protocols in
        (
          _,
          _,
          refl,
          λ i p kind' at. ground (
            arith,
            has_open_flag-append kind' p.id t.abuse_flags (map (flag_of kind describe) flagged),
            flags-open (is_flagged kind selects t.abuse_flags) kind' t.protocols i p distinct at,
            str_eq_iff kind kind',
          ),
        )

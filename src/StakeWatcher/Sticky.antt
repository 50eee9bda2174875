-- ===== src/StakeWatcher/Sticky.antt =====
-- src/stake_watcher.rs: the capacity window of a protocol that was unlocked, through a tick.
use mathlib.Core.Option
use keeper_bot.Base.{
  ℕ, zero, suc, ◌+◌, ◌≡◌, refl, sym, ap, ◌∙◌, inl, inr, ℤ, pos, Bool, true, false, not, ◌&&◌,
  Option, none, some, List, [], ◌∷◌, map, get_elem?, get_elem?-map, All, ltb, min, Result, ok, err,
  arith, Bool-cases, Option-cases,
}
use keeper_bot.Chain.{Pubkey, Rpc, Sdk, Session, Io, ask}
use keeper_bot.LeagueConfig.{LeagueConfig}
use keeper_bot.Tables
use keeper_bot.Tables.{Tables}
use keeper_bot.Db.{Pg, where_rows, is_null}
use keeper_bot.Db.Invariants.{
  Keeps, after_read, Keeps-ask, Keeps-attempt, Keeps-bind, Keeps-if, Keeps-lift, Keeps-pure,
  Keeps-run_sql,
}
use keeper_bot.Db.Statements.{LawfulPg}
use keeper_bot.StakeWatcher.{
  ProtocolRow, protocol_row, unlocks, load_protocols, is_stake, mirror_row, unlock_row, i64_max,
  new_capacity_of, sample_statement, read_active_stake, apply_sample, apply_stake, sample_one,
  sample_all, tick,
}

-- The row at `i` is the protocol `p` with the capacity and the window that `p` has.
abbrev pub SameWindow : ℕ → Tables.ProtocolRow → Tables → Type 0
SameWindow i p t =
    (q : Tables.ProtocolRow) × (get_elem? t.protocols i ≡ some q)
    × (q.id ≡ p.id)
    × (q.remaining_capacity ≡ p.remaining_capacity)
    × (q.capacity_window_start ≡ p.capacity_window_start)
    × (q.capacity_unlocked_at ≡ p.capacity_unlocked_at)

-- The client of the cluster does not touch the database.
module _ {World : Type 0} where
  abbrev pub Separate : Rpc World → Pg World → Type 0
  Separate rpc pg =
      (pk : Pubkey) (w : World) → pg.tables (rpc.get_account_with_commitment pk w).1 ≡ pg.tables w

-- What the loop knows of a listed protocol.
abbrev Listed : Tables.ProtocolRow → ProtocolRow → Type 0
Listed p proto = proto.id ≡ p.id → proto.already_unlocked ≡ true

module _ (i : ℕ) (p : Tables.ProtocolRow) where
  -- A row-wise UPDATE that keeps the window of the protocol.
  SameWindow-map :
      (f : Tables.ProtocolRow → Tables.ProtocolRow) (t t' : Tables)
      → t'.protocols ≡ map f t.protocols
      → ((q : Tables.ProtocolRow)
          → q.id ≡ p.id
          → ((f q).id ≡ q.id)
            × ((f q).remaining_capacity ≡ q.remaining_capacity)
            × ((f q).capacity_window_start ≡ q.capacity_window_start)
            × ((f q).capacity_unlocked_at ≡ q.capacity_unlocked_at))
      → SameWindow i p t
      → SameWindow i p t'
  SameWindow-map f t t' e keep (q, at, same, r, w, u) =
      let (id, r', w', u') = keep q same in
      (
        f q,
        ap (λ rows. get_elem? rows i) e ∙ get_elem?-map f t.protocols i ∙ ap (Option.map f) at,
        id ∙ same,
        r' ∙ r,
        w' ∙ w,
        u' ∙ u,
      )

  sample_statement-SameWindow :
      (cfg : LeagueConfig) (protocol_id observed : ℕ) (first : Bool) (t t' : Tables)
      → (protocol_id ≡ p.id → first ≡ false)
      → sample_statement cfg protocol_id observed first t ≡ ok (tt, t')
      → SameWindow i p t
      → SameWindow i p t'
  unfolding sample_statement
  sample_statement-SameWindow cfg protocol_id observed false t t' once e h =
      SameWindow-map (mirror_row protocol_id (pos (min observed i64_max))) t t' (ground arith)
        (λ q same. ground arith) h
  sample_statement-SameWindow cfg protocol_id observed true t t' once e h =
      SameWindow-map (unlock_row t.now protocol_id (pos (new_capacity_of cfg observed)))
        (record t {
          protocols = map (mirror_row protocol_id (pos (min observed i64_max))) t.protocols;
        })
        t' (ground arith) (λ q same. ground (arith, once))
        (SameWindow-map (mirror_row protocol_id (pos (min observed i64_max))) t
          (record t {
            protocols = map (mirror_row protocol_id (pos (min observed i64_max))) t.protocols;
          })
          refl (λ q same. ground arith) h)

module _ {World : Type 0} (rpc : Rpc World) (pg : Pg World) (law : LawfulPg pg)
    (apart : Separate rpc pg) (i : ℕ) (p : Tables.ProtocolRow) where
  -- The call leaves the window of the protocol as it is.
  abbrev KeepsWindow : {A : Type 0} → Io World A → Type 0
  KeepsWindow = Keeps pg (SameWindow i p)

  Keeps-get_account : (pk : Pubkey) → KeepsWindow (ask (rpc.get_account_with_commitment pk))
  Keeps-get_account pk =
      Keeps-ask pg (SameWindow i p) (rpc.get_account_with_commitment pk) (apart pk)

  module _ (sdk : Sdk) (cfg : LeagueConfig) (program_id : Pubkey) where
    apply_sample-Keeps :
        (protocol_id observed : ℕ) (prev : Option ℤ) (already : Bool)
        → (protocol_id ≡ p.id → already ≡ true)
        → KeepsWindow (apply_sample sdk cfg rpc pg protocol_id observed prev already)
    unfolding apply_sample
    apply_sample-Keeps protocol_id observed prev already once =
        Keeps-if pg (SameWindow i p)
          (not (ltb 0 observed && not already) && is_stake prev (pos (min observed i64_max))) _ _
          (Keeps-pure pg (SameWindow i p) false)
          (Keeps-bind pg (SameWindow i p) _ _
            (Keeps-run_sql pg (SameWindow i p) law _ λ t t' a.
              sample_statement-SameWindow i p cfg protocol_id observed _ t t'
                (λ e. ground (arith, once e)))
            λ done. Keeps-pure pg (SameWindow i p) _)

    apply_stake-Keeps :
        (proto : ProtocolRow) (r : Result (Option ℕ))
        → Listed p proto
        → KeepsWindow (apply_stake sdk cfg rpc pg proto r)
    unfolding apply_stake
    apply_stake-Keeps proto (ok (some stake)) listed =
        Keeps-bind pg (SameWindow i p) _ _
          (Keeps-attempt pg (SameWindow i p) _
            (apply_sample-Keeps proto.id stake proto.active_stake proto.already_unlocked listed))
          λ applied. Keeps-pure pg (SameWindow i p) (1, unlocks applied)
    apply_stake-Keeps proto (ok none) listed = Keeps-pure pg (SameWindow i p) _
    apply_stake-Keeps proto (err e) listed = Keeps-pure pg (SameWindow i p) _

    read_active_stake-Keeps :
        (authority : Pubkey) → KeepsWindow (read_active_stake sdk cfg rpc pg program_id authority)
    unfolding read_active_stake
    read_active_stake-Keeps authority =
        Keeps-bind pg (SameWindow i p) _ _ (Keeps-get_account _)
          λ account. Keeps-lift pg (SameWindow i p) _

    sample_one-Keeps :
        (proto : ProtocolRow)
        → Listed p proto
        → KeepsWindow (sample_one sdk cfg rpc pg program_id proto)
    unfolding sample_one
    sample_one-Keeps proto listed = elim (Option-cases (sdk.from_str proto.admin_wallet)) [
      | inl bad ↦ rw (bad, sample_one) (Keeps-pure pg (SameWindow i p) _)
      | inr (authority, e) ↦
          rw (e, sample_one)
            (Keeps-bind pg (SameWindow i p) _ _
              (Keeps-attempt pg (SameWindow i p) _ (read_active_stake-Keeps authority))
              λ stake. apply_stake-Keeps proto stake listed)
    ]

    sample_all-Keeps :
        (protocols : List ProtocolRow) (observed unlocked : ℕ)
        → All (Listed p) protocols
        → KeepsWindow (sample_all sdk cfg rpc pg program_id protocols observed unlocked)
    unfolding sample_all
    sample_all-Keeps [] observed unlocked listed = Keeps-pure pg (SameWindow i p) _
    sample_all-Keeps (proto ∷ protocols) observed unlocked (l, listed) =
        Keeps-bind pg (SameWindow i p) _ _ (sample_one-Keeps proto l)
          λ (seen, opened). sample_all-Keeps protocols (observed + seen) (unlocked + opened) listed

-- Every row with the id of an unlocked protocol is listed as unlocked.
Listed-rows :
    (p : Tables.ProtocolRow) (c : Tables.ProtocolRow → Bool) (ps : List Tables.ProtocolRow)
    → ((j : ℕ) (q : Tables.ProtocolRow)
        → get_elem? ps j ≡ some q
        → q.id ≡ p.id
        → is_null q.capacity_unlocked_at ≡ false)
    → All (Listed p) (map protocol_row (where_rows c ps))
Listed-rows p c [] unlocked = tt
Listed-rows p c (q ∷ ps) unlocked =
    let rest = Listed-rows p c ps λ j. unlocked (suc j) in
    elim (Bool-cases (c q)) [
      | inl yes_listed ↦ rw yes_listed (λ same. ground (arith, unlocked zero q refl same), rest)
      | inr not_listed ↦ rw not_listed rest
    ]

module _ {World : Type 0} (sdk : Sdk) (cfg : LeagueConfig) (rpc : Rpc World) (pg : Pg World)
    (program_id : Pubkey) where
  -- If the ids of the protocols are distinct, then a tick, whatever the cluster answers for the
  -- stakes and whichever statements fail, leaves a protocol that was unlocked before with the
  -- capacity, the window and the mark that it had: unstaking and staking again refills nothing.
  pub tick_sticky :
      LawfulPg pg
      → Separate rpc pg
      → (s : Session World) (i : ℕ) (p : Tables.ProtocolRow) (unlocked_at : ℕ)
      → get_elem? (pg.tables s.world).protocols i ≡ some p
      → p.capacity_unlocked_at ≡ some unlocked_at
      → ((j : ℕ) (q : Tables.ProtocolRow)
          → get_elem? (pg.tables s.world).protocols j ≡ some q
          → q.id ≡ p.id
          → j ≡ i)
      → SameWindow i p (pg.tables (tick sdk cfg rpc pg program_id s).1.world)
  unfolding tick load_protocols
  tick_sticky law apart s i p unlocked_at at unlocked distinct =
      after_read pg (SameWindow i p) law load_protocols _
        (λ protocols. sample_all sdk cfg rpc pg program_id protocols 0 0) s refl
        (sample_all-Keeps rpc pg law apart i p sdk cfg program_id _ 0 0 (
          Listed-rows p (λ q. not (is_null q.referral_code)) (pg.tables s.world).protocols
            λ j q here same.
              let at_i : get_elem? (pg.tables s.world).protocols i ≡ some q =
                ap (get_elem? (pg.tables s.world).protocols) (sym (distinct j q here same))
                ∙ here in
              ground (arith, unlocked)))
        (p, at, refl, refl, refl, refl)

-- ===== src/VisibilityTick/Settling.antt =====
-- src/visibility_tick.rs: what a tick leaves to do for the next one.
use mathlib.Core.Option.{some-injective}
use mathlib.Core.Path.{subst}
use keeper_bot.Base.{
  ℕ, zero, suc, ◌+◌, ◌≡◌, refl, sym, ◌∙◌, ap, ◌⊎◌, inl, inr, Bool, true, false, none, some, List,
  [], ◌∷◌, ◌++◌, map, All, All-of_get_elem?, get_elem?, ◌==◌, String, str_eq, ok, arith, Bool-cases,
}
use keeper_bot.Float64.{Float64}
use keeper_bot.LeagueConfig.{LeagueConfig}
use keeper_bot.Chain.{Session}
use keeper_bot.Tables.{Tables, ProtocolRow}
use keeper_bot.Db.{Pg, where_rows}
use keeper_bot.Db.Rows.{DistinctIds, where_rows-at, DistinctIds-same}
use keeper_bot.Db.Statements.{LawfulPg, run_sql-ok, run_sql-read}
use keeper_bot.VisibilityTick.{
  Visibility, active, at_risk, hidden, Snapshot, from_db, as_db, same_visibility, set_visibility,
  change_event, transition_statement, decide, snapshot_of, load_snapshots, apply_transition,
  apply_all, tick,
}
use keeper_bot.VisibilityTick.Decisions.{from_db-as_db}

same_visibility_refl : (v : Visibility) → same_visibility v v ≡ true
same_visibility_refl active = refl
same_visibility_refl at_risk = refl
same_visibility_refl hidden = refl

module _ (fl : Float64) (cfg : LeagueConfig) (t₀ : Tables) where
  -- The visibility that a row should have.
  abbrev target : ProtocolRow → Visibility
  target p = decide fl cfg (snapshot_of fl cfg t₀ p)

  abbrev Settled : ProtocolRow → Type 0
  Settled p =
      str_eq p.status "active" ≡ true → same_visibility (target p) (from_db p.visibility) ≡ true

  abbrev Pending : List Snapshot → ProtocolRow → Type 0
  Pending [] p = ⊥
  Pending (snap ∷ snaps) p = (snap ≡ snapshot_of fl cfg t₀ p) ⊎ Pending snaps p

  -- What holds of a row while these snapshots are left: it is settled or its snapshot is among them,
  -- and a snapshot of its id leads to its target.
  abbrev Leads : ProtocolRow → Snapshot → Type 0
  Leads p snap = snap.protocol_id ≡ p.id → decide fl cfg snap ≡ target p

  abbrev Left : List Snapshot → ProtocolRow → Type 0
  Left snaps p = (Settled p ⊎ Pending snaps p) × All (Leads p) snaps

  target-visibility :
      (p : ProtocolRow) (v : String) → target (record p { visibility = v }) ≡ target p
  unfolding decide
  target-visibility p v = refl

  Left-skip :
      (snap : Snapshot) (snaps : List Snapshot) (p : ProtocolRow)
      → same_visibility (decide fl cfg snap) snap.current ≡ true
      → Left (snap ∷ snaps) p
      → Left snaps p
  Left-skip snap snaps p same (inl settled, (_, leads)) = (inl settled, leads)
  Left-skip snap snaps p same (inr (inl e), (_, leads)) = (
    inl λ is_active. subst (λ s. same_visibility (decide fl cfg s) s.current ≡ true) e same,
    leads,
  )
  Left-skip snap snaps p same (inr (inr pending), (_, leads)) = (inr pending, leads)

  Leads-visibility :
      (p : ProtocolRow) (v : String) (snaps : List Snapshot)
      → All (Leads p) snaps
      → All (Leads (record p { visibility = v })) snaps
  Leads-visibility p v [] leads = tt
  Leads-visibility p v (snap ∷ snaps) (here, leads) =
      (λ e. here e ∙ sym (target-visibility p v), Leads-visibility p v snaps leads)

  Left-apply :
      (snap : Snapshot) (snaps : List Snapshot) (p : ProtocolRow)
      → Left (snap ∷ snaps) p
      → Left snaps (set_visibility snap.protocol_id (as_db (decide fl cfg snap)) p)
  unfolding decide
  Left-apply snap snaps p (status, (here, leads)) = elim (Bool-cases (p.id == snap.protocol_id)) [
    | inl hit ↦
        let next = decide fl cfg snap in
        let settled : same_visibility (target (record p { visibility = as_db next }))
              (from_db (as_db next))
            ≡ true =
          rw (from_db-as_db next, sym (here (key_id hit))) (same_visibility_refl next) in
        rw hit (inl λ is_active. settled, Leads-visibility p (as_db next) snaps leads)
    | inr miss ↦ rw miss (still status miss, leads)
  ]
    where
      key_id : {a b : ℕ} → (a == b) ≡ true → b ≡ a
      key_id h = ground (arith, h)

      still :
          Settled p ⊎ Pending (snap ∷ snaps) p
          → (p.id == snap.protocol_id) ≡ false
          → Settled p ⊎ Pending snaps p
      still (inl settled) miss = inl settled
      still (inr (inl e)) miss = absurd (ground (arith, miss, ap (λ s. s.protocol_id) e))
      still (inr (inr pending)) miss = inr pending

  All-Left :
      (P Q : ProtocolRow → Type 0) (ps : List ProtocolRow)
      → ((p : ProtocolRow) → P p → Q p)
      → All P ps
      → All Q ps
  All-Left P Q [] f all = tt
  All-Left P Q (p ∷ ps) f (here, all) = (f p here, All-Left P Q ps f all)

  All-Left-map :
      (P Q : ProtocolRow → Type 0) (g : ProtocolRow → ProtocolRow) (ps : List ProtocolRow)
      → ((p : ProtocolRow) → P p → Q (g p))
      → All P ps
      → All Q (map g ps)
  All-Left-map P Q g [] f all = tt
  All-Left-map P Q g (p ∷ ps) f (here, all) = (f p here, All-Left-map P Q g ps f all)

  done_of : (p : ProtocolRow) → Left [] p → Settled p
  done_of p (inl settled, _) = settled
  done_of p (inr pending, _) = absurd pending

  -- The columns that a decision reads, beside the row, are as they were.
  abbrev Frame : Tables → Type 0
  Frame t = (t.now ≡ t₀.now) × (t.point_events ≡ t₀.point_events) × (t.abuse_flags ≡ t₀.abuse_flags)

  module _ {World : Type 0} (pg : Pg World) (law : LawfulPg pg)
      (well : (w : World) → pg.fault w ≡ none) where
    apply_all-settles :
        (snaps : List Snapshot) (k : ℕ) (s : Session World)
        → Frame (pg.tables s.world)
        → All (Left snaps) (pg.tables s.world).protocols
        → (n : ℕ) × (s' : Session World) × (apply_all fl cfg pg snaps k s ≡ (ok n, s'))
          × Frame (pg.tables s'.world)
          × All Settled (pg.tables s'.world).protocols
    unfolding apply_all apply_transition transition_statement
    apply_all-settles [] k s frame left =
        (k, s, refl, frame, All-Left (Left []) Settled (pg.tables s.world).protocols done_of left)
    apply_all-settles (snap ∷ snaps) k s frame left =
        elim (Bool-cases (same_visibility (decide fl cfg snap) snap.current)) [
          | inl same ↦
              let (n, s', e, frame', settled) = apply_all-settles snaps k s frame (
                All-Left (Left (snap ∷ snaps)) (Left snaps) (pg.tables s.world).protocols
                  (λ p. Left-skip snap snaps p same) left) in
              (n, s', rw same e, frame', settled)
          | inr differ ↦
              let next = decide fl cfg snap in
              let t : Tables = record (pg.tables s.world) {
                protocols =
                    map (set_visibility snap.protocol_id (as_db next))
                      (pg.tables s.world).protocols;
                protocol_events =
                    (pg.tables s.world).protocol_events ++ change_event snap next ∷ [];
              } in
              let w = pg.put t s.world in
              let here : t ≡ pg.tables w = sym (law.tables-put t s.world) in
              let (n, s', e, frame', settled) =
                apply_all-settles snaps (k + 1) (record s { world = w }) (subst Frame here frame)
                  (subst (λ u. All (Left snaps) u.protocols) here
                    (All-Left-map (Left (snap ∷ snaps)) (Left snaps)
                      (set_visibility snap.protocol_id (as_db next)) (pg.tables s.world).protocols
                      (Left-apply snap snaps) left)) in
              let applies =
                run_sql-ok pg (transition_statement snap next) tt t s (well s.world) refl in
              (n, s', rw (differ, applies) e, frame', settled)
        ]

    settled_snapshots :
        (snaps : List Snapshot) (k : ℕ) (s : Session World)
        → All (λ snap. same_visibility (decide fl cfg snap) snap.current ≡ true) snaps
        → apply_all fl cfg pg snaps k s ≡ (ok k, s)
    unfolding apply_all
    settled_snapshots [] k s all = refl
    settled_snapshots (snap ∷ snaps) k s (here, all) = rw here (settled_snapshots snaps k s all)

  Pending-of :
      (c : ProtocolRow → Bool) (ps : List ProtocolRow) (i : ℕ) (p : ProtocolRow)
      → get_elem? ps i ≡ some p
      → c p ≡ true
      → Pending (map (snapshot_of fl cfg t₀) (where_rows c ps)) p
  Pending-of c [] i p at selected = cc
  Pending-of c (q ∷ ps) zero p at selected =
      let same : q ≡ p = some-injective q p at in
      let chosen : c q ≡ true = ap c same ∙ selected in
      rw chosen (inl (ap (snapshot_of fl cfg t₀) same))
  Pending-of c (q ∷ ps) (suc i) p at selected = elim (Bool-cases (c q)) [
    | inl chosen ↦ rw chosen (inr (Pending-of c ps i p at selected))
    | inr passed ↦ rw passed (Pending-of c ps i p at selected)
  ]

  -- The snapshots of settled rows.
  Settled-of :
      (t : Tables) (ps : List ProtocolRow)
      → Frame t
      → All Settled ps
      → All
          (λ snap. same_visibility (decide fl cfg snap) snap.current ≡ true)
          (map
            (snapshot_of fl cfg t)
            (where_rows (λ (p : ProtocolRow). str_eq p.status "active") ps))
  Settled-of t [] frame all = tt
  Settled-of t (p ∷ ps) (n, e, f) (here, all) = elim (Bool-cases (str_eq p.status "active")) [
    | inl is_active ↦ rw is_active (rw (n, e, f) (here is_active), Settled-of t ps (n, e, f) all)
    | inr other ↦ rw other (Settled-of t ps (n, e, f) all)
  ]

  Left-snapshots :
      DistinctIds t₀.protocols
      → All
          (Left (
            map
              (snapshot_of fl cfg t₀)
              (where_rows (λ (p : ProtocolRow). str_eq p.status "active") t₀.protocols)))
          t₀.protocols
  Left-snapshots distinct = All-of_get_elem? t₀.protocols λ i p at. (
    elim (Bool-cases (str_eq p.status "active")) [
      | inl is_active ↦ inr (Pending-of _ t₀.protocols i p at is_active)
      | inr other ↦ inl λ is_active. absurd (ground (arith, other, is_active))
    ],
    leads i p at _ λ j q here.
        let (k, at_k, _) =
          where_rows-at (λ (r : ProtocolRow). str_eq r.status "active") t₀.protocols j q here in
        (k, at_k),
  )
    where
      leads :
          (i : ℕ) (p : ProtocolRow)
          → get_elem? t₀.protocols i ≡ some p
          → (ps : List ProtocolRow)
          → ((j : ℕ) (q : ProtocolRow)
              → get_elem? ps j ≡ some q
              → (k : ℕ) × (get_elem? t₀.protocols k ≡ some q))
          → All (Leads p) (map (snapshot_of fl cfg t₀) ps)
      leads i p at [] listed = tt
      leads i p at (q ∷ ps) listed =
          let (k, at_k) = listed 0 q refl in
          (
            λ same. ap target (DistinctIds-same t₀.protocols i k p q distinct at at_k same),
            leads i p at ps λ j. listed (suc j),
          )

module _ (fl : Float64) (cfg : LeagueConfig) {World : Type 0} (pg : Pg World) where
  -- If the ids of the protocols are distinct and the database answers, then a second tick at the
  -- same time makes no transition and leaves the session as it is.
  pub tick_settles :
      LawfulPg pg
      → ((w : World) → pg.fault w ≡ none)
      → (s s' : Session World) (n : ℕ) → DistinctIds (pg.tables s.world).protocols
      → tick fl cfg pg s ≡ (ok n, s')
      → tick fl cfg pg s' ≡ (ok 0, s')
  unfolding tick load_snapshots
  tick_settles law well s s' n distinct e =
      let t₀ = pg.tables s.world in
      let (m, s'', ran, frame, settled) =
        apply_all-settles fl cfg t₀ pg law well _ 0 s (refl, refl, refl)
          (Left-snapshots fl cfg t₀ distinct) in
      let first = run_sql-read pg law (load_snapshots fl cfg) _ s (well s.world) refl in
      let runs : tick fl cfg pg s ≡ (ok m, s'') = rw first ran in
      let same : s'' ≡ s' = ap (λ r. r.1) (sym runs ∙ e) in
      let again = run_sql-read pg law (load_snapshots fl cfg) _ s' (well s'.world) refl in
      rw again (
        settled_snapshots fl cfg t₀ pg law well _ 0 s' (
          Settled-of fl cfg t₀ (pg.tables s'.world) (pg.tables s'.world).protocols
            (subst (λ u. Frame fl cfg t₀ (pg.tables u.world)) same frame)
            (subst (λ u. All (Settled fl cfg t₀) (pg.tables u.world).protocols) same settled)))

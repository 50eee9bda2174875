-- ===== src/VisibilityTick/Timeline.antt =====
-- src/visibility_tick.rs: the column `visibility` and the events of the timeline.
use mathlib.Core.Path.{subst}
use keeper_bot.Base.{
  ℕ, ◌+◌, ◌≡◌, refl, ◌∙◌, ap, sym, ◌⊎◌, inl, inr, ◌&&◌, Option, none, some, List, [], ◌∷◌, ◌++◌,
  map, All, ◌==◌, ==_sym, if◌then◌else◌, String, str_eq, ok, arith, Bool-cases,
}
use keeper_bot.Float64.{Float64}
use keeper_bot.LeagueConfig.{LeagueConfig}
use keeper_bot.Chain.{Session}
use keeper_bot.Tables.{Tables, ProtocolRow, ProtocolEventRow, Json, text}
use keeper_bot.Db.{Pg}
use keeper_bot.Db.Statements.{LawfulPg}
use keeper_bot.Db.Invariants.{Keeps, Keeps-attempt, Keeps-bind, Keeps-if, Keeps-pure, Keeps-run_sql}
use keeper_bot.VisibilityTick.{
  Visibility, Snapshot, as_db, set_visibility, change_event, transition_statement, applied, decide,
  same_visibility, load_snapshots, apply_transition, apply_all, tick,
}

-- The text under a key of an event.
abbrev text_at : String → List (String × Json) → Option String
text_at key [] = none
text_at key ((k, text s) ∷ fields) = if str_eq k key then some s else text_at key fields
text_at key ((k, _) ∷ fields) = text_at key fields

abbrev or_else : Option String → Option String → Option String
or_else none other = other
or_else (some s) other = some s

-- The visibility that an event says a protocol has come to.
abbrev change_of : ℕ → ProtocolEventRow → Option String
change_of id e =
    if e.protocol_id == id && str_eq e.kind "visibility_change"
    then text_at "to" e.payload
    else none

-- What the last such event of a protocol says.
abbrev pub last_change : ℕ → List ProtocolEventRow → Option String
last_change id [] = none
last_change id (e ∷ events) = or_else (last_change id events) (change_of id e)

-- Each protocol has no such event, or has the visibility that the last one says.
abbrev pub InSync : Tables → Type 0
InSync t =
    All
      (λ p.
        (last_change p.id t.protocol_events ≡ none)
        ⊎ (last_change p.id t.protocol_events ≡ some p.visibility))
      t.protocols

or_else_assoc : (a b c : Option String) → or_else (or_else a b) c ≡ or_else a (or_else b c)
or_else_assoc none b c = refl
or_else_assoc (some s) b c = refl

or_else-none : (a : Option String) → or_else a none ≡ a
or_else-none none = refl
or_else-none (some s) = refl

last_change-snoc :
    (id : ℕ) (events : List ProtocolEventRow) (e : ProtocolEventRow)
    → last_change id (events ++ e ∷ []) ≡ or_else (change_of id e) (last_change id events)
last_change-snoc id [] e = sym (or_else-none (change_of id e))
last_change-snoc id (d ∷ events) e =
    ap (λ o. or_else o (change_of id d)) (last_change-snoc id events e)
    ∙ or_else_assoc (change_of id e) (last_change id events) (change_of id d)

change_of-change_event :
    (snap : Snapshot) (next : Visibility) (id : ℕ)
    → change_of id (change_event snap next)
      ≡ (if snap.protocol_id == id then some (as_db next) else none)
change_of-change_event snap next id = ground arith

transition_statement-InSync :
    (snap : Snapshot) (next : Visibility) (t t' : Tables)
    → transition_statement snap next t ≡ ok (tt, t')
    → InSync t
    → InSync t'
unfolding transition_statement
transition_statement-InSync snap next t t' e sync =
    let events = t.protocol_events ++ change_event snap next ∷ [] in
    let rows : map (set_visibility snap.protocol_id (as_db next)) t.protocols ≡ t'.protocols =
      ground arith in
    let timeline : events ≡ t'.protocol_events = ground arith in
    rw (sym rows, sym timeline)
      (each (λ id. last_change id events)
        (λ id.
          last_change-snoc id t.protocol_events (change_event snap next)
          ∙ ap (λ o. or_else o (last_change id t.protocol_events))
              (change_of-change_event snap next id))
        t.protocols sync)
  where
    each :
        (after : ℕ → Option String)
        → ((id : ℕ)
            → after id
              ≡ or_else
                  (if snap.protocol_id == id then some (as_db next) else none)
                  (last_change id t.protocol_events))
        → (ps : List ProtocolRow)
        → All
            (λ p.
              (last_change p.id t.protocol_events ≡ none)
              ⊎ (last_change p.id t.protocol_events ≡ some p.visibility))
            ps
        → All
            (λ p. (after p.id ≡ none) ⊎ (after p.id ≡ some p.visibility))
            (map (set_visibility snap.protocol_id (as_db next)) ps)
    each after moved [] all = tt
    each after moved (p ∷ ps) (here, all) = (
      elim (Bool-cases (p.id == snap.protocol_id)) [
        | inl hit ↦ rw hit (inr (moved p.id ∙ rw (==_sym snap.protocol_id p.id, hit) refl))
        | inr miss ↦ rw (miss, moved p.id, ==_sym snap.protocol_id p.id, miss) here
      ],
      each after moved ps all,
    )

module _ (fl : Float64) (cfg : LeagueConfig) {World : Type 0} (pg : Pg World) where
  apply_all-Keeps :
      LawfulPg pg
      → (snapshots : List Snapshot) (transitions : ℕ)
      → Keeps pg InSync (apply_all fl cfg pg snapshots transitions)
  unfolding apply_all apply_transition
  apply_all-Keeps law [] transitions = Keeps-pure pg InSync transitions
  apply_all-Keeps law (snap ∷ snapshots) transitions =
      Keeps-if pg InSync (same_visibility (decide fl cfg snap) snap.current) _ _
        (apply_all-Keeps law snapshots transitions)
        (Keeps-bind pg InSync _ _
          (Keeps-attempt pg InSync _ (
            Keeps-run_sql pg InSync law (transition_statement snap (decide fl cfg snap))
              λ t t' done. transition_statement-InSync snap (decide fl cfg snap) t t'))
          λ result. apply_all-Keeps law snapshots (transitions + applied result))

  tick-Keeps : LawfulPg pg → Keeps pg InSync (tick fl cfg pg)
  unfolding tick load_snapshots
  tick-Keeps law =
      Keeps-bind pg InSync _ _
        (Keeps-run_sql pg InSync law (load_snapshots fl cfg)
          λ t t' snapshots e sync. let same : t ≡ t' = ground (arith, e) in subst InSync same sync)
        λ snapshots. apply_all-Keeps law snapshots 0

  -- If the visibility of each protocol is the one that the last change in its timeline says, where
  -- there is one, then that is so after a tick, whichever statements fail.
  pub tick-InSync :
      LawfulPg pg
      → (s : Session World) → InSync (pg.tables s.world)
      → InSync (pg.tables (tick fl cfg pg s).1.world)
  tick-InSync law s = (tick-Keeps law).at s

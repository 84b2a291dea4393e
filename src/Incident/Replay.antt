-- ===== src/Incident/Replay.antt =====
-- The Incidents of a Monitor against a replay of its health transitions in the order of their
-- versions.
use probehive.Base.{
  suc, String, Bool, true, false, not, ◌&&◌, none, some, List, [], ◌∷◌, if◌then◌else◌, ◌≡◌, inl,
  inr, refl, sym, ◌∙◌, arith, ap, Bool-cases, str_eq, str_eq_iff, str_eq_refl, length,
}
use probehive.Base.Int.{pos}
use probehive.Incident.Model.{Incident, HealthTransitioned, ProcessIds}
use probehive.Incident.Rows.{
  Transition, is_resolved, of_monitor, is_active_of, both_unresolved, next_version, resolved_row,
  resolves,
}
use probehive.Incident.Effects.{is_down, is_healthy, Projected, keeps, opens, closes}
use probehive.Incident.Views.{
  View, view, is_open, close, close_closed, view-is_open, view_kept, view_closed,
}
use probehive.Incident.Unresolved.{IsKeyed, one_row, both_unresolved_comm}
use probehive.Store.Tables.{find_where, Holds}
use probehive.Store.Distinct.{find_holds, Apart_unique}

-- A Monitor that goes down opens an Incident unless it is archived or has one that is open; a Monitor
-- that gets healthy closes the open one; no other transition counts.
abbrev pub replayed : Bool → Transition → View → View
replayed archived row entries =
    if is_down row.new_state && not archived && not (is_open entries)
    then (row.id, none) ∷ entries
    else if is_healthy row.new_state
    then close row.id entries
    else entries

-- A replay of transitions of one Monitor, newest first, whose versions are 1, 2, … in order; each
-- comes with whether the Monitor was archived.
pub data Replayed (rows : List Transition) (organization_id monitor_id : String)
    : List (Bool × Transition) → View → Type 0 where
  start : Replayed rows organization_id monitor_id [] []
  follows :
      {done : List (Bool × Transition)} {entries : View}
      → Replayed rows organization_id monitor_id done entries
      → (archived : Bool) (row : Transition) → Holds row rows
      → row.organization_id ≡ organization_id
      → row.monitor_id ≡ monitor_id
      → row.version ≡ pos (suc (length done))
      → Replayed rows organization_id monitor_id
          ((archived, row) ∷ done)
          (replayed archived row entries)

pub Replayed-with :
    {x : Transition} {rows : List Transition} {organization_id monitor_id : String}
    {done : List (Bool × Transition)} {entries : View}
    → Replayed rows organization_id monitor_id done entries
    → Replayed (x ∷ rows) organization_id monitor_id done entries
Replayed-with start = start
Replayed-with (follows before archived row held o m v) =
    follows (Replayed-with before) archived row (inr held) o m v

replayed_kept :
    (archived active : Bool) (row : Transition) (v : View)
    → is_open v ≡ active
    → is_down row.new_state && not archived && not active ≡ false
    → is_healthy row.new_state && active ≡ false
    → replayed archived row v ≡ v
replayed_kept archived active row v o d h = elim (Bool-cases (is_open v)) [
  | inl t ↦ ground arith
  | inr f ↦ ground (arith, close_closed row.id v f)
]

replayed_opens :
    (archived : Bool) (row : Transition) (v : View)
    → is_down row.new_state && not archived ≡ true
    → is_open v ≡ false
    → replayed archived row v ≡ (row.id, none) ∷ v
replayed_opens archived row v d o = ground arith

replayed_closes :
    (archived : Bool) (row : Transition) (v : View)
    → is_healthy row.new_state ≡ true
    → replayed archived row v ≡ close row.id v
replayed_closes archived row v h = ground arith

active-both :
    (r value : Incident) (organization_id monitor_id : String)
    → is_active_of organization_id monitor_id r ≡ true
    → is_active_of organization_id monitor_id value ≡ true
    → both_unresolved r value ≡ true
active-both r value organization_id monitor_id a b = ground (
  arith,
  str_eq_iff monitor_id r.monitor_id,
  str_eq_iff monitor_id value.monitor_id,
  str_eq_iff r.monitor_id value.monitor_id,
)

module _ (event : HealthTransitioned) (row : Transition) (rows : List Incident)
    (sound : IsKeyed rows) where
  resolves_active :
      (value : Incident)
      → find_where (is_active_of event.organization_id row.monitor_id) rows ≡ some value
      → (r : Incident) → Holds r rows
      → of_monitor event.organization_id row.monitor_id r ≡ true
      → resolves value r ≡ not (is_resolved r.state)
  resolves_active value found r held own =
      let (there, hits) =
        find_holds (is_active_of event.organization_id row.monitor_id) rows value found in
      elim (Bool-cases (is_resolved r.state)) [
        | inl d ↦ ground arith
        | inr d ↦
            let same =
              Apart_unique both_unresolved r value rows both_unresolved_comm sound.unresolved held
                there
                (active-both r value event.organization_id row.monitor_id (ground arith) hits) in
            rw same (
              ground (arith, str_eq_refl value.id, str_eq_refl value.organization_id, rw same at d))
      ]

  -- The projection of a transition is one step of the replay for its Monitor.
  pub Projected-view :
      {archived : Bool} {ids : ProcessIds} {after : List Incident}
      → event.transition_id ≡ row.id
      → row.monitor_id ≡ event.monitor_id
      → Projected archived event row ids rows after
      → view event.organization_id row.monitor_id after
        ≡ replayed archived row (view event.organization_id row.monitor_id rows)
  Projected-view {archived = archived} t m (keeps d h) =
      sym (
        replayed_kept archived _ row _ (view-is_open event.organization_id row.monitor_id rows) d h)
  Projected-view {archived = archived} t m (opens d free _ _) =
      rw
        (
          replayed_opens archived row (view event.organization_id row.monitor_id rows) d
              (view-is_open event.organization_id row.monitor_id rows ∙ free),
          sym m,
          sym t,
          str_eq_refl event.organization_id,
          str_eq_refl row.monitor_id,
        )
        refl
  Projected-view {archived = archived} t m (closes h value found) =
      view_closed event.organization_id row.monitor_id (resolves value) event
        (next_version value.version) row.occurred_at rows (resolves_active value found)
      ∙ ap (λ i. close i (view event.organization_id row.monitor_id rows)) t
      ∙ sym (replayed_closes archived row (view event.organization_id row.monitor_id rows) h)

  -- It leaves the Incidents of every other Monitor.
  pub Projected-view_other :
      {archived : Bool} {ids : ProcessIds} {after : List Incident}
      (organization_id monitor_id : String)
      → str_eq organization_id event.organization_id && str_eq monitor_id row.monitor_id ≡ false
      → row.monitor_id ≡ event.monitor_id
      → Projected archived event row ids rows after
      → view organization_id monitor_id after ≡ view organization_id monitor_id rows
  Projected-view_other organization_id monitor_id other m (keeps _ _) = refl
  Projected-view_other organization_id monitor_id other m (opens _ _ _ _) = rw (sym m, other) refl
  Projected-view_other organization_id monitor_id other m (closes h value found) =
      let (there, hits) =
        find_holds (is_active_of event.organization_id row.monitor_id) rows value found in
      view_kept organization_id monitor_id (resolves value)
        (resolved_row event (next_version value.version) row.occurred_at) rows (λ r. refl)
        (λ r h o p.
          let same = one_row value r rows sound there h (ground arith) in
          absurd (
            ground (
              arith,
              rw (sym same) at o,
              str_eq_iff organization_id value.organization_id,
              str_eq_iff monitor_id value.monitor_id,
              str_eq_iff event.organization_id value.organization_id,
              str_eq_iff row.monitor_id value.monitor_id,
              str_eq_iff organization_id event.organization_id,
              str_eq_iff monitor_id row.monitor_id,
            )))

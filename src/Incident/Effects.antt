-- ===== src/Incident/Effects.antt =====
-- What `ProcessHealthTransition` does to the rows of Incidents.
use probehive.Base.{
  ℕ, Bool, true, false, not, ◌&&◌, Option, some, List, ◌∷◌, ◌≡◌, inl, inr, refl, sym, arith, subst,
  Bool-cases, Option-cases, str_eq,
}
use probehive.Base.Time.{Time}
use probehive.Health.Model as Health
use probehive.Incident.Model.{Incident, HealthTransitioned, IncidentTransitioned, ProcessIds}
use probehive.Incident.Rows.{
  Db, Transition, is_active_of, is_unresolved_of, opened_row, next_version, resolved_row, resolves,
}
use probehive.Incident.Projection.{Written, project}
use probehive.Incident.Cases.{insert_opened_cases, resolve_incident_cases}
use probehive.Store.Tables.{any, find_where, update_where}
use probehive.Store.Distinct.{find-any, find-any-some}

abbrev pub is_down : Health.State → Bool
is_down state = Health.state_eq state Health.State.down

abbrev pub is_healthy : Health.State → Bool
is_healthy state = Health.state_eq state Health.State.healthy

-- A projection keeps the rows of Incidents, opens one or closes one.
pub data Projected (archived : Bool) (event : HealthTransitioned) (row : Transition)
    (ids : ProcessIds) (rows : List Incident) : List Incident → Type 0 where
  keeps :
      is_down row.new_state
          && not archived
          && not (any (is_active_of event.organization_id row.monitor_id) rows)
        ≡ false
      → is_healthy row.new_state && any (is_active_of event.organization_id row.monitor_id) rows
        ≡ false
      → Projected archived event row ids rows rows
  opens :
      is_down row.new_state && not archived ≡ true
      → any (is_active_of event.organization_id row.monitor_id) rows ≡ false
      → any (λ (r : Incident). str_eq ids.incident_id r.id) rows ≡ false
      → any (is_unresolved_of event.monitor_id) rows ≡ false
      → Projected archived event row ids rows
          (opened_row event ids.incident_id row.occurred_at ∷ rows)
  closes :
      is_healthy row.new_state ≡ true
      → (value : Incident)
      → find_where (is_active_of event.organization_id row.monitor_id) rows ≡ some value
      → Projected archived event row ids rows (
          update_where
            (resolves value)
            (resolved_row event (next_version value.version) row.occurred_at)
            rows)

module _ (marshal : IncidentTransitioned → Option (List ℕ)) (archived : Bool) (db : Db)
    (event : HealthTransitioned) (row : Transition) (ids : ProcessIds) (now : Time) where
  abbrev active : Incident → Bool
  active = is_active_of event.organization_id row.monitor_id

  project-down :
      (w : Written)
      → row.new_state ≡ Health.State.down
      → project marshal archived Health.State.down db event row ids now ≡ some w
      → Projected archived event row ids db.incidents w.incidents
  unfolding project
  project-down w s e = elim (Bool-cases archived) [
    | inl a ↦
        let same : db.incidents ≡ w.incidents = ground arith in
        subst (Projected archived event row ids db.incidents) same
          (keeps (ground arith) (ground arith))
    | inr a ↦ elim (Option-cases (find_where active db.incidents)) [
      | inr (value, f) ↦
          let found = find-any-some active db.incidents value f in
          let same : db.incidents ≡ w.incidents = ground arith in
          subst (Projected archived event row ids db.incidents) same
            (keeps (ground arith) (ground arith))
      | inl f ↦
          let (fresh, free, made) =
            insert_opened_cases marshal archived db event row ids now w (rw (a, f) at e) in
          subst (Projected archived event row ids db.incidents) (sym made)
            (opens (ground arith) (find-any active db.incidents f) fresh free)
    ]
  ]

  project_healthy :
      (w : Written)
      → row.new_state ≡ Health.State.healthy
      → project marshal archived Health.State.healthy db event row ids now ≡ some w
      → Projected archived event row ids db.incidents w.incidents
  unfolding project
  project_healthy w s e = elim (Option-cases (find_where active db.incidents)) [
    | inl f ↦
        let free = find-any active db.incidents f in
        let same : db.incidents ≡ w.incidents = ground arith in
        subst (Projected archived event row ids db.incidents) same
          (keeps (ground arith) (ground arith))
    | inr (value, f) ↦
        subst (Projected archived event row ids db.incidents)
          (sym (resolve_incident_cases marshal archived db event row ids now value w (rw f at e)))
          (closes (ground arith) value f)
  ]

  project_other :
      (w : Written) (state : Health.State)
      → row.new_state ≡ state
      → project marshal archived state db event row ids now ≡ some w
      → Projected archived event row ids db.incidents w.incidents
  unfolding project
  project_other w Health.State.down s e = project-down w s e
  project_other w Health.State.healthy s e = project_healthy w s e
  project_other w state s e =
      let same : db.incidents ≡ w.incidents = ground arith in
      subst (Projected archived event row ids db.incidents) same
        (keeps (ground arith) (ground arith))

  pub project-Projected :
      (w : Written)
      → project marshal archived row.new_state db event row ids now ≡ some w
      → Projected archived event row ids db.incidents w.incidents
  project-Projected w e = project_other w row.new_state refl e

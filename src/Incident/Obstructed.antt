-- ===== src/Incident/Obstructed.antt =====
-- Why `ProcessHealthTransition` may fail to project a transition.
use probehive.Base.{
  ℕ, String, Bool, true, false, not, ◌&&◌, ◌||◌, Option, none, some, List, ◌≡◌, ◌⊎◌, inl, inr, refl,
  arith, is_empty, Bool-cases, Option-cases, str_eq,
}
use probehive.Base.Int.{ℤ, pos, eqb_ℤ}
use probehive.Base.Time.{Time, to_utc}
use probehive.Health.Model as Health
use probehive.Run.Events.{OutboxEntry}
use probehive.Incident.Model.{
  Incident, TimelineKind, TimelineEntry, HealthTransitioned, IncidentTransitioned, ProcessIds,
}
use probehive.Incident.Rows.{
  Db, Transition, is_active_of, is_unresolved_of, append_timeline, next_version,
}
use probehive.Incident.Projection.{
  project, insert_opened, resolve_incident, queue_event, transition_entry,
}
use probehive.Incident.Effects.{is_down, is_healthy}
use probehive.Store.Tables.{any, find_where}
use probehive.Store.Distinct.{find-any}

module _ (marshal : IncidentTransitioned → Option (List ℕ)) (db : Db) (ids : ProcessIds) where
  -- The entry of the timeline or of the outbox meets a key, has no identifier or no payload.
  abbrev pub Unwritable : String → ℤ → Type 0
  Unwritable incident_id version =
      (any
          (λ (e : TimelineEntry).
            str_eq ids.timeline_id e.id
            || str_eq incident_id e.incident_id && eqb_ℤ version e.incident_version)
          db.timeline
        ≡ true)
      ⊎ (is_empty ids.alert_event_id ≡ true)
      ⊎ (any (λ (e : OutboxEntry). str_eq ids.alert_event_id e.id) db.outbox ≡ true)
      ⊎ ((m : IncidentTransitioned) × (marshal m ≡ none))

  -- An Incident is to be opened or resolved, and a key of the tables or the payload is in the way.
  abbrev pub Obstructed : Bool → HealthTransitioned → Transition → Type 0
  Obstructed archived event row =
      ((is_down row.new_state && not archived ≡ true)
        × (any (is_active_of event.organization_id row.monitor_id) db.incidents ≡ false)
        × ((any (λ (r : Incident). str_eq ids.incident_id r.id) db.incidents ≡ true)
            ⊎ (any (is_unresolved_of event.monitor_id) db.incidents ≡ true)
            ⊎ Unwritable ids.incident_id (pos 1)))
      ⊎ ((is_healthy row.new_state ≡ true)
          × ((value : Incident) × ((find_where (is_active_of event.organization_id row.monitor_id)
                    db.incidents
                  ≡ some value)
                × Unwritable value.id (next_version value.version))))

  module _ (archived : Bool) (event : HealthTransitioned) (row : Transition) (now : Time) where
    timeline-Unwritable :
        (incident_id : String) (version : ℤ) (kind : TimelineKind)
        → append_timeline
            (transition_entry event row ids.timeline_id incident_id version kind)
            db.timeline
          ≡ none
        → Unwritable incident_id version
    unfolding append_timeline
    timeline-Unwritable incident_id version kind e = inl (ground arith)

    abbrev message : String → ℤ → String → IncidentTransitioned
    message incident_id version transition = record {
      event_id = ids.alert_event_id;
      organization_id = event.organization_id;
      occurred_at = to_utc row.occurred_at;
      aggregate_type = "incident";
      aggregate_id = incident_id;
      aggregate_version = version;
      causation_id = event.event_id;
      incident_id = incident_id;
      monitor_id = event.monitor_id;
      transition = transition;
    }

    queue-Unwritable :
        (incident_id : String) (version : ℤ) (transition : String)
        → queue_event marshal event incident_id version transition ids.alert_event_id
            row.occurred_at now db.outbox
          ≡ none
        → Unwritable incident_id version
    unfolding queue_event
    queue-Unwritable incident_id version transition e =
        elim (Bool-cases (is_empty ids.alert_event_id)) [
          | inl b ↦ inr (inl b)
          | inr b ↦
              elim (Bool-cases
                (any (λ (r : OutboxEntry). str_eq ids.alert_event_id r.id) db.outbox)) [
                  | inl c ↦ inr (inr (inl c))
                  | inr c ↦ elim (Option-cases (marshal (message incident_id version transition))) [
                    | inl m ↦ inr (inr (inr (message incident_id version transition, m)))
                    | inr (payload, m) ↦ absurd (cc (rw (queue_event, b, c, m) at e))
                  ]
                ]
        ]

    abbrev timeline_after : String → ℤ → TimelineKind → Option (List TimelineEntry)
    timeline_after incident_id version kind =
        append_timeline (transition_entry event row ids.timeline_id incident_id version kind)
          db.timeline

    abbrev outbox_after : String → ℤ → String → Option (List OutboxEntry)
    outbox_after incident_id version transition =
        queue_event marshal event incident_id version transition ids.alert_event_id row.occurred_at
          now db.outbox

    resolve-Unwritable :
        (value : Incident)
        → resolve_incident marshal db value event row ids now ≡ none
        → Unwritable value.id (next_version value.version)
    unfolding resolve_incident
    resolve-Unwritable value e =
        let version = next_version value.version in
        elim (Option-cases (timeline_after value.id version TimelineKind.resolved)) [
          | inl t ↦ timeline-Unwritable value.id version TimelineKind.resolved t
          | inr (timeline, t) ↦ elim (Option-cases (outbox_after value.id version "resolved")) [
            | inl q ↦ queue-Unwritable value.id version "resolved" q
            | inr (outbox, q) ↦ absurd (cc (rw (resolve_incident, t, q) at e))
          ]
        ]

    insert-Unwritable :
        insert_opened marshal db event row ids now ≡ none
        → (any (λ (r : Incident). str_eq ids.incident_id r.id) db.incidents ≡ true)
          ⊎ (any (is_unresolved_of event.monitor_id) db.incidents ≡ true)
          ⊎ Unwritable ids.incident_id (pos 1)
    unfolding insert_opened
    insert-Unwritable e =
        elim (Bool-cases (any (λ (r : Incident). str_eq ids.incident_id r.id) db.incidents)) [
          | inl a ↦ inl a
          | inr a ↦ elim (Bool-cases (any (is_unresolved_of event.monitor_id) db.incidents)) [
            | inl b ↦ inr (inl b)
            | inr b ↦
                elim (Option-cases (timeline_after ids.incident_id (pos 1) TimelineKind.opened)) [
                  | inl t ↦
                      inr (inr (timeline-Unwritable ids.incident_id (pos 1) TimelineKind.opened t))
                  | inr (timeline, t) ↦
                      elim (Option-cases (outbox_after ids.incident_id (pos 1) "opened")) [
                        | inl q ↦ inr (inr (queue-Unwritable ids.incident_id (pos 1) "opened" q))
                        | inr (outbox, q) ↦ absurd (cc (rw (insert_opened, a, b, t, q) at e))
                      ]
                ]
          ]
        ]

    state-Obstructed :
        (state : Health.State)
        → row.new_state ≡ state
        → project marshal archived state db event row ids now ≡ none
        → Obstructed archived event row
    unfolding project
    state-Obstructed Health.State.down s e = elim (Bool-cases archived) [
      | inl a ↦ absurd (cc (rw (project, a) at e))
      | inr a ↦
          elim (Option-cases
            (find_where (is_active_of event.organization_id row.monitor_id) db.incidents)) [
              | inr (value, f) ↦ absurd (cc (rw (project, a, f) at e))
              | inl f ↦ inl (
                ground arith,
                find-any (is_active_of event.organization_id row.monitor_id) db.incidents f,
                insert-Unwritable (rw (project, a, f) at e),
              )
            ]
    ]
    state-Obstructed Health.State.healthy s e =
        elim (Option-cases
          (find_where (is_active_of event.organization_id row.monitor_id) db.incidents)) [
            | inl f ↦ absurd (cc (rw (project, f) at e))
            | inr (value, f) ↦
                inr (ground arith, (value, (f, resolve-Unwritable value (rw (project, f) at e))))
          ]
    state-Obstructed _ s e = absurd (cc e)

    pub project-Obstructed :
        project marshal archived row.new_state db event row ids now ≡ none
        → Obstructed archived event row
    project-Obstructed e = state-Obstructed row.new_state refl e

-- ===== src/Incident/Cases.antt =====
-- The branches of `ProcessHealthTransition` and `AcknowledgeIncident`, each with its result and the
-- rows that it leaves.
use probehive.Base.{
  ℕ, String, Bool, true, false, not, Option, none, some, List, ◌∷◌, Result, ok, err, ◌≡◌, ◌⊎◌, inl,
  inr, refl, ◌∙◌, arith, Bool-cases, Option-cases, str_eq,
}
use probehive.Base.Int.{eqb_ℤ}
use probehive.Base.Time.{Time}
use probehive.Incident.Model.{
  Incident, TimelineEntry, HealthTransitioned, IncidentTransitioned, ProcessIds, Error,
}
use probehive.Incident.Service.{Scope}
use probehive.Incident.Rows.{
  Db, Transition, Cursor, same_event, mark_processed, is_resolved, is_opened, is_unresolved_of,
  cursor_of, advance_cursor, matches, append_timeline, opened_row, next_version, resolved_row,
  resolves, acknowledged_row,
}
use probehive.Incident.Projection.{
  Written, insert_opened, resolve_incident, project, advanced, expected_version, is_behind,
  process_matched, process_found, is_transition, process_health_transition,
}
use probehive.Incident.Acknowledgement.{
  in_scope, acknowledges, acknowledged_entry, get_incident, acknowledge_found, acknowledge_opened,
  acknowledge_incident,
}
use probehive.Store.Tables.{any, find_where, update_where}

-- What projecting a transition leaves.
abbrev pub after_projection : Db → HealthTransitioned → Transition → Time → Written → Db
after_projection db event row now w = record {
  processed = mark_processed event.event_id event.organization_id db.processed;
  transitions = db.transitions;
  cursors =
      advance_cursor event.organization_id row.monitor_id event.aggregate_version now db.cursors;
  incidents = w.incidents;
  timeline = w.timeline;
  outbox = w.outbox;
}

abbrev pub after_redelivery : Db → HealthTransitioned → Db
after_redelivery db event = record db {
  processed = mark_processed event.event_id event.organization_id db.processed;
}

-- The cursor that the projection of a transition reads.
abbrev pub cursor_for : Db → HealthTransitioned → Transition → Option Cursor
cursor_for db event row = find_where (cursor_of event.organization_id row.monitor_id) db.cursors

module _ (marshal : IncidentTransitioned → Option (List ℕ)) (available archived : Bool) (db : Db)
    (event : HealthTransitioned) (ids : ProcessIds) (now : Time) where
  abbrev pub processed_db : Db
  processed_db = (process_health_transition marshal available archived db event ids now).1

  abbrev pub Projects : Transition → Written → Type 0
  Projects row w =
      (find_where (is_transition event) db.transitions ≡ some row)
      × (matches event row ≡ true)
      × (is_behind event (cursor_for db event row) ≡ false)
      × (eqb_ℤ event.aggregate_version (expected_version (cursor_for db event row)) ≡ true)
      × (project marshal archived row.new_state db event row ids now ≡ some w)
      × (process_health_transition marshal available archived db event ids now
          ≡ (ok tt, after_projection db event row now w))

  matched_cases :
      (row : Transition)
      → (cursor : Option Cursor)
      → ((e : Error) × (process_matched marshal archived db event row ids now cursor ≡ (err e, db)))
        ⊎ (process_matched marshal archived db event row ids now cursor
            ≡ (ok tt, after_redelivery db event))
        ⊎ ((w : Written) × ((is_behind event cursor ≡ false)
              × (eqb_ℤ event.aggregate_version (expected_version cursor) ≡ true)
              × (project marshal archived row.new_state db event row ids now ≡ some w)
              × (process_matched marshal archived db event row ids now cursor
                  ≡ (ok tt, after_projection db event row now w))))
  unfolding process_matched advanced
  matched_cases row cursor = elim (Bool-cases (is_behind event cursor)) [
    | inl b ↦ inr (inl (rw b refl))
    | inr b ↦ elim (Bool-cases (eqb_ℤ event.aggregate_version (expected_version cursor))) [
      | inr g ↦ inl (Error.version_gap, rw (b, g) refl)
      | inl g ↦ elim (Option-cases (project marshal archived row.new_state db event row ids now)) [
        | inl p ↦ inl (Error.failed, rw (b, g, p) refl)
        | inr (w, p) ↦ inr (inr (w, (b, g, p, rw (b, g, p) refl)))
      ]
    ]
  ]

  pub matched_step :
      (row : Transition)
      → not available ≡ false
      → any (same_event event.event_id event.organization_id) db.processed ≡ false
      → find_where (is_transition event) db.transitions ≡ some row
      → matches event row ≡ true
      → process_health_transition marshal available archived db event ids now
        ≡ process_matched marshal archived db event row ids now (cursor_for db event row)
  unfolding process_health_transition process_found
  matched_step row a m f n = rw (a, m, f, n) refl

  -- An event is refused, or was processed before, or is marked as processed only, or is projected.
  pub process_cases :
      ((e : Error) × (process_health_transition marshal available archived db event ids now
          ≡ (err e, db)))
      ⊎ ((any (same_event event.event_id event.organization_id) db.processed ≡ true)
          × (process_health_transition marshal available archived db event ids now ≡ (ok tt, db)))
      ⊎ (process_health_transition marshal available archived db event ids now
          ≡ (ok tt, after_redelivery db event))
      ⊎ ((row : Transition) × ((w : Written) × Projects row w))
  unfolding process_health_transition process_found
  process_cases = elim (Bool-cases (not available)) [
    | inl a ↦ inl (Error.failed, rw a refl)
    | inr a ↦
        elim (Bool-cases (any (same_event event.event_id event.organization_id) db.processed)) [
          | inl m ↦ inr (inl (m, rw (a, m) refl))
          | inr m ↦ elim (Option-cases (find_where (is_transition event) db.transitions)) [
            | inl f ↦ inl (Error.payload_invalid, rw (a, m, f) refl)
            | inr (row, f) ↦ elim (Bool-cases (matches event row)) [
              | inr n ↦ inl (Error.payload_invalid, rw (a, m, f, n) refl)
              | inl n ↦ elim (matched_cases row (cursor_for db event row)) [
                | inl (e, c) ↦ inl (e, matched_step row a m f n ∙ c)
                | inr (inl c) ↦ inr (inr (inl (matched_step row a m f n ∙ c)))
                | inr (inr (w, (b, g, p, c))) ↦
                    inr (inr (inr (row, (w, (f, n, b, g, p, matched_step row a m f n ∙ c)))))
              ]
            ]
          ]
        ]
  ]

module _ (marshal : IncidentTransitioned → Option (List ℕ)) (archived : Bool) (db : Db)
    (event : HealthTransitioned) (row : Transition) (ids : ProcessIds) (now : Time) where
  pub insert_opened_cases :
      (w : Written)
      → insert_opened marshal db event row ids now ≡ some w
      → (any (λ (r : Incident). str_eq ids.incident_id r.id) db.incidents ≡ false)
        × (any (is_unresolved_of event.monitor_id) db.incidents ≡ false)
        × (w.incidents ≡ opened_row event ids.incident_id row.occurred_at ∷ db.incidents)
  unfolding insert_opened
  insert_opened_cases w e = ground arith

  pub resolve_incident_cases :
      (value : Incident) (w : Written)
      → resolve_incident marshal db value event row ids now ≡ some w
      → w.incidents
        ≡ update_where
            (resolves value)
            (resolved_row event (next_version value.version) row.occurred_at)
            db.incidents
  unfolding resolve_incident
  resolve_incident_cases value w e = ground arith

module _ (available : Bool) (db : Db) (scope : Scope) (id actor_id timeline_id : String)
    (now : Time) where
  abbrev pub after_acknowledgement : Incident → List TimelineEntry → Db
  after_acknowledgement value timeline = record db {
    incidents =
        update_where (acknowledges scope id)
          (acknowledged_row (next_version value.version) actor_id now) db.incidents;
    timeline = timeline;
  }

  abbrev pub Answer : Type 0
  Answer = Result Error (Option (Incident × List TimelineEntry))

  acknowledge_found_cases :
      (value : Incident)
      → ((r : Answer) × (acknowledge_found db scope id actor_id timeline_id now value ≡ (r, db)))
        ⊎ ((timeline : List TimelineEntry) × ((is_opened value.state ≡ true)
              × ((acknowledge_found db scope id actor_id timeline_id now value).1
                  ≡ after_acknowledgement value timeline)))
  unfolding acknowledge_found acknowledge_opened
  acknowledge_found_cases value = elim (Bool-cases (is_resolved value.state)) [
    | inl d ↦ inl (err Error.conflict, rw d refl)
    | inr d ↦ elim (Bool-cases (is_opened value.state)) [
      | inr o ↦ inl (ok (get_incident db scope id), rw (d, o) refl)
      | inl o ↦
          elim (Option-cases (
            append_timeline
              (acknowledged_entry scope id (next_version value.version) actor_id timeline_id now)
              db.timeline)) [
                | inl a ↦ inl (err Error.failed, rw (d, o, a) refl)
                | inr (timeline, a) ↦ inr (timeline, (o, rw (d, o, a) refl))
              ]
    ]
  ]

  -- An acknowledgement changes nothing, or moves an open Incident on.
  pub acknowledge_cases :
      ((r : Answer) × (acknowledge_incident available db scope id actor_id timeline_id now
          ≡ (r, db)))
      ⊎ ((value : Incident) × ((timeline : List TimelineEntry) × ((find_where
                  (in_scope scope id)
                  db.incidents
                ≡ some value)
              × (is_opened value.state ≡ true)
              × ((acknowledge_incident available db scope id actor_id timeline_id now).1
                  ≡ after_acknowledgement value timeline))))
  unfolding acknowledge_incident
  acknowledge_cases = elim (Bool-cases (not available)) [
    | inl a ↦ inl (err Error.failed, rw a refl)
    | inr a ↦ elim (Option-cases (find_where (in_scope scope id) db.incidents)) [
      | inl f ↦ inl (ok none, rw (a, f) refl)
      | inr (value, f) ↦ elim (acknowledge_found_cases value) [
        | inl (r, c) ↦ inl (r, rw (a, f) c)
        | inr (timeline, (o, c)) ↦ inr (value, (timeline, (f, o, rw (a, f) c)))
      ]
    ]
  ]

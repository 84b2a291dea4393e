-- ===== src/Incident/Projection.antt =====
-- internal/postgres/incident.go: `ProcessHealthTransition` on the rows of its tables. `available` says whether the database carries a transaction out; one
-- that it refuses changes nothing. `archived` says whether the Monitor is archived at that moment.
-- `json.Marshal` is an argument.
use probehive.Base.{
  ℕ, String, Bool, false, ◌&&◌, ◌||◌, not, Option, none, some, List, ◌∷◌, Result, ok, err,
  if◌then◌else◌, is_empty, str_eq,
}
use probehive.Base.Int.{ℤ, pos, eqb_ℤ, leb_ℤ}
use probehive.Base.Time.{Time, to_utc}
use probehive.Health.Model as Health
use probehive.Run.Events.{OutboxEntry}
use probehive.Incident.Model.{
  TimelineKind, Incident, TimelineEntry, HealthTransitioned, IncidentTransitioned, ProcessIds,
  Error,
}
use probehive.Incident.Rows.{
  Db, Transition, Cursor, same_event, mark_processed, is_active_of, is_unresolved_of, cursor_of,
  advance_cursor, matches, cause_of, append_timeline, opened_row, next_version, resolved_row,
  resolves,
}
use probehive.Store.Tables.{any, find_where, update_where}

-- The rows that one projection inserts or changes, besides the cursor and the marker.
pub record Written : Type 0 where
  pub incidents : List Incident
  pub timeline : List TimelineEntry
  pub outbox : List OutboxEntry

abbrev pub written_of : Db → Written
written_of db = record { incidents = db.incidents; timeline = db.timeline; outbox = db.outbox }

abbrev written :
    List Incident → Option (List TimelineEntry) → Option (List OutboxEntry) → Option Written
written incidents (some timeline) (some outbox) =
    some (record { incidents = incidents; timeline = timeline; outbox = outbox })
written incidents (some timeline) none = none
written incidents none outbox = none

abbrev pub transition_entry :
    HealthTransitioned → Transition → String → String → ℤ → TimelineKind → TimelineEntry
transition_entry event row id incident_id version kind = record {
  id = id;
  organization_id = event.organization_id;
  incident_id = incident_id;
  incident_version = version;
  kind = kind;
  cause = some (cause_of event row);
  actor_user_id = "";
  occurred_at = to_utc row.occurred_at;
}

-- The cursor and the marker after the projection; `none` rolls the transaction back.
unfoldable pub advanced :
    Db → HealthTransitioned → Transition → Time → Option Written → Result Error (Unit {0}) × Db
advanced db event row now none = (err Error.failed, db)
advanced db event row now (some w) = (
  ok tt,
  record {
    processed = mark_processed event.event_id event.organization_id db.processed;
    transitions = db.transitions;
    cursors =
        advance_cursor event.organization_id row.monitor_id event.aggregate_version now db.cursors;
    incidents = w.incidents;
    timeline = w.timeline;
    outbox = w.outbox;
  },
)

abbrev pub expected_version : Option Cursor → ℤ
expected_version none = pos 1
expected_version (some cursor) = next_version cursor.last_version

abbrev pub is_behind : HealthTransitioned → Option Cursor → Bool
is_behind event none = false
is_behind event (some cursor) = leb_ℤ event.aggregate_version cursor.last_version

abbrev pub is_transition : HealthTransitioned → Transition → Bool
is_transition event row =
    str_eq event.transition_id row.id && str_eq event.organization_id row.organization_id

module _ (marshal : IncidentTransitioned → Option (List ℕ)) where
  -- `insertIncidentTransitionedEvent`.
  unfoldable pub queue_event :
      HealthTransitioned
      → String
      → ℤ
      → String
      → String
      → Time
      → Time
      → List OutboxEntry
      → Option (List OutboxEntry)
  queue_event source incident_id version transition event_id occurred_at queued_at rows =
      if is_empty event_id || any (λ (row : OutboxEntry). str_eq event_id row.id) rows
      then none
      else elim (marshal (record {
        event_id = event_id;
        organization_id = source.organization_id;
        occurred_at = to_utc occurred_at;
        aggregate_type = "incident";
        aggregate_id = incident_id;
        aggregate_version = version;
        causation_id = source.event_id;
        incident_id = incident_id;
        monitor_id = source.monitor_id;
        transition = transition;
      })) [
        | none ↦ none
        | some payload ↦ some (
            record {
              id = event_id;
              organization_id = source.organization_id;
              topic = "incident.transitioned.v1";
              payload = payload;
              created_at = to_utc queued_at;
            }
            ∷ rows)
      ]

  -- `insertIncidentOpened`.
  unfoldable pub insert_opened :
      Db → HealthTransitioned → Transition → ProcessIds → Time → Option Written
  insert_opened db event row ids now =
      if any (λ (r : Incident). str_eq ids.incident_id r.id) db.incidents
        || any (is_unresolved_of event.monitor_id) db.incidents
      then none
      else written (opened_row event ids.incident_id row.occurred_at ∷ db.incidents)
          (append_timeline
            (transition_entry event row ids.timeline_id ids.incident_id (pos 1) TimelineKind.opened)
            db.timeline)
          (queue_event event ids.incident_id (pos 1) "opened" ids.alert_event_id row.occurred_at now
            db.outbox)

  unfoldable pub resolve_incident :
      Db → Incident → HealthTransitioned → Transition → ProcessIds → Time → Option Written
  resolve_incident db value event row ids now =
      let version = next_version value.version in
      written
        (update_where (resolves value) (resolved_row event version row.occurred_at) db.incidents)
        (append_timeline
          (transition_entry event row ids.timeline_id value.id version TimelineKind.resolved)
          db.timeline)
        (queue_event event value.id version "resolved" ids.alert_event_id row.occurred_at now
          db.outbox)

  abbrev open_unless :
      Option Incident → Db → HealthTransitioned → Transition → ProcessIds → Time → Option Written
  open_unless (some active) db event row ids now = some (written_of db)
  open_unless none db event row ids now = insert_opened db event row ids now

  abbrev resolve_found :
      Option Incident → Db → HealthTransitioned → Transition → ProcessIds → Time → Option Written
  resolve_found (some active) db event row ids now = resolve_incident db active event row ids now
  resolve_found none db event row ids now = some (written_of db)

  -- `switch newState`.
  unfoldable pub project :
      Bool
      → Health.State
      → Db
      → HealthTransitioned
      → Transition
      → ProcessIds
      → Time
      → Option Written
  project archived Health.State.down db event row ids now =
      if archived
      then some (written_of db)
      else open_unless (find_where (is_active_of event.organization_id row.monitor_id) db.incidents)
          db event row ids now
  project archived Health.State.healthy db event row ids now =
      resolve_found (find_where (is_active_of event.organization_id row.monitor_id) db.incidents) db
        event row ids now
  project archived _ db event row ids now = some (written_of db)

  -- What follows on a transition row that matches the event.
  unfoldable pub process_matched :
      Bool
      → Db
      → HealthTransitioned
      → Transition
      → ProcessIds
      → Time
      → Option Cursor
      → Result Error (Unit {0}) × Db
  process_matched archived db event row ids now cursor =
      if is_behind event cursor
      then (
        ok tt,
        record db { processed = mark_processed event.event_id event.organization_id db.processed },
      )
      else if not (eqb_ℤ event.aggregate_version (expected_version cursor))
      then (err Error.version_gap, db)
      else advanced db event row now (project archived row.new_state db event row ids now)

  unfoldable pub process_found :
      Bool
      → Db
      → HealthTransitioned
      → Option Transition
      → ProcessIds
      → Time
      → Result Error (Unit {0}) × Db
  process_found archived db event none ids now = (err Error.payload_invalid, db)
  process_found archived db event (some row) ids now =
      if not (matches event row)
      then (err Error.payload_invalid, db)
      else process_matched archived db event row ids now
          (find_where (cursor_of event.organization_id row.monitor_id) db.cursors)

  unfoldable pub process_health_transition :
      Bool → Bool → Db → HealthTransitioned → ProcessIds → Time → Result Error (Unit {0}) × Db
  process_health_transition available archived db event ids now =
      if not available
      then (err Error.failed, db)
      else if any (same_event event.event_id event.organization_id) db.processed
      then (ok tt, db)
      else process_found archived db event (find_where (is_transition event) db.transitions) ids now

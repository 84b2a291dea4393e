-- ===== src/Incident/Rows.antt =====
-- internal/postgres/incident.go and its migrations: the rows that the projection of Incidents reads
-- and writes, their keys, and the conditions of the statements.
use probehive.Base.{
  String, Bool, true, false, ◌&&◌, ◌||◌, not, Option, none, some, List, [], ◌∷◌, if◌then◌else◌,
  str_eq,
}
use probehive.Base.Int.{ℤ, pos, ◌+ℤ◌, wrap64, eqb_ℤ}
use probehive.Base.Time.{Time, to_utc, zero_time}
use probehive.Health.Model as Health
use probehive.Run.Events.{OutboxEntry}
use probehive.Incident.Model.{State, Incident, Cause, TimelineEntry, HealthTransitioned}
use probehive.Store.Tables.{any}

-- A row of health_transitions.
pub record Transition : Type 0 where
  pub id : String
  pub organization_id : String
  pub monitor_id : String
  pub version : ℤ
  pub old_state : Health.State
  pub new_state : Health.State
  pub policy_version : String
  pub causal_run : Option (String × Time)
  pub counts : Health.Counts
  pub occurred_at : Time

-- A row of incident_projection_cursors.
pub record Cursor : Type 0 where
  pub organization_id : String
  pub monitor_id : String
  pub last_version : ℤ
  pub updated_at : Time

pub record Db : Type 0 where
  pub processed : List (String × String)
  pub transitions : List Transition
  pub cursors : List Cursor
  pub incidents : List Incident
  pub timeline : List TimelineEntry
  pub outbox : List OutboxEntry

abbrev pub same_event : String → String → String × String → Bool
same_event id organization_id row = str_eq id row.0 && str_eq organization_id row.1

-- `markOutboxEventProcessed`; the topic and the instant of the row are left out.
abbrev pub mark_processed : String → String → List (String × String) → List (String × String)
mark_processed id organization_id rows =
    if any (same_event id organization_id) rows then rows else (id, organization_id) ∷ rows

abbrev pub is_resolved : State → Bool
is_resolved State.resolved = true
is_resolved _ = false

abbrev pub is_opened : State → Bool
is_opened State.opened = true
is_opened _ = false

abbrev pub of_monitor : String → String → Incident → Bool
of_monitor organization_id monitor_id row =
    str_eq organization_id row.organization_id && str_eq monitor_id row.monitor_id

-- `findActiveIncidentForUpdate`.
abbrev pub is_active_of : String → String → Incident → Bool
is_active_of organization_id monitor_id row =
    of_monitor organization_id monitor_id row && not (is_resolved row.state)

abbrev pub cursor_of : String → String → Cursor → Bool
cursor_of organization_id monitor_id row =
    str_eq organization_id row.organization_id && str_eq monitor_id row.monitor_id

-- `INSERT … ON CONFLICT (organization_id, monitor_id) DO UPDATE`.
abbrev pub advance_cursor : String → String → ℤ → Time → List Cursor → List Cursor
advance_cursor organization_id monitor_id version now [] =
    record {
      organization_id = organization_id;
      monitor_id = monitor_id;
      last_version = version;
      updated_at = to_utc now;
    }
    ∷ []
advance_cursor organization_id monitor_id version now (row ∷ rows) =
    if cursor_of organization_id monitor_id row
    then record row { last_version = version; updated_at = to_utc now } ∷ rows
    else row ∷ advance_cursor organization_id monitor_id version now rows

abbrev pub matches : HealthTransitioned → Transition → Bool
matches event row =
    str_eq row.monitor_id event.monitor_id
    && eqb_ℤ row.version event.aggregate_version
    && Health.state_eq row.old_state event.old_state
    && Health.state_eq row.new_state event.new_state
    && str_eq row.policy_version event.policy_version

abbrev pub cause_of : HealthTransitioned → Transition → Cause
cause_of event row = record {
  health_transition_id = event.transition_id;
  old_health_state = event.old_state;
  new_health_state = event.new_state;
  policy_version = event.policy_version;
  causal_run = row.causal_run;
  counts = row.counts;
}

-- The unique index ux_incidents_unresolved_monitor.
abbrev pub is_unresolved_of : String → Incident → Bool
is_unresolved_of monitor_id row = str_eq monitor_id row.monitor_id && not (is_resolved row.state)

abbrev pub same_id : Incident → Incident → Bool
same_id a b = str_eq a.id b.id

abbrev pub both_unresolved : Incident → Incident → Bool
both_unresolved a b =
    str_eq a.monitor_id b.monitor_id && not (is_resolved a.state) && not (is_resolved b.state)

-- The keys of incident_timeline_entries.
abbrev pub same_entry : TimelineEntry → TimelineEntry → Bool
same_entry a b =
    str_eq a.id b.id
    || str_eq a.incident_id b.incident_id && eqb_ℤ a.incident_version b.incident_version

unfoldable pub append_timeline : TimelineEntry → List TimelineEntry → Option (List TimelineEntry)
append_timeline entry rows = if any (same_entry entry) rows then none else some (entry ∷ rows)

abbrev pub opened_row : HealthTransitioned → String → Time → Incident
opened_row event id occurred_at = record {
  id = id;
  organization_id = event.organization_id;
  monitor_id = event.monitor_id;
  state = State.opened;
  version = pos 1;
  opened_transition_id = event.transition_id;
  acknowledged_by = "";
  acknowledged_at = zero_time;
  resolved_transition_id = "";
  resolved_at = zero_time;
  created_at = to_utc occurred_at;
  updated_at = to_utc occurred_at;
}

-- `value.Version + 1`.
unfoldable pub next_version : ℤ → ℤ
next_version version = wrap64 (version +ℤ pos 1)

abbrev pub resolved_row : HealthTransitioned → ℤ → Time → Incident → Incident
resolved_row event version occurred_at row = record row {
  state = State.resolved;
  version = version;
  resolved_transition_id = event.transition_id;
  resolved_at = to_utc occurred_at;
  updated_at = to_utc occurred_at;
}

-- `WHERE id=… AND organization_id=… AND state <> 'resolved'`.
abbrev pub resolves : Incident → Incident → Bool
resolves value row =
    str_eq value.id row.id
    && str_eq value.organization_id row.organization_id
    && not (is_resolved row.state)

abbrev pub acknowledged_row : ℤ → String → Time → Incident → Incident
acknowledged_row version actor_id now row = record row {
  state = State.acknowledged;
  version = version;
  acknowledged_by = actor_id;
  acknowledged_at = to_utc now;
  updated_at = to_utc now;
}

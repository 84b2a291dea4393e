-- ===== src/Incident/Model.antt =====
-- internal/incident/incident.go: Incidents, their timeline and the events about them. A Go string
-- type with named constants is a data type; a missing value is `none`.
use probehive.Base.{String, Option}
use probehive.Base.Int.{ℤ}
use probehive.Base.Time.{Time}
use probehive.Health.Model as Health

pub data State : Type 0 where
  opened acknowledged resolved : State

pub data TimelineKind : Type 0 where
  opened acknowledged resolved : TimelineKind

pub record Incident : Type 0 where
  pub id : String
  pub organization_id : String
  pub monitor_id : String
  pub state : State
  pub version : ℤ
  pub opened_transition_id : String
  pub acknowledged_by : String
  pub acknowledged_at : Time
  pub resolved_transition_id : String
  pub resolved_at : Time
  pub created_at : Time
  pub updated_at : Time

-- The health transition that an entry is about, and what caused it.
pub record Cause : Type 0 where
  pub health_transition_id : String
  pub old_health_state : Health.State
  pub new_health_state : Health.State
  pub policy_version : String
  pub causal_run : Option (String × Time)
  pub counts : Health.Counts

pub record TimelineEntry : Type 0 where
  pub id : String
  pub organization_id : String
  pub incident_id : String
  pub incident_version : ℤ
  pub kind : TimelineKind
  pub cause : Option Cause
  pub actor_user_id : String
  pub occurred_at : Time

pub record HealthTransitioned : Type 0 where
  pub event_id : String
  pub organization_id : String
  pub occurred_at : Time
  pub aggregate_type : String
  pub aggregate_id : String
  pub aggregate_version : ℤ
  pub causation_id : String
  pub transition_id : String
  pub monitor_id : String
  pub old_state : Health.State
  pub new_state : Health.State
  pub policy_version : String

pub record IncidentTransitioned : Type 0 where
  pub event_id : String
  pub organization_id : String
  pub occurred_at : Time
  pub aggregate_type : String
  pub aggregate_id : String
  pub aggregate_version : ℤ
  pub causation_id : String
  pub incident_id : String
  pub monitor_id : String
  pub transition : String

pub record ProcessIds : Type 0 where
  pub incident_id : String
  pub timeline_id : String
  pub alert_event_id : String

-- `failed` stands for every error that the package does not name.
pub data Error : Type 0 where
  payload_invalid organization_mismatch conflict version_gap failed : Error

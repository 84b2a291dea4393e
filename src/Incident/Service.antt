-- ===== src/Incident/Service.antt =====
-- internal/incident/incident.go: the validation of health transitions and the service's guards. What
-- `json.Unmarshal`, the UUID generator and the store answer are arguments.
use probehive.Base.{
  ℕ, String, Bool, true, false, Option, none, some, List, [], ◌∷◌, ◌||◌, ◌&&◌, not, Result, ok, err,
  ◌>>=◌, ◌>>◌, fail_if, is_empty, str_eq, if◌then◌else◌,
}
use probehive.Base.Int.{ℤ, pos, ltb_ℤ}
use probehive.Base.Time.{Time, to_utc, has_zero_offset}
use probehive.Health.Model as Health
use probehive.Incident.Model.{Incident, HealthTransitioned, ProcessIds, Error}

abbrev pub is_utc : Time → Bool
is_utc value = has_zero_offset value

abbrev pub known_state : Health.State → Bool
known_state (Health.State.other _) = false
known_state _ = true

unfoldable pub validate_health_transition : HealthTransitioned → Result Error (Unit {0})
validate_health_transition event = do
  fail_if
      (is_empty event.event_id
        || is_empty event.organization_id
        || is_empty event.transition_id
        || is_empty event.monitor_id
        || is_empty event.policy_version)
      Error.payload_invalid
  fail_if
      (not (str_eq event.aggregate_type "monitorHealth")
        || not (str_eq event.aggregate_id event.monitor_id)
        || ltb_ℤ event.aggregate_version (pos 1)
        || Health.state_eq event.old_state event.new_state
        || not (is_utc event.occurred_at))
      Error.payload_invalid
  fail_if (not (known_state event.old_state)) Error.payload_invalid
  fail_if (not (known_state event.new_state)) Error.payload_invalid
  ok tt

abbrev pub generated : Option String → Result Error String
generated none = err Error.failed
generated (some id) = ok id

abbrev pub unmarshalled : Option HealthTransitioned → Result Error HealthTransitioned
unmarshalled none = err Error.payload_invalid
unmarshalled (some event) = ok event

unfoldable pub handle_health_transition :
    (List ℕ → Option HealthTransitioned)
    → (ℕ → Option String)
    → (HealthTransitioned → ProcessIds → Time → Result Error (Unit {0}))
    → String
    → String
    → List ℕ
    → Time
    → Result Error (Unit {0})
handle_health_transition unmarshal new_uuid process event_id organization_id payload clock = do
  event ← unmarshalled (unmarshal payload)
  validate_health_transition event
  fail_if (not (str_eq event.event_id event_id)) Error.payload_invalid
  fail_if (not (str_eq event.organization_id organization_id)) Error.organization_mismatch
  incident_id ← generated (new_uuid 0)
  timeline_id ← generated (new_uuid 1)
  alert_event_id ← generated (new_uuid 2)
  process event
      (record {
        incident_id = incident_id;
        timeline_id = timeline_id;
        alert_event_id = alert_event_id;
      })
      (to_utc clock)

pub record Scope : Type 0 where
  pub organization_id : String
  pub monitor_id : String

-- `Scope.Validate`, as a test.
abbrev pub valid_scope : Scope → Bool
valid_scope scope = not (is_empty scope.organization_id) && not (is_empty scope.monitor_id)

pub record Cursor : Type 0 where
  pub created_at : Time
  pub id : String

pub record Page : Type 0 where
  pub incidents : List Incident
  pub next_cursor : Option Cursor

abbrev pub max_page_size : ℤ
max_page_size = pos 100

abbrev pub valid_cursor : Option Cursor → Bool
valid_cursor none = true
valid_cursor (some cursor) = not (is_empty cursor.id) && is_utc cursor.created_at

abbrev pub last_cursor : List Incident → Option Cursor
last_cursor [] = none
last_cursor (x ∷ []) = some (record { created_at = x.created_at; id = x.id })
last_cursor (x ∷ y ∷ rest) = last_cursor (y ∷ rest)

abbrev pub page_of : List Incident → Bool → Page
page_of values more = record {
  incidents = values;
  next_cursor = if more then last_cursor values else none;
}

-- `List`; the store answers the rows, whether there are more, and whether the Monitor was found.
unfoldable pub list :
    (Scope → ℤ → Option Cursor → Result Error (Option (List Incident × Bool)))
    → Scope
    → ℤ
    → Option Cursor
    → Result Error (Option Page)
list list_incidents scope page_size cursor = do
  fail_if (not (valid_scope scope)) Error.failed
  fail_if (ltb_ℤ page_size (pos 1) || ltb_ℤ max_page_size page_size) Error.failed
  fail_if (not (valid_cursor cursor)) Error.failed
  found ← list_incidents scope page_size cursor
  ok (elim found [ none ↦ none | some (values, more) ↦ some (page_of values more) ])

-- `Acknowledge`.
unfoldable pub acknowledge :
    (Scope → String → String → String → Time → Result Error (Option Incident))
    → Option String
    → Scope
    → String
    → String
    → Time
    → Result Error (Option Incident)
acknowledge acknowledge_incident uuid scope id actor_id clock = do
  fail_if (not (valid_scope scope)) Error.failed
  fail_if (is_empty id || is_empty actor_id) Error.failed
  timeline_id ← generated uuid
  acknowledge_incident scope id actor_id timeline_id (to_utc clock)

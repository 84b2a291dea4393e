-- ===== src/Run/Events.antt =====
-- internal/run/events.go and the outbox entries of internal/run/observation.go.
use probehive.Base.{
  ℕ, String, Bool, not, ◌||◌, Option, none, some, List, Result, ok, err, ◌>>=◌, ◌>>◌, fail_if,
  is_empty, byte_len, ltb, ◌*◌, ◌==◌, length,
}
use probehive.Base.Int.{ℤ, pos, ◌*ℤ◌}
use probehive.Base.Time.{Time, to_utc}
use probehive.Run.Model.{Kind, Outcome, Run, is_utc, is_in_flight}
use probehive.Run.Schedule.{floor_div}

pub record OutboxEntry : Type 0 where
  pub id : String
  pub organization_id : String
  pub topic : String
  pub payload : List ℕ
  pub created_at : Time

pub record RunRecorded : Type 0 where
  pub event_id : String
  pub organization_id : String
  pub occurred_at : Time
  pub aggregate_type : String
  pub aggregate_id : String
  pub aggregate_version : ℤ
  pub run_id : String
  pub monitor_id : String
  pub revision_number : ℤ
  pub location : String
  pub scheduled_for : Time
  pub kind : Kind
  pub outcome : Outcome

pub data EntryError : Type 0 where
  id_required run_in_flight occurrence_not_utc marshal_failed : EntryError
  identity_required topic_invalid payload_invalid payload_too_long created_not_utc : EntryError

abbrev pub max_topic_length : ℕ
max_topic_length = 100

abbrev pub max_payload_bytes : ℕ
max_payload_bytes = 16 * 1024

-- `value.UTC().Truncate(time.Microsecond)`: down to a whole microsecond since the zero `Time`.
unfoldable pub canonical_instant : Time → Time
canonical_instant value = record (to_utc value) {
  instant = floor_div value.instant (pos 1000) *ℤ pos 1000;
}

unfoldable pub run_recorded : String → Run → Time → RunRecorded
run_recorded id value occurred_at = record {
  event_id = id;
  organization_id = value.slot.organization_id;
  occurred_at = occurred_at;
  aggregate_type = "run";
  aggregate_id = value.id;
  aggregate_version = pos 1;
  run_id = value.id;
  monitor_id = value.slot.monitor_id;
  revision_number = value.slot.revision_number;
  location = value.slot.location;
  scheduled_for = canonical_instant value.slot.scheduled_for;
  kind = value.kind;
  outcome = value.outcome;
}

-- `encoding/json`, which the code calls: what `Marshal` writes, if it can, and `Valid`.
pub record Json : Type 0 where
  pub marshal : RunRecorded → Option (List ℕ)
  pub valid : List ℕ → Bool

abbrev marshalled : Option (List ℕ) → Result EntryError (List ℕ)
marshalled none = err EntryError.marshal_failed
marshalled (some payload) = ok payload

module _ (json : Json) where
  unfoldable pub validate_entry : OutboxEntry → Result EntryError (Unit {0})
  validate_entry value = do
    fail_if (is_empty value.id || is_empty value.organization_id) EntryError.identity_required
    fail_if (is_empty value.topic || ltb max_topic_length (byte_len value.topic))
        EntryError.topic_invalid
    fail_if (length value.payload == 0 || not (json.valid value.payload)) EntryError.payload_invalid
    fail_if (ltb max_payload_bytes (length value.payload)) EntryError.payload_too_long
    fail_if (not (is_utc value.created_at)) EntryError.created_not_utc
    ok tt

  unfoldable pub new_run_recorded_entry : String → Run → Time → Result EntryError OutboxEntry
  new_run_recorded_entry id value occurred_at = do
    fail_if (is_empty id) EntryError.id_required
    fail_if (is_in_flight value.outcome) EntryError.run_in_flight
    fail_if (not (is_utc occurred_at)) EntryError.occurrence_not_utc
    payload ← marshalled (json.marshal (run_recorded id value occurred_at))
    let entry = new_entry payload
    validate_entry entry
    ok entry
    where
      new_entry : List ℕ → OutboxEntry
      new_entry payload = record {
        id = id;
        organization_id = value.slot.organization_id;
        topic = "run.recorded.v1";
        payload = payload;
        created_at = occurred_at;
      }

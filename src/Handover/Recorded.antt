-- ===== src/Handover/Recorded.antt =====
-- The contract between internal/run/events.go, which writes an event, and internal/health/service.go,
-- which reads it. `encoding/json` lies between them.
use probehive.Base.{
  refl, sym, ◌∙◌, String, List, ℕ, true, false, Option, some, ok, ◌≡◌, arith, is_empty, str_eq_refl,
}
use probehive.Base.Int.{pos, ◌≤ℤ◌, ◌*ℤ◌, +ℤ_parts}
use probehive.Base.Time.{Time, to_utc, is_zero}
use probehive.Health.Model as Health
use probehive.Health.Service.{
  RunRecorded, validate_run_recorded, read_event, valid_kind, valid_outcome,
}
use probehive.Run.Model.{Kind, Outcome, Run, is_utc, validate_slot, is_in_flight}
use probehive.Run.Events.{
  Json, OutboxEntry, canonical_instant, run_recorded, new_run_recorded_entry, validate_entry,
}
use probehive.Run.Events as Events
use probehive.Run.FloorDiv.{floor_div_bounds}
use probehive.Run.Schedule.{floor_div}
use probehive.Run.Validity.{IsValid}

-- A string type of one package as the other package reads it.
abbrev pub read_kind : Kind → Health.Kind
read_kind Kind.scheduled = Health.Kind.scheduled
read_kind Kind.confirmation = Health.Kind.confirmation
read_kind Kind.manual = Health.Kind.manual
read_kind (Kind.other s) = Health.Kind.other s

abbrev pub read_outcome : Outcome → Health.Outcome
read_outcome Outcome.in_flight = Health.Outcome.empty
read_outcome Outcome.passed = Health.Outcome.passed
read_outcome Outcome.failed = Health.Outcome.failed
read_outcome Outcome.errored = Health.Outcome.errored
read_outcome Outcome.timed_out = Health.Outcome.timed_out
read_outcome Outcome.cancelled = Health.Outcome.cancelled
read_outcome Outcome.skipped = Health.Outcome.skipped
read_outcome (Outcome.other s) = Health.Outcome.other s

-- The event as the other package decodes it; a time in UTC is written with `Z` and read as UTC.
abbrev pub read_back : Events.RunRecorded → RunRecorded
read_back e = record {
  event_id = e.event_id;
  organization_id = e.organization_id;
  occurred_at = to_utc e.occurred_at;
  aggregate_type = e.aggregate_type;
  aggregate_id = e.aggregate_id;
  aggregate_version = e.aggregate_version;
  run_id = e.run_id;
  monitor_id = e.monitor_id;
  revision_number = e.revision_number;
  location = e.location;
  scheduled_for = to_utc e.scheduled_for;
  kind = read_kind e.kind;
  outcome = read_outcome e.outcome;
}

canonical_set : (t : Time) → pos 1000 ≤ℤ t.instant → is_zero (canonical_instant t) ≡ false
unfolding canonical_instant
canonical_set t late = ground (
  arith,
  floor_div_bounds t.instant 1000,
  +ℤ_parts (floor_div t.instant (pos 1000) *ℤ pos 1000) (pos 1000),
)

valid_identity :
    (r : Run)
    → IsValid r
    → (is_empty r.slot.organization_id ≡ false)
      × (is_empty r.slot.monitor_id ≡ false)
      × (pos 1 ≤ℤ r.slot.revision_number)
      × (is_empty r.slot.location ≡ false)
unfolding validate_slot
valid_identity r v = ground (arith, v.slot_valid)

valid_outcome_read :
    (r : Run)
    → IsValid r
    → is_in_flight r.outcome ≡ false
    → valid_outcome (read_outcome r.outcome) ≡ true
valid_outcome_read r v e = ground (arith, v.state)

valid_kind_read : (r : Run) → IsValid r → valid_kind (read_kind r.kind) ≡ true
valid_kind_read r v = ground (arith, v.kind_valid)

abbrev event_of : String → Run → Time → RunRecorded
event_of id r at = read_back (run_recorded id r at)

accepts_event :
    (id : String) (r : Run) (at : Time)
    → IsValid r
    → is_empty id ≡ false
    → is_in_flight r.outcome ≡ false
    → is_utc at ≡ true
    → pos 1000 ≤ℤ r.slot.scheduled_for.instant
    → validate_run_recorded (event_of id r at) ≡ ok tt
unfolding validate_run_recorded run_recorded
accepts_event id r at v named ended u late = ground (
  arith,
  v.identified,
  valid_identity r v,
  valid_outcome_read r v ended,
  valid_kind_read r v,
  canonical_set r.slot.scheduled_for late,
  str_eq_refl r.id,
)

module _ (json : Json) (id : String) (r : Run) (at : Time) (entry : OutboxEntry)
    (made : new_run_recorded_entry json id r at ≡ ok entry) where
  entry_checks :
      (is_empty id ≡ false)
      × (is_in_flight r.outcome ≡ false)
      × (is_utc at ≡ true)
      × (json.marshal (run_recorded id r at) ≡ some entry.payload)
      × (entry.id ≡ id)
      × (entry.organization_id ≡ r.slot.organization_id)
  unfolding new_run_recorded_entry
  entry_checks = ground arith

read_accepted :
    (unmarshal : List ℕ → Option RunRecorded) (id org : String) (payload : List ℕ) (e : RunRecorded)
    → unmarshal payload ≡ some e
    → validate_run_recorded e ≡ ok tt
    → e.event_id ≡ id
    → e.organization_id ≡ org
    → read_event unmarshal id org payload ≡ ok e
unfolding read_event
read_accepted unmarshal id org payload e decodes valid same_id same_org =
    ground (arith, str_eq_refl id, str_eq_refl org)

names_event : (id : String) (r : Run) (at : Time) → (event_of id r at).event_id ≡ id
unfolding run_recorded
names_event id r at = refl

names_organization :
    (id : String) (r : Run) (at : Time)
    → (event_of id r at).organization_id ≡ r.slot.organization_id
unfolding run_recorded
names_organization id r at = refl

-- The outbox entry that is made for a valid Run, scheduled at least a microsecond after the zero
-- Time, is accepted by the health handler under the entry's own identifier and Organization, and is
-- read as the event that was written. JSON is taken to decode what it
-- encoded for the event.
pub recorded_accepted :
    (json : Json) (unmarshal : List ℕ → Option RunRecorded) (id : String) (r : Run) (at : Time)
    (entry : OutboxEntry)
    → ((payload : List ℕ)
        → json.marshal (run_recorded id r at) ≡ some payload
        → unmarshal payload ≡ some (read_back (run_recorded id r at)))
    → IsValid r
    → pos 1000 ≤ℤ r.slot.scheduled_for.instant
    → new_run_recorded_entry json id r at ≡ ok entry
    → read_event unmarshal entry.id entry.organization_id entry.payload
      ≡ ok (read_back (run_recorded id r at))
recorded_accepted json unmarshal id r at entry decodes v late made =
    let (named, ended, u, written, same_id, same_org) = entry_checks json id r at entry made in
    read_accepted unmarshal entry.id entry.organization_id entry.payload (event_of id r at)
      (decodes entry.payload written) (accepts_event id r at v named ended u late)
      (names_event id r at ∙ sym same_id) (names_organization id r at ∙ sym same_org)

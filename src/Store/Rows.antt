-- ===== src/Store/Rows.antt =====
-- internal/postgres/run.go and its migrations: the rows of runs, observations and health_candidates,
-- their keys, and the conditions of the statements. A NULL is the zero value that it is read as.
use probehive.Base.{
  String, Bool, true, false, ◌&&◌, ◌||◌, not, Option, none, some, List, Result, ok, err,
  if◌then◌else◌, is_empty, str_eq,
}
use probehive.Base.Int.{pos, ◌*ℤ◌, quot, wrap32, eqb_ℤ, leb_ℤ}
use probehive.Base.Time.{Time, Duration, same_instant, to_utc, zero_time, is_zero}
use probehive.Run.Model as Model
use probehive.Run.Model.{
  Kind, Slot, ConfirmationCause, Run, is_confirmation, is_in_flight, is_skipped,
}
use probehive.Run.Lifecycle.{new_run}
use probehive.Run.Observation.{Observation, Phases, TlsDetail, HttpDetail}
use probehive.Run.Events.{OutboxEntry}
use probehive.Run.Scheduler.{StoreError, failed}

-- The part of a row of health_candidates that names its confirmation Run.
pub record CandidateLink : Type 0 where
  pub id : String
  pub organization_id : String
  pub confirmation_run : Option (String × Time)

pub record Db : Type 0 where
  pub runs : List Run
  pub observations : List Observation
  pub outbox : List OutboxEntry
  pub candidates : List CandidateLink

abbrev pub is_manual : Kind → Bool
is_manual Kind.manual = true
is_manual _ = false

-- The unique index ux_runs_slot, which leaves manual Runs out.
abbrev pub same_slot : Slot → Slot → Bool
same_slot a b =
    str_eq a.monitor_id b.monitor_id
    && eqb_ℤ a.revision_number b.revision_number
    && str_eq a.location b.location
    && same_instant a.scheduled_for b.scheduled_for

abbrev pub contends : Run → Run → Bool
contends a b = not (is_manual a.kind) && not (is_manual b.kind) && same_slot a.slot b.slot

-- The primary key.
abbrev pub same_key : Run → Run → Bool
same_key a b = str_eq a.id b.id && same_instant a.slot.scheduled_for b.slot.scheduled_for

abbrev pub same_candidate : Option ConfirmationCause → Option ConfirmationCause → Bool
same_candidate none b = false
same_candidate (some a) none = false
same_candidate (some a) (some b) = str_eq a.candidate_id b.candidate_id

-- The keys that an insert must not meet, the slot apart.
abbrev pub collides : Run → Run → Bool
collides a b =
    same_key a b
    || same_candidate a.confirmation b.confirmation
      && same_instant a.slot.scheduled_for b.slot.scheduled_for

abbrev pub stored_slot : Slot → Slot
stored_slot slot = record slot { scheduled_for = to_utc slot.scheduled_for }

-- `confirmationDatabaseValues`.
abbrev pub stored_cause : Option ConfirmationCause → Option ConfirmationCause
stored_cause none = none
stored_cause (some cause) =
    some (record cause { triggering_scheduled_for = to_utc cause.triggering_scheduled_for })

-- The row that `ClaimSlot` inserts.
abbrev pub claimed_row : Run → Run
claimed_row value = record (new_run value.id (stored_slot value.slot) value.kind) {
  confirmation = stored_cause value.confirmation;
  lease_holder = value.lease_holder;
  lease_expires_at = to_utc value.lease_expires_at;
}

abbrev pub manual_row : Run → Run
manual_row value = record (claimed_row value) { confirmation = none }

-- `scanRun` on a row that was found.
abbrev pub scanned : Result Model.Error Run → Result StoreError Run
scanned (ok r) = ok r
scanned (err e) = err failed

abbrev pub is_ok {ℓ κ} : {E : Type ℓ} {A : Type κ} → Result E A → Bool
is_ok (ok a) = true
is_ok (err e) = false

-- `WHERE runs.outcome IS NULL AND runs.lease_expires_at <= $16`.
abbrev pub reclaimable : Run → Time → Bool
reclaimable row now = is_in_flight row.outcome && leb_ℤ row.lease_expires_at.instant now.instant

abbrev pub leased_to : Run → Run → Run
leased_to value row = record row {
  lease_holder = value.lease_holder;
  lease_expires_at = to_utc value.lease_expires_at;
}

-- `WHERE id = … AND scheduled_for = … AND organization_id = … AND lease_holder = … AND outcome IS
-- NULL`; no holder equals a NULL.
abbrev pub held_by : Run → String → Run → Bool
held_by value holder row =
    same_key value row
    && str_eq value.slot.organization_id row.slot.organization_id
    && not (is_empty row.lease_holder)
    && str_eq holder row.lease_holder
    && is_in_flight row.outcome

-- The columns hold whole microseconds.
abbrev pub microseconds : Duration → Duration
microseconds d = quot d (pos 1000) *ℤ pos 1000

abbrev pub stored_phases : Phases → Phases
stored_phases p = record {
  connect = microseconds p.connect;
  tls = microseconds p.tls;
  first_byte = microseconds p.first_byte;
}

-- The three columns of a TLS detail are NULL together where it is empty.
abbrev pub stored_tls : Option TlsDetail → Option TlsDetail
stored_tls none = none
stored_tls (some tls) =
    if is_empty tls.version && is_empty tls.cipher_suite && is_zero tls.certificate_expires_at
    then none
    else some (record tls { certificate_expires_at = to_utc tls.certificate_expires_at })

abbrev pub stored_http : Option HttpDetail → Option HttpDetail
stored_http none = none
stored_http (some http) =
    some (record http { redirect_count = wrap32 http.redirect_count; tls = stored_tls http.tls })

-- The row of `insertObservation`, as `FindObservation` reads it.
abbrev pub stored_observation : Observation → Observation
stored_observation value = record value {
  scheduled_for = to_utc value.scheduled_for;
  duration = microseconds value.duration;
  phases = stored_phases value.phases;
  http = stored_http value.http;
}

abbrev pub same_observation : String → Time → Observation → Bool
same_observation id scheduled_for row =
    str_eq id row.run_id && same_instant scheduled_for row.scheduled_for

abbrev pub completed_row : Run → Run → Run
completed_row value row = record row {
  outcome = value.outcome;
  started_at = to_utc value.started_at;
  finished_at = to_utc value.finished_at;
  lease_holder = "";
  lease_expires_at = zero_time;
}

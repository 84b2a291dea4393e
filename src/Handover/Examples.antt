-- ===== src/Handover/Examples.antt =====
-- A passed Run and its event: the theorem about what internal/run writes and internal/health reads
-- at inputs that meet its hypotheses.
use probehive.Base.{ℕ, List, true, [], ◌∷◌, Option, none, some, ok, ◌≡◌, refl, ◌*◌, ◌+◌, arith}
use probehive.Base.Int.{pos}
use probehive.Base.Time.{Time, utc, second, zero_time}
use probehive.Health.Service.{RunRecorded, read_event}
use probehive.Run.Model.{Kind, Outcome, Run, validate_slot}
use probehive.Run.Lifecycle.{restore_with_cause}
use probehive.Run.Validity.{IsValid}
use probehive.Run.Persistence.{restore-IsValid}
use probehive.Run.Events.{Json, OutboxEntry, run_recorded, new_run_recorded_entry, validate_entry}
use probehive.Handover.Recorded.{read_back, recorded_accepted}

-- Noon of 1 March 2026, and so many seconds later.
abbrev at_second : ℕ → Time
at_second n = record { instant = pos ((63908006400 + n) * second); location = utc }

abbrev passed_run : Run
passed_run = record {
  id = "run";
  slot = record {
    organization_id = "org";
    monitor_id = "monitor";
    revision_number = pos 1;
    location = "default";
    scheduled_for = at_second 0;
  };
  kind = Kind.scheduled;
  confirmation = none;
  outcome = Outcome.passed;
  started_at = at_second 1;
  finished_at = at_second 2;
  lease_holder = "";
  lease_expires_at = zero_time;
}

-- An encoder that writes an empty object, and a decoder that knows the one event.
abbrev json : Json
json = record { marshal = λ e. some (123 ∷ 125 ∷ []); valid = λ p. true }

abbrev unmarshal : List ℕ → Option RunRecorded
unmarshal payload = some (read_back (run_recorded "event" passed_run (at_second 2)))

abbrev entry : OutboxEntry
entry = record {
  id = "event";
  organization_id = "org";
  topic = "run.recorded.v1";
  payload = 123 ∷ 125 ∷ [];
  created_at = at_second 2;
}

reads_passed : restore_with_cause passed_run ≡ ok passed_run
unfolding restore_with_cause validate_slot
reads_passed = refl

passed_run-IsValid : IsValid passed_run
passed_run-IsValid = (restore-IsValid passed_run passed_run reads_passed).0

writes_entry : new_run_recorded_entry json "event" passed_run (at_second 2) ≡ ok entry
unfolding new_run_recorded_entry validate_entry
writes_entry = refl

recorded_accepted_example :
    read_event unmarshal entry.id entry.organization_id entry.payload
    ≡ ok (read_back (run_recorded "event" passed_run (at_second 2)))
recorded_accepted_example =
    recorded_accepted json unmarshal "event" passed_run (at_second 2) entry (λ p e. refl)
      passed_run-IsValid (ground arith) writes_entry

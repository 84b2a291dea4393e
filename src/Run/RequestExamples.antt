-- ===== src/Run/RequestExamples.antt =====
-- A manual Run and a confirmation: the theorems about internal/run/manual.go and
-- internal/run/confirmation.go at inputs that meet their hypotheses.
use probehive.Base.{ℕ, true, false, some, none, [], ◌∷◌, ok, err, ◌≡◌, ◌⊎◌, refl, ◌*◌, ◌+◌}
use probehive.Base.Int.{pos, ◌+ℤ◌, wrap64}
use probehive.Base.Time.{Time, utc, seconds, second, add, zero_time}
use probehive.Run.Model.{Outcome, validate_slot, validate_cause}
use probehive.Run.Lifecycle.{claim_confirmation, complete}
use probehive.Run.Lease.{lease_duration}
use probehive.Run.Schedule.{Schedulable}
use probehive.Run.Events.{Json, new_run_recorded_entry, validate_entry}
use probehive.Run.Scheduler.{Execution, StoreError}
use probehive.Run.Manual.{Scope, ManualConfig, ManualAnswers}
use probehive.Run.Confirming.{
  ConfirmationRequest, ConfirmationAnswers, valid_request, record_confirmation,
  execute_confirmation, claimed_confirmation, claim_request, execute_request,
}
use probehive.Run.Confirmed.{Known, Recorded, execute_request-Settles}

abbrev at_second : ℕ → Time
at_second n = record { instant = pos ((63908006400 + n) * second); location = utc }

abbrev json : Json
json = record { marshal = λ e. some (123 ∷ 125 ∷ []); valid = λ p. true }

abbrev execution : Execution
execution = record {
  outcome = Outcome.failed;
  started_at = at_second 11;
  finished_at = at_second 12;
  observation = record {
    run_id = "";
    scheduled_for = zero_time;
    organization_id = "";
    failure_code = "timeout";
    failure_class = "network";
    duration = seconds 1;
    phases = record { connect = pos 0; tls = pos 0; first_byte = pos 0 };
    http = none;
  };
}

abbrev target : Schedulable
target = record {
  organization_id = "org";
  monitor_id = "monitor";
  revision_number = pos 1;
  check_type = "http";
  check_schema_version = pos 1;
  check_configuration = 123 ∷ 125 ∷ [];
  interval = seconds 60;
  not_before = at_second 0;
}

abbrev config : ManualConfig
config = record { location = "default"; execution_ceiling = seconds 30 }

abbrev scope : Scope
scope = record { organization_id = "org"; monitor_id = "monitor" }

-- The write of the result fails, so the Run is given back.
abbrev answers : ManualAnswers
answers = record {
  target = ok (some target);
  monitor_exists = ok true;
  acquired = true;
  holder = some "person";
  run_id = some "run";
  claim_slot = λ r. ok r;
  execution = execution;
  stopped = false;
  event_id = some "event";
  complete = λ r h. err StoreError.failed;
}

abbrev request : ConfirmationRequest
request = record {
  event_id = "cause";
  organization_id = "org";
  candidate_id = "candidate";
  monitor_id = "monitor";
  revision_number = pos 1;
  location = "default";
  triggering_run_id = "first";
  triggering_scheduled_for = at_second 0;
  requested_for = at_second 10;
  expected_evidence = "failing";
  policy_version = "phase1.v1";
}

abbrev confirmation_answers : ConfirmationAnswers
confirmation_answers = record {
  target = ok true;
  acquired = true;
  holder = some "worker";
  run_id = some "run";
  claim_slot = λ r. ok r;
  existing = ok none;
  execution = execution;
  stopped = false;
  event_id = some "event";
  complete = λ r h. ok tt;
}

confirms : (execute_request json (seconds 30) confirmation_answers request (at_second 10)).1 ≡ ok tt
unfolding execute_request valid_request claim_request claimed_confirmation execute_confirmation
    record_confirmation claim_confirmation validate_slot validate_cause complete
    new_run_recorded_entry validate_entry lease_duration add ◌+ℤ◌ wrap64
confirms = refl

execute_request-Settles_example :
    ((confirmation_answers.target ≡ ok false)
      × ((execute_request json (seconds 30) confirmation_answers request (at_second 10)).0 ≡ []))
    ⊎ Known confirmation_answers request
        (execute_request json (seconds 30) confirmation_answers request (at_second 10)).0
    ⊎ Recorded confirmation_answers request
        (execute_request json (seconds 30) confirmation_answers request (at_second 10)).0
execute_request-Settles_example =
    execute_request-Settles json (seconds 30) confirmation_answers request (at_second 10) confirms

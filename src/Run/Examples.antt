-- ===== src/Run/Examples.antt =====
-- Concrete slots, Runs and schedules: the theorems about internal/run at inputs that meet their
-- hypotheses.
use probehive.Base.{◌⊎◌, ℕ, true, false, none, some, [], ◌∷◌, ok, err, ◌≡◌, ◌*◌, ◌+◌, refl, arith}
use probehive.Base.Int.{ℤ, pos, ◌+ℤ◌, ◌≤ℤ◌, ◌<ℤ◌, quot, rem, ◌-ℤ◌, ◌*ℤ◌}
use probehive.Base.Time.{Time, utc, seconds, second, add, is_zero, zero_time}
use probehive.Base.Hash.{fnv64a}
use probehive.Run.Model.{Kind, Outcome, Error, Slot, Run, validate_slot}
use probehive.Run.Lifecycle.{claim, skip, renew_lease, complete, restore_with_cause}
use probehive.Run.Lease.{lease_duration}
use probehive.Run.Validity.{
  Made, claimed, renewed, completed, IsValid, IsSkippedConfirmation, Made-IsValid,
}
use probehive.Run.Persistence.{restore-Made, skip_confirmation_unreadable}
use probehive.Run.Leases.{lease_may_lapse}
use probehive.Run.Schedule.{
  Schedulable, floor_div, slot_for, slot_offset, whole_seconds, unix, from_unix, missed_slots,
  missed_from, validate_schedulable, effective_interval,
}
use probehive.Run.FloorDiv.{floor_div_bounds}
use probehive.Run.Slots.{series, slot_for-current, slot_for_unique, series_step}
use probehive.Run.Missed.{missed_slots_complete}
use probehive.Run.Events.{Json}
use probehive.Run.Scheduler.{Config, Attempted, Plan, Answers, last_attempt, set_attempt, plan}
use probehive.Run.Backfill.{MissedAnswers}
use probehive.Run.Suppression.{plan_once}

-- Noon of 1 March 2026, and so many seconds later.
abbrev at_second : ℕ → Time
at_second n = record { instant = pos ((63908006400 + n) * second); location = utc }

abbrev noon_slot : Slot
noon_slot = record {
  organization_id = "org";
  monitor_id = "monitor";
  revision_number = pos 1;
  location = "default";
  scheduled_for = at_second 0;
}

abbrev waiting : Run
waiting = record {
  id = "run";
  slot = noon_slot;
  kind = Kind.scheduled;
  confirmation = none;
  outcome = Outcome.in_flight;
  started_at = zero_time;
  finished_at = zero_time;
  lease_holder = "worker";
  lease_expires_at = at_second 60;
}

abbrev renewed_run : Run
renewed_run = record waiting { lease_expires_at = at_second 90 }

abbrev passed_run : Run
passed_run = record waiting {
  outcome = Outcome.passed;
  started_at = at_second 1;
  finished_at = at_second 2;
  lease_holder = "";
  lease_expires_at = zero_time;
}

abbrev skipped_confirmation : Run
skipped_confirmation = record waiting {
  kind = Kind.confirmation;
  outcome = Outcome.skipped;
  lease_holder = "";
  lease_expires_at = zero_time;
}

claims_waiting : claim "run" noon_slot Kind.scheduled "worker" (at_second 60) ≡ ok waiting
unfolding claim validate_slot
claims_waiting = refl

renews_waiting : renew_lease waiting (at_second 90) ≡ ok renewed_run
unfolding renew_lease
renews_waiting = refl

completes_renewed : complete renewed_run Outcome.passed (at_second 1) (at_second 2) ≡ ok passed_run
unfolding complete
completes_renewed = refl

passed_run-Made : Made passed_run
passed_run-Made =
    completed Outcome.passed (at_second 1) (at_second 2)
      (renewed (at_second 90)
        (claimed "run" noon_slot Kind.scheduled "worker" (at_second 60) claims_waiting)
        renews_waiting)
      completes_renewed

skips_confirmation : skip "run" noon_slot Kind.confirmation ≡ ok skipped_confirmation
unfolding skip validate_slot
skips_confirmation = refl

reads_passed : restore_with_cause passed_run ≡ ok passed_run
unfolding restore_with_cause validate_slot
reads_passed = refl

Made-IsValid_example : IsValid passed_run ⊎ IsSkippedConfirmation passed_run
Made-IsValid_example = Made-IsValid passed_run-Made

restore-Made_example :
    (restore_with_cause passed_run ≡ ok passed_run)
    ⊎ (IsSkippedConfirmation passed_run
        × (restore_with_cause passed_run ≡ err Error.cause_required))
restore-Made_example = restore-Made passed_run-Made

skip_confirmation_unreadable_example :
    restore_with_cause skipped_confirmation ≡ err Error.cause_required
skip_confirmation_unreadable_example =
    skip_confirmation_unreadable "run" noon_slot skipped_confirmation skips_confirmation

lease_may_lapse_example : lease_duration (pos (3600 * second)) <ℤ pos (3600 * second)
lease_may_lapse_example = lease_may_lapse (3600 * second) (ground arith) (ground arith)

floor_div_bounds_example :
    (floor_div (pos 7) (pos 3) *ℤ pos 3 ≤ℤ pos 7)
    × (pos 7 <ℤ floor_div (pos 7) (pos 3) *ℤ pos 3 +ℤ pos 3)
floor_div_bounds_example = floor_div_bounds (pos 7) 3 (ground arith)

-- The last slot of the Monitor before noon, at 11:59:29.
abbrev last_index : ℤ
last_index = pos 29540159

slot_for-current_example :
    (i : ℤ) × ((slot_for "monitor" (seconds 60) (at_second 0) ≡ ok (series "monitor" 60 i))
      × ((series "monitor" 60 i).instant ≤ℤ (at_second 0).instant)
      × ((at_second 0).instant <ℤ (series "monitor" 60 (i +ℤ pos 1)).instant))
slot_for-current_example = slot_for-current "monitor" 60 (ground arith) (at_second 0)

slot_reached : (series "monitor" 60 last_index).instant ≤ℤ (at_second 0).instant
unfolding from_unix slot_offset whole_seconds quot fnv64a ◌+ℤ◌ ◌*ℤ◌
slot_reached = ground arith

next_slot_ahead : (at_second 0).instant <ℤ (series "monitor" 60 (last_index +ℤ pos 1)).instant
unfolding from_unix slot_offset whole_seconds quot fnv64a ◌+ℤ◌ ◌*ℤ◌
next_slot_ahead = ground arith

slot_for_unique_example :
    slot_for "monitor" (seconds 60) (at_second 0) ≡ ok (series "monitor" 60 last_index)
slot_for_unique_example =
    slot_for_unique "monitor" 60 (ground arith) last_index (at_second 0) slot_reached
      next_slot_ahead

series_step_example :
    (series "monitor" 60 (last_index +ℤ pos 1)).instant
    ≡ (series "monitor" 60 last_index).instant +ℤ seconds 60
series_step_example = series_step "monitor" 60 last_index

-- A walk from 12:03:00 down to noon.
misses_two :
    missed_slots "monitor" (seconds 60) (at_second 180) (at_second 0) (pos 5)
    ≡ ok (at_second 120 ∷ at_second 60 ∷ [])
unfolding missed_slots missed_from add whole_seconds quot rem ◌+ℤ◌ ◌-ℤ◌
misses_two = refl

missed_slots_complete_example :
    (is_zero (at_second 0) ≡ false)
    × ((at_second 180).instant ≤ℤ (at_second 0).instant +ℤ seconds (3 * 60))
missed_slots_complete_example =
    missed_slots_complete "monitor" 60 4 (at_second 180) (at_second 0) (ground arith) misses_two
      (ground arith)

abbrev config : Config
config = record {
  location = "default";
  minimum_interval = seconds 30;
  execution_ceiling = seconds 40;
  max_backfill_slots = pos 5;
}

abbrev schedulable : Schedulable
schedulable = record {
  organization_id = "org";
  monitor_id = "monitor";
  revision_number = pos 1;
  check_type = "http";
  check_schema_version = pos 1;
  check_configuration = 123 ∷ 125 ∷ [];
  interval = seconds 60;
  not_before = zero_time;
}

-- Every event is written as an empty object.
abbrev json : Json
json = record { marshal = λ e. some (123 ∷ 125 ∷ []); valid = λ p. true }

abbrev answers : Answers
answers = record {
  holder = some "worker";
  run_id = some "run";
  claim_slot = λ r. ok r;
  stopped_at_claim = false;
  execution = record {
    outcome = Outcome.passed;
    started_at = at_second 1;
    finished_at = at_second 2;
    observation = record {
      run_id = "";
      scheduled_for = zero_time;
      organization_id = "";
      failure_code = "";
      failure_class = "";
      duration = seconds 1;
      phases = record { connect = pos 0; tls = pos 0; first_byte = pos 0 };
      http = none;
    };
  };
  stopped = false;
  event_id = some "event";
  complete = λ r holder. ok tt;
}

-- The slot before was attempted a minute earlier.
abbrev attempted : Attempted
attempted = ("monitor", series "monitor" 60 (pos 29540158)) ∷ []

abbrev planned : Plan
planned = record {
  due = series "monitor" 60 last_index;
  previous = series "monitor" 60 (pos 29540158);
}

plans : plan config attempted schedulable (at_second 0) ≡ some planned
unfolding plan validate_schedulable slot_for floor_div effective_interval last_attempt from_unix
    unix slot_offset whole_seconds quot rem fnv64a ◌+ℤ◌ ◌*ℤ◌ ◌-ℤ◌
plans = refl

due_set : is_zero planned.due ≡ false
unfolding from_unix slot_offset whole_seconds quot fnv64a ◌+ℤ◌ ◌*ℤ◌
due_set = refl

plan_once_example :
    plan config (set_attempt "monitor" planned.due attempted) schedulable (at_second 0)
    ≡ some (record { due = zero_time; previous = planned.due })
plan_once_example = plan_once config attempted schedulable (at_second 0) planned plans due_set

abbrev missed_answers : ℕ → MissedAnswers
missed_answers n = record {
  stopped = false;
  run_id = some "run";
  event_id = some "event";
  record_skipped = ok tt;
}

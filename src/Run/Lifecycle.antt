-- ===== src/Run/Lifecycle.antt =====
-- internal/run/run.go: the operations on a Run. A method that changes `*Run` returns the new record.
use probehive.Base.{
  String, Bool, true, false, Option, none, some, ◌||◌, not, Result, ok, err, ◌>>◌, fail_if,
  if◌then◌else◌, ltb, is_empty, byte_len,
}
use probehive.Base.Time.{Time, zero_time, is_zero, before, after}
use probehive.Run.Model.{
  Kind, Outcome, Error, Slot, ConfirmationCause, Run, max_lease_holder_length, is_utc, valid_kind,
  is_confirmation, valid_execution_outcome, is_in_flight, is_skipped, validate_slot, validate_cause,
}

-- The fields that a Go composite literal leaves out are zero.
abbrev pub new_run : String → Slot → Kind → Run
new_run id slot kind = record {
  id = id;
  slot = slot;
  kind = kind;
  confirmation = none;
  outcome = Outcome.in_flight;
  started_at = zero_time;
  finished_at = zero_time;
  lease_holder = "";
  lease_expires_at = zero_time;
}

unfoldable pub claim : String → Slot → Kind → String → Time → Result Error Run
claim id slot kind holder lease_expires_at = do
  fail_if (is_empty id) Error.id_required
  validate_slot slot
  fail_if (not (valid_kind kind)) Error.kind_unknown
  fail_if (is_confirmation kind) Error.cause_required
  fail_if (is_empty holder || ltb max_lease_holder_length (byte_len holder)) Error.holder_invalid
  fail_if (not (is_utc lease_expires_at)) Error.lease_not_utc
  ok (record (new_run id slot kind) { lease_holder = holder; lease_expires_at = lease_expires_at })

unfoldable pub claim_confirmation :
    String → Slot → ConfirmationCause → String → Time → Result Error Run
claim_confirmation id slot cause holder lease_expires_at = do
  fail_if (is_empty id) Error.id_required
  validate_slot slot
  validate_cause cause
  fail_if (is_empty holder || ltb max_lease_holder_length (byte_len holder)) Error.holder_invalid
  fail_if (not (is_utc lease_expires_at)) Error.lease_not_utc
  ok (record (new_run id slot Kind.confirmation) {
    confirmation = some cause;
    lease_holder = holder;
    lease_expires_at = lease_expires_at;
  })

unfoldable pub skip : String → Slot → Kind → Result Error Run
skip id slot kind = do
  fail_if (is_empty id) Error.id_required
  validate_slot slot
  fail_if (not (valid_kind kind)) Error.kind_unknown
  ok (record (new_run id slot kind) { outcome = Outcome.skipped })

unfoldable pub renew_lease : Run → Time → Result Error Run
renew_lease value expires_at = do
  fail_if (not (is_in_flight value.outcome)) Error.lease_already_released
  fail_if (not (is_utc expires_at)) Error.lease_not_utc
  fail_if (not (after expires_at value.lease_expires_at)) Error.lease_not_extended
  ok (record value { lease_expires_at = expires_at })

unfoldable pub complete : Run → Outcome → Time → Time → Result Error Run
complete value outcome started_at finished_at = do
  fail_if (not (is_in_flight value.outcome)) Error.outcome_already_recorded
  fail_if (not (valid_execution_outcome outcome)) Error.outcome_unknown
  fail_if (not (is_utc started_at) || not (is_utc finished_at)) Error.timestamps_not_utc
  fail_if (before finished_at started_at) Error.finished_before_started
  ok (record value {
    outcome = outcome;
    started_at = started_at;
    finished_at = finished_at;
    lease_holder = "";
    lease_expires_at = zero_time;
  })

-- `if kind == KindConfirmation { … } else if cause != nil { … }`.
abbrev pub check_cause : Bool → Option ConfirmationCause → Result Error (Unit {0})
check_cause true none = err Error.cause_required
check_cause true (some cause) = validate_cause cause
check_cause false none = ok tt
check_cause false (some cause) = err Error.cause_forbidden

abbrev pub restored_base : Run → Run
restored_base row = record (new_run row.id row.slot row.kind) { confirmation = row.confirmation }

-- `leased`.
abbrev pub is_leased : Run → Bool
is_leased row = not (is_empty row.lease_holder) || not (is_zero row.lease_expires_at)

unfoldable pub restore_in_flight : Run → Result Error Run
restore_in_flight row = do
  fail_if (not (is_leased row)) Error.lease_required
  fail_if (is_empty row.lease_holder || not (is_utc row.lease_expires_at)) Error.lease_incomplete
  fail_if (not (is_zero row.started_at) || not (is_zero row.finished_at)) Error.instants_forbidden
  ok (record (restored_base row) {
    lease_holder = row.lease_holder;
    lease_expires_at = row.lease_expires_at;
  })

unfoldable pub restore_skipped : Run → Result Error Run
restore_skipped row = do
  fail_if (not (is_zero row.started_at) || not (is_zero row.finished_at)) Error.instants_forbidden
  ok (record (restored_base row) { outcome = row.outcome })

unfoldable pub restore_executed : Run → Result Error Run
restore_executed row = do
  fail_if (not (valid_execution_outcome row.outcome)) Error.outcome_unknown
  fail_if (not (is_utc row.started_at) || not (is_utc row.finished_at)) Error.timestamps_not_utc
  fail_if (before row.finished_at row.started_at) Error.finished_before_started
  ok (record (restored_base row) {
    outcome = row.outcome;
    started_at = row.started_at;
    finished_at = row.finished_at;
  })

-- The rows that `Restore` tells apart: in flight, skipped, executed.
unfoldable pub restore_state : Run → Result Error Run
unfolding restore_in_flight restore_skipped restore_executed
restore_state row = if is_in_flight row.outcome then restore_in_flight row else (do
  fail_if (is_leased row) Error.lease_forbidden
  if is_skipped row.outcome then restore_skipped row else restore_executed row)

-- `RestoreWithCause`, its nine arguments given as the row that holds them.
unfoldable pub restore_with_cause : Run → Result Error Run
unfolding restore_state
restore_with_cause row = do
  fail_if (is_empty row.id) Error.id_required
  validate_slot row.slot
  fail_if (not (valid_kind row.kind)) Error.kind_unknown
  check_cause (is_confirmation row.kind) row.confirmation
  restore_state row

unfoldable pub restore : Run → Result Error Run
restore row = restore_with_cause (record row { confirmation = none })

-- ===== src/Run/Model.antt =====
-- internal/run/run.go: the types of a Run. A Go string type with named constants is a data type with
-- `other` for every string that is none of them.
use probehive.Base.{
  ℕ, String, Bool, true, false, Option, ◌||◌, not, Result, ok, ◌>>◌, fail_if, ltb, is_empty,
  byte_len,
}
use probehive.Base.Int.{ℤ, pos, ltb_ℤ}
use probehive.Base.Time.{Time, has_zero_offset}

pub data Kind : Type 0 where
  scheduled confirmation manual : Kind
  other : String → Kind

-- `in_flight` is the empty string: no outcome yet.
pub data Outcome : Type 0 where
  in_flight passed failed errored timed_out cancelled skipped : Outcome
  other : String → Outcome

-- The errors of the package, one for each message.
pub data Error : Type 0 where
  slot_identity_required revision_required location_invalid slot_not_utc : Error
  id_required kind_unknown cause_required cause_forbidden : Error
  cause_identity_required cause_not_utc : Error
  holder_invalid lease_not_utc lease_required lease_incomplete lease_forbidden : Error
  lease_already_released lease_not_extended : Error
  outcome_already_recorded outcome_unknown : Error
  timestamps_not_utc finished_before_started instants_forbidden : Error

pub record Slot : Type 0 where
  pub organization_id : String
  pub monitor_id : String
  pub revision_number : ℤ
  pub location : String
  pub scheduled_for : Time

pub record ConfirmationCause : Type 0 where
  pub candidate_id : String
  pub triggering_run_id : String
  pub triggering_scheduled_for : Time
  pub causation_event_id : String
  pub policy_version : String

pub record Run : Type 0 where
  pub id : String
  pub slot : Slot
  pub kind : Kind
  pub confirmation : Option ConfirmationCause
  pub outcome : Outcome
  pub started_at : Time
  pub finished_at : Time
  pub lease_holder : String
  pub lease_expires_at : Time

abbrev pub max_location_length : ℕ
max_location_length = 63

abbrev pub max_lease_holder_length : ℕ
max_lease_holder_length = 128

abbrev pub is_utc : Time → Bool
is_utc value = has_zero_offset value

abbrev pub valid_kind : Kind → Bool
valid_kind (Kind.other _) = false
valid_kind _ = true

abbrev pub is_confirmation : Kind → Bool
is_confirmation Kind.confirmation = true
is_confirmation _ = false

abbrev pub valid_execution_outcome : Outcome → Bool
valid_execution_outcome Outcome.in_flight = false
valid_execution_outcome Outcome.skipped = false
valid_execution_outcome (Outcome.other _) = false
valid_execution_outcome _ = true

-- `Run.InFlight`.
abbrev pub is_in_flight : Outcome → Bool
is_in_flight Outcome.in_flight = true
is_in_flight _ = false

abbrev pub is_skipped : Outcome → Bool
is_skipped Outcome.skipped = true
is_skipped _ = false

unfoldable pub validate_slot : Slot → Result Error (Unit {0})
validate_slot slot = do
  fail_if (is_empty slot.organization_id || is_empty slot.monitor_id) Error.slot_identity_required
  fail_if (ltb_ℤ slot.revision_number (pos 1)) Error.revision_required
  fail_if (is_empty slot.location || ltb max_location_length (byte_len slot.location))
      Error.location_invalid
  fail_if (not (is_utc slot.scheduled_for)) Error.slot_not_utc
  ok tt

unfoldable pub validate_cause : ConfirmationCause → Result Error (Unit {0})
validate_cause cause = do
  fail_if
      (is_empty cause.candidate_id
        || is_empty cause.triggering_run_id
        || is_empty cause.causation_event_id
        || is_empty cause.policy_version)
      Error.cause_identity_required
  fail_if (not (is_utc cause.triggering_scheduled_for)) Error.cause_not_utc
  ok tt

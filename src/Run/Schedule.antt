-- ===== src/Run/Schedule.antt =====
-- internal/run/schedule.go: the slot series of a Monitor.
use probehive.Base.{
  ℕ, zero, suc, ◌*◌, ◌%◌, String, Bool, true, false, not, ◌&&◌, ◌||◌, List, [], ◌∷◌, Result, ok,
  ◌>>◌, fail_if, if◌then◌else◌, is_empty, bool_ne,
}
use probehive.Base.Int.{ℤ, pos, pos_part, ◌+ℤ◌, ◌-ℤ◌, ◌*ℤ◌, quot, rem, ltb_ℤ, leb_ℤ, eqb_ℤ}
use probehive.Base.Time.{
  Time, Duration, second, utc, second_duration, unix_epoch, is_zero, after, add, to_utc,
}
use probehive.Base.Hash.{fnv64a}

pub record Schedulable : Type 0 where
  pub organization_id : String
  pub monitor_id : String
  pub revision_number : ℤ
  pub check_type : String
  pub check_schema_version : ℤ
  pub check_configuration : List ℕ
  pub interval : Duration
  pub not_before : Time

pub data ScheduleError : Type 0 where
  identity_required revision_required check_required configuration_required : ScheduleError
  interval_invalid : ScheduleError

abbrev is_nil : List ℕ → Bool
is_nil [] = true
is_nil (x ∷ xs) = false

-- `Schedulable.Validate`.
unfoldable pub validate_schedulable : Schedulable → Result ScheduleError (Unit {0})
validate_schedulable value = do
  fail_if (is_empty value.organization_id || is_empty value.monitor_id)
      ScheduleError.identity_required
  fail_if (ltb_ℤ value.revision_number (pos 1)) ScheduleError.revision_required
  fail_if (is_empty value.check_type || ltb_ℤ value.check_schema_version (pos 1))
      ScheduleError.check_required
  fail_if (is_nil value.check_configuration) ScheduleError.configuration_required
  fail_if (ltb_ℤ value.interval second_duration) ScheduleError.interval_invalid
  ok tt

unfoldable pub effective_interval : Duration → Duration → Duration
effective_interval configured operator_minimum =
    if ltb_ℤ configured operator_minimum then operator_minimum else configured

unfoldable pub floor_div : ℤ → ℤ → ℤ
floor_div dividend divisor =
    let quotient = quot dividend divisor in
    if not (eqb_ℤ (rem dividend divisor) (pos 0))
      && bool_ne (ltb_ℤ dividend (pos 0)) (ltb_ℤ divisor (pos 0))
    then quotient -ℤ pos 1
    else quotient

-- `t.Unix()`, the whole seconds since the Unix epoch, and `time.Unix(s, 0).UTC()`.
unfoldable pub unix : Time → ℤ
unix t = floor_div (t.instant -ℤ pos unix_epoch) second_duration

unfoldable pub from_unix : ℤ → Time
from_unix s = record { instant = s *ℤ second_duration +ℤ pos unix_epoch; location = utc }

-- `int64(interval / time.Second)`.
unfoldable pub whole_seconds : Duration → ℤ
whole_seconds interval = quot interval second_duration

unfoldable pub slot_offset : String → Duration → Duration
slot_offset monitor_id interval =
    let seconds = whole_seconds interval in
    if leb_ℤ seconds (pos 0) then pos 0 else pos (fnv64a monitor_id % pos_part seconds * second)

unfoldable pub slot_for : String → Duration → Time → Result ScheduleError Time
slot_for monitor_id interval now = do
  let seconds = whole_seconds interval
  fail_if (leb_ℤ seconds (pos 0) || not (eqb_ℤ (rem interval second_duration) (pos 0)))
      ScheduleError.interval_invalid
  let offset = quot (slot_offset monitor_id interval) second_duration
  let index = floor_div (unix (to_utc now) -ℤ offset) seconds
  ok (from_unix (index *ℤ seconds +ℤ offset))

-- The loop of `MissedSlots`, with the room that is left in `missed`.
unfoldable pub missed_from : ℕ → Duration → Time → Time → List Time
missed_from zero interval candidate bound = []
missed_from (suc room) interval candidate bound =
    let rest = missed_from room interval (add candidate (pos 0 -ℤ interval)) bound in
    if not (is_zero bound) && not (after candidate bound) then [] else candidate ∷ rest

unfoldable pub missed_slots : String → Duration → Time → Time → ℤ → Result ScheduleError (List Time)
missed_slots monitor_id interval current bound limit = if ltb_ℤ limit (pos 1) then ok [] else (do
  fail_if
      (leb_ℤ (whole_seconds interval) (pos 0) || not (eqb_ℤ (rem interval second_duration) (pos 0)))
      ScheduleError.interval_invalid
  ok (missed_from (pos_part limit) interval (add current (pos 0 -ℤ interval)) bound))

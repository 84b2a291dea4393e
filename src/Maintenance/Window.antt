-- ===== src/Maintenance/Window.antt =====
-- internal/maintenance/maintenance.go: one-time maintenance windows.
use probehive.Base.{
  ℕ, ◌*◌, String, Bool, true, false, not, ◌||◌, ◌&&◌, Option, none, some, Result, ok, ◌>>=◌, ◌>>◌,
  fail_if, is_empty, is_some, if◌then◌else◌,
}
use probehive.Base.Int.{pos, ltb_ℤ, leb_ℤ}
use probehive.Base.Time.{
  Time, Duration, second, before, after, sub, to_utc, is_utc_time, has_zero_offset,
}

pub record Scope : Type 0 where
  pub organization_id : String
  pub monitor_id : String

pub data Status : Type 0 where
  upcoming active ended cancelled : Status

pub record Window : Type 0 where
  pub id : String
  pub organization_id : String
  pub monitor_id : String
  pub starts_at : Time
  pub ends_at : Time
  pub created_at : Time
  pub cancelled_at : Option Time
  pub version : ℕ

-- The errors of the package and of its store.
pub data Error : Type 0 where
  identity_required timestamps_not_utc bounds_invalid begins_before_created : Error
  cancellation_invalid window_ended : Error
  monitor_not_found overlap concurrent_update store_failed uuid_failed : Error

abbrev pub max_duration : Duration
max_duration = pos (30 * 24 * 3600 * second)

abbrev pub valid_scope : Scope → Bool
valid_scope scope = not (is_empty scope.organization_id) && not (is_empty scope.monitor_id)

abbrev pub is_utc : Time → Bool
is_utc value = is_utc_time value

abbrev pub explicit_utc : Time → Bool
explicit_utc value = has_zero_offset value

-- `if cancelledAt != nil { … }`.
unfoldable pub restore_cancellation : Option Time → Time → Time → Result Error (Option Time)
restore_cancellation none created_at ends_at = ok none
restore_cancellation (some at) created_at ends_at = do
  fail_if (not (is_utc at) || before at created_at || not (before at ends_at))
      Error.cancellation_invalid
  ok (some (to_utc at))

unfoldable pub restore_window :
    String → Scope → Time → Time → Time → Option Time → ℕ → Result Error Window
restore_window id scope starts_at ends_at created_at cancelled_at version = do
  fail_if (is_empty id || not (valid_scope scope)) Error.identity_required
  fail_if (not (is_utc starts_at) || not (is_utc ends_at) || not (is_utc created_at))
      Error.timestamps_not_utc
  fail_if (leb_ℤ (sub ends_at starts_at) (pos 0) || ltb_ℤ max_duration (sub ends_at starts_at))
      Error.bounds_invalid
  fail_if (after created_at starts_at) Error.begins_before_created
  cancellation ← restore_cancellation cancelled_at created_at ends_at
  ok (record {
    id = id;
    organization_id = scope.organization_id;
    monitor_id = scope.monitor_id;
    starts_at = to_utc starts_at;
    ends_at = to_utc ends_at;
    created_at = to_utc created_at;
    cancelled_at = cancellation;
    version = version;
  })

unfoldable pub new_window : String → Scope → Time → Time → Time → Result Error Window
unfolding restore_window
new_window id scope starts_at ends_at created_at =
    restore_window id scope starts_at ends_at created_at none 0

unfoldable pub status : Window → Time → Status
status value now =
    if is_some value.cancelled_at
    then Status.cancelled
    else if before now value.starts_at
    then Status.upcoming
    else if before now value.ends_at
    then Status.active
    else Status.ended

-- `value.CancelledAt != nil && !at.Before(*value.CancelledAt)`.
abbrev pub is_stopped : Option Time → Time → Bool
is_stopped none at = false
is_stopped (some cancelled_at) at = not (before at cancelled_at)

unfoldable pub applies_at : Window → Time → Bool
applies_at value at =
    if not (is_utc at) || before at value.starts_at || not (before at value.ends_at)
    then false
    else if is_stopped value.cancelled_at at
    then false
    else true

-- `Cancel` after the test for an earlier cancellation.
unfoldable pub cancel_open : Window → Time → Result Error Window
cancel_open value at = do
  fail_if (not (is_utc at) || before at value.created_at) Error.cancellation_invalid
  fail_if (not (before at value.ends_at)) Error.window_ended
  ok (record value { cancelled_at = some (to_utc at) })

unfoldable pub cancel : Window → Time → Result Error Window
unfolding cancel_open
cancel value at = if is_some value.cancelled_at then ok value else cancel_open value at

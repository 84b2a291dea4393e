-- ===== src/Maintenance/Service.antt =====
-- internal/maintenance/service.go: `Create` and `Cancel` over a store. The clock is an argument, and
-- so is what the UUID generator and the store answer; the result says what was stored.
use probehive.Base.{
  ℕ, String, Bool, true, false, not, ◌&&◌, Option, none, some, List, [], ◌∷◌, ◌++◌, Result, ok, err,
  ◌>>=◌, is_some, if◌then◌else◌,
}
use probehive.Base.Int.{ltb_ℤ}
use probehive.Base.Time.{Time, before, after, sub, to_utc}
use probehive.Maintenance.Window.{
  Scope, Window, Error, max_duration, explicit_utc, new_window, cancel,
}

pub data Failure : Type 0 where
  starts_at_invalid ends_at_invalid duration_invalid : Failure

pub record CreateCommand : Type 0 where
  pub scope : Scope
  pub starts_at : Time
  pub ends_at : Time

pub data CreateResult : Type 0 where
  invalid : List Failure → CreateResult
  created : Window → CreateResult
  monitor_not_found : CreateResult
  overlap : CreateResult

pub data CancelResult : Type 0 where
  cancelled : Window → CancelResult
  not_found : CancelResult
  window_ended : CancelResult
  concurrent_update : CancelResult

abbrev pub starts_valid : CreateCommand → Time → Bool
starts_valid command now = explicit_utc command.starts_at && not (before command.starts_at now)

abbrev pub ends_valid : CreateCommand → Bool
ends_valid command = explicit_utc command.ends_at && after command.ends_at command.starts_at

abbrev pub when : Bool → Failure → List Failure
when true failure = failure ∷ []
when false failure = []

unfoldable pub failures : CreateCommand → Time → List Failure
failures command now =
    when (not (starts_valid command now)) Failure.starts_at_invalid
    ++ (when (not (ends_valid command)) Failure.ends_at_invalid
        ++ when
            (starts_valid command now
              && ends_valid command
              && ltb_ℤ max_duration (sub command.ends_at command.starts_at))
            Failure.duration_invalid)

abbrev pub identified : Option String → Result Error String
identified none = err Error.uuid_failed
identified (some id) = ok id

-- `switch` on the error of `CreateWindow`.
abbrev pub stored_window : Window → Result Error (Unit {0}) → Result Error CreateResult
stored_window window (ok t) = ok (CreateResult.created window)
stored_window window (err Error.monitor_not_found) = ok CreateResult.monitor_not_found
stored_window window (err Error.overlap) = ok CreateResult.overlap
stored_window window (err e) = err e

unfoldable pub create_valid :
    Option String
    → (Window → Result Error (Unit {0}))
    → CreateCommand
    → Time
    → Result Error CreateResult
create_valid uuid create_window command now = do
  id ← identified uuid
  window ← new_window id command.scope (to_utc command.starts_at) (to_utc command.ends_at) now
  stored_window window (create_window window)

unfoldable pub create :
    Option String
    → (Window → Result Error (Unit {0}))
    → CreateCommand
    → Time
    → Result Error CreateResult
create uuid create_window command clock =
    let now = to_utc clock in
    elim (failures command now) [
      | [] ↦ create_valid uuid create_window command now
      | failure ∷ more ↦ ok (CreateResult.invalid (failure ∷ more))
    ]

-- What the store answers to `Cancel`: the window found, the write, and the window found again.
pub record CancelAnswers : Type 0 where
  pub found : Result Error (Option Window)
  pub cancel_window : Window → ℕ → Result Error (Unit {0})
  pub found_again : Result Error (Option Window)

-- After a concurrent update.
unfoldable pub cancelled_meanwhile : Option Window → CancelResult
cancelled_meanwhile none = CancelResult.concurrent_update
cancelled_meanwhile (some current) =
    if is_some current.cancelled_at
    then CancelResult.cancelled current
    else CancelResult.concurrent_update

unfoldable pub after_write :
    Window → Result Error (Unit {0}) → Result Error (Option Window) → Result Error CancelResult
unfolding cancelled_meanwhile
after_write value (ok t) again = ok (CancelResult.cancelled value)
after_write value (err Error.concurrent_update) again = do
  current ← again
  ok (cancelled_meanwhile current)
after_write value (err e) again = err e

-- `value.Cancel(…)` and what follows.
unfoldable pub after_cancel : CancelAnswers → ℕ → Result Error Window → Result Error CancelResult
unfolding after_write
after_cancel answers expected_version (ok value) =
    after_write value (answers.cancel_window value expected_version) answers.found_again
after_cancel answers expected_version (err Error.window_ended) = ok CancelResult.window_ended
after_cancel answers expected_version (err e) = err e

cancel_found : CancelAnswers → Option Window → Time → Result Error CancelResult
unfolding after_cancel
cancel_found answers none now = ok CancelResult.not_found
cancel_found answers (some value) now =
    if is_some value.cancelled_at
    then ok (CancelResult.cancelled value)
    else after_cancel answers value.version (cancel value now)

unfoldable pub cancel_service : CancelAnswers → Time → Result Error CancelResult
unfolding cancel_found
cancel_service answers clock = do found ← answers.found; cancel_found answers found (to_utc clock)

-- ===== src/Maintenance/Examples.antt =====
-- Concrete maintenance windows and requests: the theorems about internal/maintenance at inputs that
-- meet their hypotheses.
use probehive.Base.{◌⊎◌, List, ℕ, ◌+◌, ◌*◌, true, none, some, ok, ◌≡◌, ◌↔◌, refl}
use probehive.Base.Int.{pos, ◌<ℤ◌, ◌-ℤ◌}
use probehive.Base.Time.{Time, utc, second, to_utc, sub}
use probehive.Maintenance.Window.{Window, restore_window, restore_cancellation, applies_at, cancel}
use probehive.Maintenance.Laws.{IsValid, cancel_lem}
use probehive.Maintenance.Restored.{scope_of, restore_window-IsValid}
use probehive.Maintenance.Service.{CreateCommand, CreateResult, Failure, create}
use probehive.Maintenance.Requests.{IsAcceptable, Refuses, window_of, create_iff}

-- Noon of 1 March 2026, and so many seconds later.
abbrev at_second : ℕ → Time
at_second n = record { instant = pos ((63908006400 + n) * second); location = utc }

-- From noon to one o'clock, made a minute before.
abbrev window : Window
window = record {
  id = "window";
  organization_id = "org";
  monitor_id = "monitor";
  starts_at = at_second 60;
  ends_at = at_second 3660;
  created_at = at_second 0;
  cancelled_at = none;
  version = 0;
}

abbrev stopped : Window
stopped = record window { cancelled_at = some (at_second 600) }

window_restored :
    restore_window "window" (scope_of window) (at_second 60) (at_second 3660) (at_second 0) none 0
    ≡ ok window
unfolding restore_window restore_cancellation sub ◌-ℤ◌
window_restored = refl

window-IsValid : IsValid window
window-IsValid =
    (restore_window-IsValid window "window" (scope_of window) (at_second 60) (at_second 3660)
      (at_second 0) none 0 window_restored).0

cancels_window : cancel window (at_second 600) ≡ ok stopped
unfolding cancel
cancels_window = refl

cancel_lem_example :
    IsValid stopped
    × (cancel stopped (at_second 700) ≡ ok stopped)
    × (stopped ≡ record window { cancelled_at = stopped.cancelled_at })
    × ((applies_at stopped (at_second 599) ≡ true) ↔ (
        (applies_at window (at_second 599) ≡ true)
        × ((at_second 599).instant <ℤ (at_second 600).instant)))
cancel_lem_example =
    cancel_lem window stopped (at_second 600) (at_second 700) (at_second 599) window-IsValid refl
      cancels_window

abbrev command : CreateCommand
command = record { scope = scope_of window; starts_at = at_second 60; ends_at = at_second 3660 }

create_iff_example :
    ((create (some "window") (λ v. ok tt) command (at_second 0) ≡ ok (CreateResult.created window))
      ↔ (IsAcceptable command (to_utc (at_second 0))
          × (window_of "window" command (at_second 0) ≡ window)))
    × (IsAcceptable command (to_utc (at_second 0))
        ⊎ ((listed : List Failure) × (Refuses command (to_utc (at_second 0)) listed
              × (create (some "window") (λ v. ok tt) command (at_second 0)
                  ≡ ok (CreateResult.invalid listed)))))
create_iff_example = create_iff "window" command (at_second 0) window refl refl refl

-- ===== src/Maintenance/Restored.antt =====
-- Reading a maintenance window back from its row: `RestoreWindow` of
-- internal/maintenance/maintenance.go.
use probehive.Base.{ℕ, String, true, false, Option, none, some, ok, is_empty, ◌≡◌, arith}
use probehive.Base.Int.{pos, ◌≤ℤ◌, ◌<ℤ◌, leb_ℤ, ltb_ℤ, ◌+ℤ◌, +ℤ_parts, -ℤ_parts}
use probehive.Base.Time.{Time, sub}
use probehive.Maintenance.Window.{
  Scope, Window, max_duration, is_utc, restore_window, restore_cancellation,
}
use probehive.Maintenance.Laws.{IsValid, CancelledWithin}

-- `Window.Scope`.
abbrev pub scope_of : Window → Scope
scope_of w = record { organization_id = w.organization_id; monitor_id = w.monitor_id }

sub_bounds :
    (starts ends : Time)
    → leb_ℤ (sub ends starts) (pos 0) ≡ false
    → ltb_ℤ max_duration (sub ends starts) ≡ false
    → (starts.instant <ℤ ends.instant) × (ends.instant ≤ℤ starts.instant +ℤ max_duration)
unfolding sub
sub_bounds starts ends p b =
    ground (arith, -ℤ_parts ends.instant starts.instant, +ℤ_parts starts.instant max_duration)

cancellation_restored :
    (at c : Option Time) (made ends : Time)
    → restore_cancellation at made ends ≡ ok c
    → CancelledWithin c made ends
unfolding restore_cancellation
cancellation_restored at c made ends e = ground arith

CancelledWithin-instants :
    (c : Option Time) (made made' ends ends' : Time)
    → made'.instant ≡ made.instant
    → ends'.instant ≡ ends.instant
    → CancelledWithin c made ends
    → CancelledWithin c made' ends'
CancelledWithin-instants none made made' ends ends' p q c = tt
CancelledWithin-instants (some at) made made' ends ends' p q c = ground arith

cancellation_restorable :
    (at : Option Time) (made ends : Time)
    → CancelledWithin at made ends
    → restore_cancellation at made ends ≡ ok at
unfolding restore_cancellation
cancellation_restorable at made ends c = ground arith

module _ (w : Window) (id : String) (scope : Scope) (starts ends made : Time) (at : Option Time)
    (version : ℕ) (restores : restore_window id scope starts ends made at version ≡ ok w) where
  restored_identity :
      (is_empty w.id ≡ false)
      × (is_empty w.organization_id ≡ false)
      × (is_empty w.monitor_id ≡ false)
  unfolding restore_window
  restored_identity = (ground arith, ground arith, ground arith)

  restored_times :
      (is_utc w.starts_at ≡ true)
      × (is_utc w.ends_at ≡ true)
      × (is_utc w.created_at ≡ true)
      × (w.created_at.instant ≤ℤ w.starts_at.instant)
  unfolding restore_window
  restored_times = (ground arith, ground arith, ground arith, ground arith)

  restored_bounds :
      (leb_ℤ (sub ends starts) (pos 0) ≡ false)
      × (ltb_ℤ max_duration (sub ends starts) ≡ false)
      × (w.starts_at.instant ≡ starts.instant)
      × (w.ends_at.instant ≡ ends.instant)
  unfolding restore_window
  restored_bounds = (ground arith, ground arith, ground arith, ground arith)

  restored_parts :
      (restore_cancellation at made ends ≡ ok w.cancelled_at)
      × (w.created_at.instant ≡ made.instant)
  unfolding restore_window
  restored_parts = (ground arith, ground arith)

  restored_cancellation : CancelledWithin w.cancelled_at w.created_at w.ends_at
  restored_cancellation =
      CancelledWithin-instants w.cancelled_at made w.created_at ends w.ends_at restored_parts.1
        restored_bounds.3 (cancellation_restored at w.cancelled_at made ends restored_parts.0)

  restored : IsValid w
  restored =
      let b = restored_bounds in
      let s = sub_bounds starts ends b.0 b.1 in
      record {
        identified = restored_identity.0;
        scoped = (restored_identity.1, restored_identity.2);
        starts_utc = restored_times.0;
        ends_utc = restored_times.1;
        created_utc = restored_times.2;
        ordered = rw (b.2, b.3) s.0;
        bounded = rw (b.2, b.3) s.1;
        created_first = restored_times.3;
        cancellation = restored_cancellation;
      }

restorable :
    (w : Window)
    → IsValid w
    → restore_window w.id (scope_of w) w.starts_at w.ends_at w.created_at w.cancelled_at w.version
      ≡ ok w
unfolding restore_window sub
restorable w v = ground (
  arith,
  cancellation_restorable w.cancelled_at w.created_at w.ends_at v.cancellation,
  -ℤ_parts w.ends_at.instant w.starts_at.instant,
  +ℤ_parts w.starts_at.instant max_duration,
)

-- `RestoreWindow` makes only valid windows, and reads each of them back from its row unchanged.
pub restore_window-IsValid :
    (w : Window) (id : String) (scope : Scope) (starts ends made : Time) (at : Option Time)
    (version : ℕ)
    → restore_window id scope starts ends made at version ≡ ok w
    → IsValid w
      × (restore_window w.id
            (scope_of w)
            w.starts_at
            w.ends_at
            w.created_at
            w.cancelled_at
            w.version
          ≡ ok w)
restore_window-IsValid w id scope starts ends made at version e =
    let valid = restored w id scope starts ends made at version e in (valid, restorable w valid)

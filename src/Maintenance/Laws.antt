-- ===== src/Maintenance/Laws.antt =====
-- When a maintenance window of internal/maintenance/maintenance.go applies, and what a cancellation
-- changes.
use probehive.Base.{true, false, Option, none, some, ok, is_empty, is_some, ◌≡◌, ◌↔◌, arith}
use probehive.Base.Int.{◌≤ℤ◌, ◌<ℤ◌, ◌+ℤ◌}
use probehive.Base.Time.{Time}
use probehive.Maintenance.Window.{Window, Status, max_duration, is_utc, status, applies_at, cancel}

-- The part of a window before its cancellation.
abbrev pub Running : Option Time → Time → Type 0
Running none at = Unit {0}
Running (some cancelled_at) at = at.instant <ℤ cancelled_at.instant

abbrev pub Covers : Window → Time → Type 0
Covers w at =
    (w.starts_at.instant ≤ℤ at.instant)
    × (at.instant <ℤ w.ends_at.instant)
    × Running w.cancelled_at at

applies_at-Covers :
    (w : Window) (at : Time) → applies_at w at ≡ true → (is_utc at ≡ true) × Covers w at
unfolding applies_at
applies_at-Covers w at h = ground arith

Covers-applies_at :
    (w : Window) (at : Time) → is_utc at ≡ true → Covers w at → applies_at w at ≡ true
unfolding applies_at
Covers-applies_at w at u c = ground arith

-- A window applies at an instant exactly if the instant is in UTC, not before the start, before the
-- end, and before the cancellation if there was one.
pub applies_at_iff :
    (w : Window) (at : Time) → (applies_at w at ≡ true) ↔ ((is_utc at ≡ true) × Covers w at)
applies_at_iff w at = (applies_at-Covers w at, λ h. Covers-applies_at w at h.0 h.1)

-- A cancellation is a UTC instant from the creation on and before the end.
abbrev pub CancelledWithin : Option Time → Time → Time → Type 0
CancelledWithin none created_at ends_at = Unit {0}
CancelledWithin (some at) created_at ends_at =
    (is_utc at ≡ true) × (created_at.instant ≤ℤ at.instant) × (at.instant <ℤ ends_at.instant)

-- What `RestoreWindow` demands, and every window has.
pub record IsValid (w : Window) : Type 0 where
  pub identified : is_empty w.id ≡ false
  pub scoped : (is_empty w.organization_id ≡ false) × (is_empty w.monitor_id ≡ false)
  pub starts_utc : is_utc w.starts_at ≡ true
  pub ends_utc : is_utc w.ends_at ≡ true
  pub created_utc : is_utc w.created_at ≡ true
  pub ordered : w.starts_at.instant <ℤ w.ends_at.instant
  pub bounded : w.ends_at.instant ≤ℤ w.starts_at.instant +ℤ max_duration
  pub created_first : w.created_at.instant ≤ℤ w.starts_at.instant
  pub cancellation : CancelledWithin w.cancelled_at w.created_at w.ends_at

module _ (w v : Window) (at : Time) (valid : IsValid w) (cancels : cancel w at ≡ ok v) where
  cancel-IsValid : IsValid v
  unfolding cancel
  cancel-IsValid = ground arith

  -- A cancellation keeps a valid window valid and all of it but the cancellation; cancelling again,
  -- at any time, changes nothing.
  cancel_keeps :
      (later : Time)
      → (cancel v later ≡ ok v)
        × (v ≡ record w { cancelled_at = v.cancelled_at })
        × (is_some v.cancelled_at ≡ true)
  unfolding cancel
  cancel_keeps later = ground arith

  before_cancellation :
      (t : Time) → w.cancelled_at ≡ none → Covers v t → Covers w t × (t.instant <ℤ at.instant)
  unfolding cancel
  before_cancellation t unset c = ground arith

  kept_before :
      (t : Time) → w.cancelled_at ≡ none → Covers w t → t.instant <ℤ at.instant → Covers v t
  unfolding cancel
  kept_before t unset c b = ground arith

-- Cancelling a valid window that was not cancelled leaves it valid and stops it from that instant
-- on: before it the window applies at the same instants as ever, and from it on at none. Cancelling
-- again, at any later or earlier time, changes nothing.
pub cancel_lem :
    (w v : Window) (at later t : Time)
    → IsValid w
    → w.cancelled_at ≡ none
    → cancel w at ≡ ok v
    → IsValid v
      × (cancel v later ≡ ok v)
      × (v ≡ record w { cancelled_at = v.cancelled_at })
      × ((applies_at v t ≡ true) ↔ ((applies_at w t ≡ true) × (t.instant <ℤ at.instant)))
cancel_lem w v at later t valid unset e =
    let kept = cancel_keeps w v at valid e later in
    (
      cancel-IsValid w v at valid e,
      kept.0,
      kept.1,
      (
        (λ h.
            let (u, c) = applies_at-Covers v t h in
            let (covers, early) = before_cancellation w v at valid e t unset c in
            (Covers-applies_at w t u covers, early)),
        λ h.
            let (u, c) = applies_at-Covers w t h.0 in
            Covers-applies_at v t u (kept_before w v at valid e t unset c h.1),
      ),
    )

-- A window that was never cancelled is active at exactly the UTC instants at which it applies.
pub status-applies_at :
    (w : Window) (at : Time)
    → w.cancelled_at ≡ none
    → is_utc at ≡ true
    → IsValid w
    → (status w at ≡ Status.active) ↔ (applies_at w at ≡ true)
unfolding status applies_at
status-applies_at w at unset u valid = ((λ h. ground arith), λ h. ground arith)

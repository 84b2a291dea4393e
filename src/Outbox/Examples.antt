-- ===== src/Outbox/Examples.antt =====
-- Concrete outbox entries: the theorems about internal/outbox/outbox.go at inputs that meet their
-- hypotheses.
use mathlib.Core.List.{Perm}
use mathlib.Core.List.Permᴰ
use probehive.Base.{ℕ, ◌+◌, ◌*◌, ◌/◌, ◌≤◌, true, false, some, List, [], ◌∷◌, ◌≡◌, ◌↔◌, refl}
use probehive.Base.Int.{pos}
use probehive.Base.Time.{Time, utc, second, zero_time}
use probehive.Outbox.Model.{Entry, Code, Handled, StoreAnswer, succeeds, fails}
use probehive.Outbox.Retry.{retry_delay, retry_cap}
use probehive.Outbox.Backoff.{nominal, retry_delay_bounds}
use probehive.Outbox.Dispatch.{Answers, failure_of, is_dead, next_attempt, handle}
use probehive.Outbox.Handling.{MustStop, ReportsNone, handle-MustStop, handle_succeeds_iff}

-- Noon of 1 March 2026, and so many seconds later.
abbrev at_second : ℕ → Time
at_second n = record { instant = pos ((63908006400 + n) * second); location = utc }

abbrev entry : Entry
entry = record {
  id = "entry";
  organization_id = "org";
  topic = "run.recorded.v1";
  payload = 123 ∷ 125 ∷ [];
  attempts = pos 3;
  created_at = at_second 0;
  available_at = at_second 0;
  lease_holder = "worker";
  lease_expires_at = at_second 60;
  gap_first_seen_at = zero_time;
}

abbrev broken : Answers
broken = record {
  handler = some Handled.broken;
  stopped = false;
  succeed = StoreAnswer.stored;
  fail = StoreAnswer.stored;
}

abbrev fine : Answers
fine = record broken { handler = some Handled.done }

abbrev retry_at : Time
retry_at = next_attempt entry Code.handler_failed false (at_second 5)

fails_broken : (handle entry broken (at_second 5)).0 ≡ fails Code.handler_failed retry_at false
unfolding handle failure_of is_dead
fails_broken = refl

retry_delay_bounds_example :
    (second ≤ retry_delay "entry" (pos 3))
    × (retry_delay "entry" (pos 3) ≤ retry_cap)
    × (nominal 2 ≤ retry_delay "entry" (pos 3))
    × (retry_delay "entry" (pos 3) ≤ nominal 2 + nominal 2 / 5)
retry_delay_bounds_example = retry_delay_bounds "entry" (pos 3)

handle-MustStop_example :
    (false ≡ true)
    ↔ MustStop entry Code.handler_failed (failure_of broken.handler false).1 (at_second 5)
handle-MustStop_example =
    handle-MustStop entry broken (at_second 5) retry_at Code.handler_failed false fails_broken

handle_succeeds_iff_example :
    ((handle entry fine (at_second 5)).0 ≡ succeeds) ↔ ReportsNone fine.handler
handle_succeeds_iff_example = handle_succeeds_iff entry fine (at_second 5)

abbrev claimed : List (Entry × Answers)
claimed = (entry, broken) ∷ (entry, fine) ∷ []

abbrev swapped : List (Entry × Answers)
swapped = (entry, fine) ∷ (entry, broken) ∷ []

claimed-swapped : Perm claimed swapped
claimed-swapped = ∣ Permᴰ.swap refl refl ∣₁

-- ===== src/Run/Suppression.antt =====
-- `plan` and `recordMissed` of internal/run/scheduler.go: which slots one scheduler attempts, and which
-- missed slots it writes down.
use probehive.Base.{
  String, true, false, some, List, [], ◌∷◌, str_eq_iff, str_eq_refl, ◌≡◌, ◌⊎◌, arith, Result,
}
use probehive.Base.Time.{Time, zero_time, is_zero, after}
use probehive.Run.Schedule.{Schedulable, ScheduleError, missed_slots, effective_interval}
use probehive.Run.Scheduler.{Config, Attempted, Plan, plan, last_attempt, set_attempt}
use probehive.Run.Backfill.{walk_bound}

last_attempt-set_attempt :
    (m : String) (t : Time) (attempted : Attempted) → last_attempt m (set_attempt m t attempted) ≡ t
unfolding last_attempt set_attempt
last_attempt-set_attempt m t [] = ground (arith, str_eq_refl m)
last_attempt-set_attempt m t ((key, old) ∷ rest) =
    ground (arith, str_eq_refl m, str_eq_iff key m, last_attempt-set_attempt m t rest)

-- Once a planned slot is noted as attempted, planning at the same instant yields no due slot.
pub plan_once :
    (config : Config) (attempted : Attempted) (schedulable : Schedulable) (now : Time) (p : Plan)
    → plan config attempted schedulable now ≡ some p
    → is_zero p.due ≡ false
    → plan config (set_attempt schedulable.monitor_id p.due attempted) schedulable now
      ≡ some (record { due = zero_time; previous = p.due })
unfolding plan
plan_once config attempted schedulable now p e due =
    ground (arith, last_attempt-set_attempt schedulable.monitor_id p.due attempted)

-- A due slot is later than the slot attempted before it, if there is one.
pub plan_later :
    (config : Config) (attempted : Attempted) (schedulable : Schedulable) (now : Time) (p : Plan)
    → plan config attempted schedulable now ≡ some p
    → is_zero p.due ≡ false
    → (p.previous ≡ last_attempt schedulable.monitor_id attempted)
      × ((is_zero p.previous ≡ true) ⊎ (after p.due p.previous ≡ true))
unfolding plan
plan_later config attempted schedulable now p e due = ground arith

-- What `MissedSlots` answers to `recordMissed`.
abbrev pub reported : Config → Schedulable → Time → Time → Result ScheduleError (List Time)
reported config schedulable due previous =
    missed_slots schedulable.monitor_id
      (effective_interval schedulable.interval config.minimum_interval) due
      (walk_bound schedulable previous) config.max_backfill_slots

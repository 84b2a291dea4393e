-- ===== src/Run/Backfill.antt =====
-- internal/run/scheduler.go: `recordMissed`, which writes down the slots that were missed.
use probehive.Base.{
  ℕ, suc, Bool, true, false, Option, none, some, List, [], ◌∷◌, Result, ok, err, if◌then◌else◌,
}
use probehive.Base.Time.{Time, after, to_utc}
use probehive.Run.Model.{Kind}
use probehive.Run.Lifecycle.{skip}
use probehive.Run.Schedule.{Schedulable, effective_interval, missed_slots}
use probehive.Run.Events.{Json, new_run_recorded_entry}
use probehive.Run.Scheduler.{
  Config, NewUuid, StoreError, StoreCall, records_skipped, new_scheduled_run,
}

-- What the collaborators answer for one missed slot.
pub record MissedAnswers : Type 0 where
  pub stopped : Bool
  pub run_id : NewUuid
  pub event_id : NewUuid
  pub record_skipped : Result StoreError (Unit {0})

abbrev pub is_ok : Result StoreError (Unit {0}) → Bool
is_ok (ok t) = true
is_ok (err e) = false

-- The call that records one missed slot, where everything before it succeeds.
unfoldable pub skip_call :
    Json → Config → Schedulable → Time → MissedAnswers → Time → Option StoreCall
skip_call json config schedulable now answers instant =
    elim (new_scheduled_run config schedulable instant "" now answers.run_id) [
      | err e ↦ none
      | ok value ↦ elim (skip value.id value.slot Kind.scheduled) [
        | err e ↦ none
        | ok skipped ↦ elim answers.event_id [
          | none ↦ none
          | some id ↦ elim (new_run_recorded_entry json id skipped (to_utc now)) [
            | err e ↦ none
            | ok entry ↦ some (records_skipped skipped (entry ∷ []))
          ]
        ]
      ]
    ]

-- The loop: the calls to the store and the count `recorded`. `answers` has an entry for each slot,
-- and ends with the list of slots.
unfoldable pub record_each :
    Json → Config → Schedulable → Time → List (Time × MissedAnswers) → List StoreCall × ℕ
record_each json config schedulable now [] = ([], 0)
record_each json config schedulable now ((instant, answers) ∷ rest) =
    let (calls, count) = record_each json config schedulable now rest in
    if answers.stopped
    then ([], 0)
    else elim (skip_call json config schedulable now answers instant) [
      | none ↦ ([], 0)
      | some call ↦
          if is_ok answers.record_skipped then (call ∷ calls, suc count) else (call ∷ [], 0)
    ]

-- The walk stops at the later of the last attempt and the Monitor's last change.
abbrev pub walk_bound : Schedulable → Time → Time
walk_bound schedulable previous =
    if after schedulable.not_before previous then to_utc schedulable.not_before else previous

-- The slots that `recordMissed` walks, none on an error.
unfoldable pub missed_for : Config → Schedulable → Time → Time → List Time
missed_for config schedulable due previous =
    elim (missed_slots schedulable.monitor_id
      (effective_interval schedulable.interval config.minimum_interval) due
      (walk_bound schedulable previous) config.max_backfill_slots) [
        | err e ↦ []
        | ok missed ↦ missed
      ]

abbrev pub with_answers : List Time → (ℕ → MissedAnswers) → ℕ → List (Time × MissedAnswers)
with_answers [] answers n = []
with_answers (instant ∷ rest) answers n = (instant, answers n) ∷ with_answers rest answers (suc n)

-- `recordMissed`; the collaborators' answers for the slot at place n are `answers n`.
unfoldable pub record_missed :
    Json → Config → (ℕ → MissedAnswers) → Schedulable → Time → Time → Time → List StoreCall × ℕ
record_missed json config answers schedulable due previous now =
    record_each json config schedulable now
      (with_answers (missed_for config schedulable due previous) answers 0)

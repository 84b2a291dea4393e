-- ===== src/Run/Protocol.antt =====
-- The order of calls that internal/run/scheduler.go makes to the Run store for one slot, whatever
-- the collaborators answer.
use probehive.Base.{true, false, List, [], ◌∷◌, Result, ok, err, ◌≡◌}
use probehive.Base.Time.{Time, add, to_utc}
use probehive.Run.Model.{Kind, Outcome, Error, Run}
use probehive.Run.Lifecycle.{complete}
use probehive.Run.Lease.{lease_duration}
use probehive.Run.Observation.{filed_under}
use probehive.Run.Schedule.{Schedulable}
use probehive.Run.Scheduler.{
  Config, Answers, StoreError, StoreCall, claims, releases, completes, records_skipped, SlotOutcome,
  recorded, unclaimed, slot_of,
}

-- The Run that the scheduler proposes for a due slot: scheduled, in flight, for exactly the slot that
-- is due, with a lease that is counted from now.
pub record Proposes (config : Config) (schedulable : Schedulable) (due now : Time) (p : Run)
    : Type 0 where
  pub is_scheduled : p.kind ≡ Kind.scheduled
  pub in_flight : p.outcome ≡ Outcome.in_flight
  pub for_slot : p.slot ≡ slot_of config schedulable due
  pub leased : p.lease_expires_at ≡ add (to_utc now) (lease_duration config.execution_ceiling)

module _ (answers : Answers) where
  -- What may follow the claim, by its answer.
  abbrev pub Continues : Result StoreError Run → List StoreCall → SlotOutcome → Type 0
  Continues (err e) [] outcome = outcome ≡ unclaimed e answers.stopped_at_claim
  Continues (err e) (call ∷ calls) outcome = ⊥
  Continues (ok taken) [] outcome = (answers.stopped ≡ false) × (outcome ≡ SlotOutcome.failed)
  Continues (ok taken) (releases r ∷ []) outcome =
      (answers.stopped ≡ true) × (r ≡ taken) × (outcome ≡ SlotOutcome.held)
  Continues (ok taken) (completes c holder o entries ∷ []) outcome =
      (answers.stopped ≡ false)
      × (holder ≡ taken.lease_holder)
      × (o ≡ filed_under c answers.execution.observation)
      × (complete taken answers.execution.outcome (to_utc answers.execution.started_at)
            (to_utc answers.execution.finished_at)
          ≡ ok c)
      × (outcome ≡ recorded (answers.complete c holder))
  Continues (ok taken) (claims r ∷ calls) outcome = ⊥
  Continues (ok taken) (records_skipped r entries ∷ calls) outcome = ⊥
  Continues (ok taken) (releases r ∷ call ∷ calls) outcome = ⊥
  Continues (ok taken) (completes c holder o entries ∷ call ∷ calls) outcome = ⊥

  abbrev pub Follows : Config → Schedulable → Time → Time → List StoreCall → SlotOutcome → Type 0
  Follows config schedulable due now [] outcome = outcome ≡ SlotOutcome.failed
  Follows config schedulable due now (claims p ∷ calls) outcome =
      Proposes config schedulable due now p × Continues (answers.claim_slot p) calls outcome
  Follows config schedulable due now (call ∷ calls) outcome = ⊥

  report : Run → Result Error Run
  report taken =
      complete taken answers.execution.outcome (to_utc answers.execution.started_at)
        (to_utc answers.execution.finished_at)

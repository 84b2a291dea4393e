-- ===== src/Run/Scheduler.antt =====
-- internal/run/scheduler.go: one Monitor's part of a tick. What a collaborator answers is a field of
-- `Answers`, one for each call that the code makes; each result comes with the calls to the Run
-- store, in order. Logging is left out.
use probehive.Base.{
  String, Bool, not, ◌&&◌, Option, none, some, List, [], ◌∷◌, Result, ok, err, ◌>>◌, is_empty,
  str_eq, if◌then◌else◌,
}
use probehive.Base.Int.{ℤ}
use probehive.Base.Time.{Time, Duration, zero_time, is_zero, after, add, to_utc}
use probehive.Run.Model.{Kind, Outcome, Error, Slot, Run, validate_slot}
use probehive.Run.Lifecycle.{new_run, claim, complete}
use probehive.Run.Lease.{lease_duration}
use probehive.Run.Observation.{Observation, filed_under}
use probehive.Run.Schedule.{Schedulable, validate_schedulable, effective_interval, slot_for}
use probehive.Run.Events.{Json, OutboxEntry, new_run_recorded_entry}

pub record Config : Type 0 where
  pub location : String
  pub minimum_interval : Duration
  pub execution_ceiling : Duration
  pub max_backfill_slots : ℤ

-- `Scheduler.attempted`: the last slot attempted, by Monitor.
abbrev pub Attempted : Type 0
Attempted = List (String × Time)

-- A missing key reads as the zero `Time`.
unfoldable pub last_attempt : String → Attempted → Time
last_attempt monitor_id [] = zero_time
last_attempt monitor_id ((key, value) ∷ rest) =
    if str_eq key monitor_id then value else last_attempt monitor_id rest

unfoldable pub set_attempt : String → Time → Attempted → Attempted
set_attempt monitor_id value [] = (monitor_id, value) ∷ []
set_attempt monitor_id value ((key, old) ∷ rest) =
    if str_eq key monitor_id
    then (key, value) ∷ rest
    else (key, old) ∷ set_attempt monitor_id value rest

pub record Plan : Type 0 where
  pub due : Time
  pub previous : Time

-- The slot that is current, where the Monitor can be scheduled.
abbrev current_slot : Config → Schedulable → Time → Option Time
current_slot config schedulable now = elim (validate_schedulable schedulable) [
  | err e ↦ none
  | ok t ↦
      elim (slot_for schedulable.monitor_id
        (effective_interval schedulable.interval config.minimum_interval) now) [
          | err e ↦ none
          | ok current ↦ some current
        ]
]

suppress : Option Time → Time → Option Plan
suppress none last = none
suppress (some current) last =
    if not (is_zero last) && not (after current last)
    then some (record { due = zero_time; previous = last })
    else some (record { due = current; previous = last })

-- `plan`; `none` stands for `ok == false`.
unfoldable pub plan : Config → Attempted → Schedulable → Time → Option Plan
unfolding suppress
plan config attempted schedulable now =
    suppress (current_slot config schedulable now) (last_attempt schedulable.monitor_id attempted)

-- What the UUID generator answers: a text, or `none` for an error.
abbrev pub NewUuid : Type 0
NewUuid = Option String

pub data NewRunError : Type 0 where
  no_identifier : NewRunError
  rejected : Error → NewRunError

abbrev pub lift {ℓ} : {A : Type ℓ} → Result Error A → Result NewRunError A
lift (ok a) = ok a
lift (err e) = err (NewRunError.rejected e)

abbrev pub slot_of : Config → Schedulable → Time → Slot
slot_of config schedulable due = record {
  organization_id = schedulable.organization_id;
  monitor_id = schedulable.monitor_id;
  revision_number = schedulable.revision_number;
  location = config.location;
  scheduled_for = to_utc due;
}

-- `newRun` with the identifier that was generated.
unfoldable pub new_run_for : Config → Schedulable → Time → String → Time → String → Result Error Run
new_run_for config schedulable due holder now id =
    let slot = slot_of config schedulable due in
    if is_empty holder
    then (do validate_slot slot; ok (new_run id slot Kind.scheduled))
    else claim id slot Kind.scheduled holder
        (add (to_utc now) (lease_duration config.execution_ceiling))

unfoldable pub new_scheduled_run :
    Config → Schedulable → Time → String → Time → NewUuid → Result NewRunError Run
new_scheduled_run config schedulable due holder now none = err NewRunError.no_identifier
new_scheduled_run config schedulable due holder now (some id) =
    lift (new_run_for config schedulable due holder now id)

-- The errors of the store that the scheduler tells apart.
pub data StoreError : Type 0 where
  slot_held lease_lost failed : StoreError

pub data StoreCall : Type 0 where
  claims releases : Run → StoreCall
  completes : Run → String → Observation → List OutboxEntry → StoreCall
  records_skipped : Run → List OutboxEntry → StoreCall

pub data SlotOutcome : Type 0 where
  claimed held failed : SlotOutcome

pub record Execution : Type 0 where
  pub outcome : Outcome
  pub started_at : Time
  pub finished_at : Time
  pub observation : Observation

pub record Answers : Type 0 where
  pub holder : NewUuid
  pub run_id : NewUuid
  pub claim_slot : Run → Result StoreError Run
  pub stopped_at_claim : Bool
  pub execution : Execution
  pub stopped : Bool
  pub event_id : NewUuid
  pub complete : Run → String → Result StoreError (Unit {0})

-- `switch err := Store.Complete(…)`.
abbrev pub recorded : Result StoreError (Unit {0}) → SlotOutcome
recorded (ok t) = SlotOutcome.claimed
recorded (err StoreError.lease_lost) = SlotOutcome.held
recorded (err StoreError.slot_held) = SlotOutcome.failed
recorded (err StoreError.failed) = SlotOutcome.failed

-- `switch` on the error of `Store.ClaimSlot`.
abbrev pub unclaimed : StoreError → Bool → SlotOutcome
unclaimed StoreError.slot_held stopped = SlotOutcome.held
unclaimed _ stopped = if stopped then SlotOutcome.held else SlotOutcome.failed

module _ (json : Json) where
  -- After the completion of the Run record: the event, and the write under the lease.
  unfoldable pub store_result : Answers → Run → Run → List StoreCall × SlotOutcome
  store_result answers taken completed = elim answers.event_id [
    | none ↦ ([], SlotOutcome.failed)
    | some id ↦ elim (new_run_recorded_entry json id completed completed.finished_at) [
      | err e ↦ ([], SlotOutcome.failed)
      | ok entry ↦ (
        completes completed taken.lease_holder (filed_under completed answers.execution.observation)
              (entry ∷ [])
            ∷ [],
        recorded (answers.complete completed taken.lease_holder),
      )
    ]
  ]

  -- After a successful claim.
  unfoldable pub execute : Answers → Run → List StoreCall × SlotOutcome
  unfolding store_result
  execute answers taken =
      if answers.stopped
      then (releases taken ∷ [], SlotOutcome.held)
      else elim (complete taken answers.execution.outcome (to_utc answers.execution.started_at)
          (to_utc answers.execution.finished_at)) [
            | err e ↦ ([], SlotOutcome.failed)
            | ok completed ↦ store_result answers taken completed
          ]

  unfoldable pub after_claim : Answers → Run → Result StoreError Run → List StoreCall × SlotOutcome
  unfolding execute
  after_claim answers proposed (err e) =
      (claims proposed ∷ [], unclaimed e answers.stopped_at_claim)
  after_claim answers proposed (ok taken) =
      let (calls, outcome) = execute answers taken in (claims proposed ∷ calls, outcome)

  unfoldable pub run_slot :
      Config → Answers → Schedulable → Time → Time → List StoreCall × SlotOutcome
  unfolding after_claim
  run_slot config answers schedulable due now = elim answers.holder [
    | none ↦ ([], SlotOutcome.failed)
    | some holder ↦ elim (new_scheduled_run config schedulable due holder now answers.run_id) [
      | err e ↦ ([], SlotOutcome.failed)
      | ok proposed ↦ after_claim answers proposed (answers.claim_slot proposed)
    ]
  ]

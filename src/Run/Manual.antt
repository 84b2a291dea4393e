-- ===== src/Run/Manual.antt =====
-- internal/run/manual.go: one Run that a person asks for. What a collaborator answers is a field of
-- `ManualAnswers`, one for each call that the code makes; each result comes with the calls to the Run
-- store that write, in order. The timeouts of contexts and logging are left out, and so is the return
-- of the execution slot, which a `defer` does on every path.
use probehive.Base.{
  String, Bool, true, false, not, ◌||◌, Option, none, some, List, [], ◌∷◌, Result, ok, err,
  if◌then◌else◌, is_empty,
}
use probehive.Base.Time.{Time, Duration, add, to_utc}
use probehive.Run.Model.{Kind, Error, Run}
use probehive.Run.Lifecycle.{claim, complete}
use probehive.Run.Lease.{lease_duration}
use probehive.Run.Observation.{filed_under}
use probehive.Run.Schedule.{Schedulable, validate_schedulable}
use probehive.Run.Events.{Json, new_run_recorded_entry}
use probehive.Run.Scheduler.{StoreError, StoreCall, claims, releases, completes, Execution, NewUuid}

pub record Scope : Type 0 where
  pub organization_id : String
  pub monitor_id : String

pub data ManualError : Type 0 where
  target_not_found target_unconfigured capacity failed : ManualError

pub record ManualConfig : Type 0 where
  pub location : String
  pub execution_ceiling : Duration

pub record ManualAnswers : Type 0 where
  pub target : Result StoreError (Option Schedulable)
  pub monitor_exists : Result StoreError Bool
  pub acquired : Bool
  pub holder : NewUuid
  pub run_id : NewUuid
  pub claim_slot : Run → Result StoreError Run
  pub execution : Execution
  pub stopped : Bool
  pub event_id : NewUuid
  pub complete : Run → String → Result StoreError (Unit {0})

abbrev pub Triggered : Type 0
Triggered = List StoreCall × Result ManualError Run

-- Nothing is claimed yet.
abbrev pub refused : ManualError → Triggered
refused e = ([], err e)

-- The deferred release of a Run that was not recorded.
abbrev pub given_back : Run → Triggered
given_back taken = (releases taken ∷ [], err ManualError.failed)

abbrev pub missing_target : Result StoreError Bool → ManualError
missing_target (ok true) = ManualError.target_unconfigured
missing_target (ok false) = ManualError.target_not_found
missing_target (err e) = ManualError.failed

abbrev pub stored : Run → Run → StoreCall → Result StoreError (Unit {0}) → Triggered
stored taken completed call (ok t) = (call ∷ [], ok completed)
stored taken completed call (err e) = (call ∷ releases taken ∷ [], err ManualError.failed)

-- The Run that is claimed.
abbrev pub proposed_run : ManualConfig → Schedulable → Time → String → String → Result Error Run
proposed_run config target now id holder =
    claim id
      (record {
        organization_id = target.organization_id;
        monitor_id = target.monitor_id;
        revision_number = target.revision_number;
        location = config.location;
        scheduled_for = now;
      })
      Kind.manual holder (add now (lease_duration config.execution_ceiling))

module _ (json : Json) where
  unfoldable pub record_manual : ManualAnswers → Run → Run → Triggered
  record_manual answers taken completed = elim answers.event_id [
    | none ↦ given_back taken
    | some id ↦ elim (new_run_recorded_entry json id completed completed.finished_at) [
      | err e ↦ given_back taken
      | ok entry ↦
          stored taken completed
            (completes completed taken.lease_holder
              (filed_under completed answers.execution.observation) (entry ∷ []))
            (answers.complete completed taken.lease_holder)
    ]
  ]

  -- After a successful claim.
  unfoldable pub execute_manual : ManualAnswers → Run → Triggered
  unfolding record_manual
  execute_manual answers taken =
      if answers.stopped
      then given_back taken
      else elim (complete taken answers.execution.outcome (to_utc answers.execution.started_at)
          (to_utc answers.execution.finished_at)) [
            | err e ↦ given_back taken
            | ok completed ↦ record_manual answers taken completed
          ]

  unfoldable pub claimed_manual : ManualAnswers → Run → Result StoreError Run → Triggered
  unfolding execute_manual
  claimed_manual answers proposed (err e) = (claims proposed ∷ [], err ManualError.failed)
  claimed_manual answers proposed (ok taken) =
      let (calls, result) = execute_manual answers taken in (claims proposed ∷ calls, result)

  -- From the generation of identifiers on.
  unfoldable pub claim_manual : ManualConfig → ManualAnswers → Schedulable → Time → Triggered
  unfolding claimed_manual
  claim_manual config answers target now = elim answers.holder [
    | none ↦ refused ManualError.failed
    | some holder ↦ elim answers.run_id [
      | none ↦ refused ManualError.failed
      | some id ↦ elim (proposed_run config target now id holder) [
        | err e ↦ refused ManualError.failed
        | ok proposed ↦ claimed_manual answers proposed (answers.claim_slot proposed)
      ]
    ]
  ]

  unfoldable pub trigger_target : ManualConfig → ManualAnswers → Schedulable → Time → Triggered
  unfolding claim_manual
  trigger_target config answers target now = elim (validate_schedulable target) [
    | err e ↦ refused ManualError.failed
    | ok t ↦
        if not answers.acquired
        then refused ManualError.capacity
        else claim_manual config answers target (to_utc now)
  ]

  -- `Trigger`.
  unfoldable pub trigger : ManualConfig → ManualAnswers → Scope → Time → Triggered
  unfolding trigger_target
  trigger config answers scope now =
      if is_empty scope.organization_id || is_empty scope.monitor_id
      then refused ManualError.failed
      else elim answers.target [
        | err e ↦ refused ManualError.failed
        | ok found ↦ elim found [
          | none ↦ refused (missing_target answers.monitor_exists)
          | some target ↦ trigger_target config answers target now
        ]
      ]

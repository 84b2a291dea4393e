-- ===== src/Run/Confirming.antt =====
-- internal/run/confirmation.go: the Run that confirms a suspicion. What a collaborator answers is a
-- field of `ConfirmationAnswers`, one for each call that the code makes; each result comes with the
-- calls to the Run store that write, in order. Timeouts of contexts and logging are left out, and so
-- is the return of the execution slot, which a `defer` does on every path.
use probehive.Base.{
  String, Bool, not, ◌||◌, ◌&&◌, Option, none, some, List, [], ◌∷◌, Result, ok, err, if◌then◌else◌,
  is_empty, byte_len, ltb, str_eq,
}
use probehive.Base.Int.{ℤ, pos, ltb_ℤ}
use probehive.Base.Time.{Time, Duration, add, to_utc}
use probehive.Run.Model.{Error, Run, is_utc, is_in_flight, max_location_length}
use probehive.Run.Lifecycle.{claim_confirmation, complete}
use probehive.Run.Lease.{lease_duration}
use probehive.Run.Observation.{filed_under}
use probehive.Run.Events.{Json, new_run_recorded_entry}
use probehive.Run.Scheduler.{StoreError, StoreCall, claims, releases, completes, Execution, NewUuid}

pub record ConfirmationRequest : Type 0 where
  pub event_id : String
  pub organization_id : String
  pub candidate_id : String
  pub monitor_id : String
  pub revision_number : ℤ
  pub location : String
  pub triggering_run_id : String
  pub triggering_scheduled_for : Time
  pub requested_for : Time
  pub expected_evidence : String
  pub policy_version : String

-- `ConfirmationRequest.Validate`, as a test.
unfoldable pub valid_request : ConfirmationRequest → Bool
valid_request request =
    not (
      is_empty request.event_id
      || is_empty request.organization_id
      || is_empty request.candidate_id
      || is_empty request.monitor_id
      || is_empty request.triggering_run_id
      || is_empty request.policy_version)
    && not (
        ltb_ℤ request.revision_number (pos 1)
        || is_empty request.location
        || ltb max_location_length (byte_len request.location))
    && not (not (is_utc request.triggering_scheduled_for) || not (is_utc request.requested_for))
    && (str_eq request.expected_evidence "passing" || str_eq request.expected_evidence "failing")

-- `held` is `ErrConfirmationHeld`.
pub data ConfirmationError : Type 0 where
  held failed : ConfirmationError

pub record ConfirmationAnswers : Type 0 where
  pub target : Result StoreError Bool
  pub acquired : Bool
  pub holder : NewUuid
  pub run_id : NewUuid
  pub claim_slot : Run → Result StoreError Run
  pub existing : Result StoreError (Option Run)
  pub execution : Execution
  pub stopped : Bool
  pub event_id : NewUuid
  pub complete : Run → String → Result StoreError (Unit {0})

abbrev pub Executed : Type 0
Executed = List StoreCall × Result ConfirmationError (Unit {0})

abbrev pub fails_with : List StoreCall → Executed
fails_with calls = (calls, err ConfirmationError.failed)

-- The Run that is claimed, for the instant that the request names.
abbrev pub proposed_confirmation :
    Duration → ConfirmationRequest → Time → String → String → Result Error Run
proposed_confirmation ceiling request now id holder =
    claim_confirmation id
      (record {
        organization_id = request.organization_id;
        monitor_id = request.monitor_id;
        revision_number = request.revision_number;
        location = request.location;
        scheduled_for = request.requested_for;
      })
      (record {
        candidate_id = request.candidate_id;
        triggering_run_id = request.triggering_run_id;
        triggering_scheduled_for = request.triggering_scheduled_for;
        causation_event_id = request.event_id;
        policy_version = request.policy_version;
      })
      holder (add now (lease_duration ceiling))

-- After `ErrSlotHeld`: what `FindConfirmation` answers.
abbrev pub after_held : Result StoreError (Option Run) → Result ConfirmationError (Unit {0})
after_held (err e) = err ConfirmationError.failed
after_held (ok none) = err ConfirmationError.held
after_held (ok (some r)) =
    if not (is_in_flight r.outcome) then ok tt else err ConfirmationError.held

abbrev pub completion_result : Result StoreError (Unit {0}) → Result ConfirmationError (Unit {0})
completion_result (ok t) = ok tt
completion_result (err e) = err ConfirmationError.failed

module _ (json : Json) where
  unfoldable pub record_confirmation : ConfirmationAnswers → Run → Run → Executed
  record_confirmation answers taken completed = elim answers.event_id [
    | none ↦ fails_with []
    | some id ↦ elim (new_run_recorded_entry json id completed completed.finished_at) [
      | err e ↦ fails_with []
      | ok entry ↦ (
        completes completed taken.lease_holder (filed_under completed answers.execution.observation)
              (entry ∷ [])
            ∷ [],
        completion_result (answers.complete completed taken.lease_holder),
      )
    ]
  ]

  unfoldable pub execute_confirmation : ConfirmationAnswers → Run → Executed
  execute_confirmation answers taken =
      if answers.stopped
      then fails_with (releases taken ∷ [])
      else elim (complete taken answers.execution.outcome (to_utc answers.execution.started_at)
          (to_utc answers.execution.finished_at)) [
            | err e ↦ fails_with []
            | ok completed ↦ record_confirmation answers taken completed
          ]

  unfoldable pub claimed_confirmation : ConfirmationAnswers → Run → Result StoreError Run → Executed
  claimed_confirmation answers proposed (err StoreError.slot_held) =
      (claims proposed ∷ [], after_held answers.existing)
  claimed_confirmation answers proposed (err e) = fails_with (claims proposed ∷ [])
  claimed_confirmation answers proposed (ok taken) =
      let (calls, result) = execute_confirmation answers taken in (claims proposed ∷ calls, result)

  -- From the generation of identifiers on.
  unfoldable pub claim_request :
      Duration → ConfirmationAnswers → ConfirmationRequest → Time → Executed
  claim_request ceiling answers request now = elim answers.holder [
    | none ↦ fails_with []
    | some holder ↦ elim answers.run_id [
      | none ↦ fails_with []
      | some id ↦ elim (proposed_confirmation ceiling request now id holder) [
        | err e ↦ fails_with []
        | ok proposed ↦ claimed_confirmation answers proposed (answers.claim_slot proposed)
      ]
    ]
  ]

  -- `Execute`.
  unfoldable pub execute_request :
      Duration → ConfirmationAnswers → ConfirmationRequest → Time → Executed
  execute_request ceiling answers request now =
      if not (valid_request request) then fails_with [] else elim answers.target [
        | err e ↦ fails_with []
        | ok eligible ↦
            if not eligible
            then ([], ok tt)
            else if not answers.acquired
            then fails_with []
            else claim_request ceiling answers request (to_utc now)
      ]

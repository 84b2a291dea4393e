-- ===== src/Health/Service.antt =====
-- internal/health/service.go: the handler of recorded Runs and the staleness sweep. What the UUID
-- generator and the store answer are arguments, and so is `json.Unmarshal`.
use probehive.Base.{
  ℕ, suc, String, Bool, true, false, Option, none, some, List, [], ◌∷◌, ◌||◌, not, Result, ok, err,
  ◌>>=◌, ◌>>◌, fail_if, is_empty, str_eq,
}
use probehive.Base.Int.{ℤ, pos, ltb_ℤ, eqb_ℤ}
use probehive.Base.Time.{Time, to_utc}
use probehive.Health.Model.{Kind, Outcome}
use probehive.Health.Snapshot.{is_utc}

pub record RunRecorded : Type 0 where
  pub event_id : String
  pub organization_id : String
  pub occurred_at : Time
  pub aggregate_type : String
  pub aggregate_id : String
  pub aggregate_version : ℤ
  pub run_id : String
  pub monitor_id : String
  pub revision_number : ℤ
  pub location : String
  pub scheduled_for : Time
  pub kind : Kind
  pub outcome : Outcome

pub record ProcessIds : Type 0 where
  pub candidate_id : String
  pub confirmation_event_id : String
  pub transition_id : String
  pub transition_event_id : String

pub record StaleTarget : Type 0 where
  pub organization_id : String
  pub monitor_id : String
  pub version : ℤ

pub data ServiceError : Type 0 where
  payload_invalid organization_mismatch uuid_failed store_failed : ServiceError

abbrev pub valid_kind : Kind → Bool
valid_kind (Kind.other _) = false
valid_kind _ = true

abbrev pub valid_outcome : Outcome → Bool
valid_outcome Outcome.empty = false
valid_outcome (Outcome.other _) = false
valid_outcome _ = true

unfoldable pub validate_run_recorded : RunRecorded → Result ServiceError (Unit {0})
validate_run_recorded event = do
  fail_if
      (is_empty event.event_id
        || is_empty event.organization_id
        || is_empty event.run_id
        || is_empty event.monitor_id)
      ServiceError.payload_invalid
  fail_if
      (not (str_eq event.aggregate_type "run")
        || not (str_eq event.aggregate_id event.run_id)
        || not (eqb_ℤ event.aggregate_version (pos 1)))
      ServiceError.payload_invalid
  fail_if (ltb_ℤ event.revision_number (pos 1) || is_empty event.location)
      ServiceError.payload_invalid
  fail_if (not (is_utc event.occurred_at) || not (is_utc event.scheduled_for))
      ServiceError.payload_invalid
  fail_if (not (valid_kind event.kind)) ServiceError.payload_invalid
  fail_if (not (valid_outcome event.outcome)) ServiceError.payload_invalid
  ok tt

abbrev pub unmarshalled : Option RunRecorded → Result ServiceError RunRecorded
unmarshalled none = err ServiceError.payload_invalid
unmarshalled (some event) = ok event

-- `HandleRunRecorded` up to the clock.
unfoldable pub read_event :
    (List ℕ → Option RunRecorded) → String → String → List ℕ → Result ServiceError RunRecorded
read_event unmarshal event_id organization_id payload = do
  event ← unmarshalled (unmarshal payload)
  validate_run_recorded event
  fail_if (not (str_eq event.event_id event_id)) ServiceError.payload_invalid
  fail_if (not (str_eq event.organization_id organization_id)) ServiceError.organization_mismatch
  ok event

abbrev pub generated : Option String → Result ServiceError String
generated none = err ServiceError.uuid_failed
generated (some id) = ok id

-- The four identifiers; the argument is what each call of the generator answers.
unfoldable pub process_ids : (ℕ → Option String) → Result ServiceError ProcessIds
process_ids new_uuid = do
  candidate ← generated (new_uuid 0)
  confirmation ← generated (new_uuid 1)
  transition ← generated (new_uuid 2)
  event ← generated (new_uuid 3)
  ok (record {
    candidate_id = candidate;
    confirmation_event_id = confirmation;
    transition_id = transition;
    transition_event_id = event;
  })

unfoldable pub handle_run_recorded :
    (List ℕ → Option RunRecorded)
    → (ℕ → Option String)
    → (RunRecorded → ProcessIds → Time → Result ServiceError (Unit {0}))
    → String
    → String
    → List ℕ
    → Time
    → Result ServiceError (Unit {0})
handle_run_recorded unmarshal new_uuid process event_id organization_id payload clock = do
  event ← read_event unmarshal event_id organization_id payload
  ids ← process_ids new_uuid
  process event ids (to_utc clock)

-- What is answered while one target is swept.
pub record SweepAnswers : Type 0 where
  pub transition_id : Option String
  pub event_id : Option String
  pub mark_health_stale : Result ServiceError (Unit {0})

pub record Sweep : Type 0 where
  pub marks : List StaleTarget
  pub processed : ℕ
  pub failure : Option ServiceError

-- The loop of `SweepStale`: the targets that the store is asked to mark, in order, and the result.
unfoldable pub sweep_targets : List (StaleTarget × SweepAnswers) → Sweep
sweep_targets [] = record { marks = []; processed = 0; failure = none }
sweep_targets ((target, answers) ∷ rest) =
    let more = sweep_targets rest in
    elim (do transition ← generated answers.transition_id; generated answers.event_id) [
      | err e ↦ record { marks = []; processed = 0; failure = some e }
      | ok ids ↦ elim answers.mark_health_stale [
        | err e ↦ record { marks = target ∷ []; processed = 0; failure = some e }
        | ok t ↦ record {
          marks = target ∷ more.marks;
          processed = suc more.processed;
          failure = more.failure;
        }
      ]
    ]

-- ===== src/Health/Model.antt =====
-- internal/health/health.go: the types of a Monitor's evaluated health. A Go string type with
-- named constants is a data type with `other` for every string that is none of them.
use probehive.Base.{ℕ, String, Bool, true, false, Option, str_eq}
use probehive.Base.Int.{ℤ}
use probehive.Base.Time.{Time}

pub data State : Type 0 where
  unknown healthy degraded down : State
  other : String → State

pub data Evidence : Type 0 where
  passing failing location_fault indeterminate : Evidence
  other : String → Evidence

pub data Direction : Type 0 where
  failure recovery : Direction
  other : String → Direction

pub data CandidateState : Type 0 where
  pending confirmed contradicted superseded stale : CandidateState
  other : String → CandidateState

-- The strings of a Run that `Classify` and `Evaluate` read.
pub data Kind : Type 0 where
  scheduled confirmation manual : Kind
  other : String → Kind

pub data Outcome : Type 0 where
  empty passed failed errored timed_out cancelled skipped : Outcome
  other : String → Outcome

pub data FailureCode : Type 0 where
  empty : FailureCode
  status_unexpected : FailureCode
  execution_timeout : FailureCode
  redirect_too_many : FailureCode
  certificate_invalid : FailureCode
  transport_failed : FailureCode
  resolution_failed : FailureCode
  resolution_empty : FailureCode
  connect_failed : FailureCode
  address_mismatch : FailureCode
  other : String → FailureCode

-- The policy in force, `phase1.v1`, or another.
pub data Policy : Type 0 where
  phase1_v1 : Policy
  other : String → Policy

abbrev pub state_eq : State → State → Bool
state_eq State.unknown State.unknown = true
state_eq State.healthy State.healthy = true
state_eq State.degraded State.degraded = true
state_eq State.down State.down = true
state_eq (State.other s) (State.other t) = str_eq s t
state_eq _ _ = false

abbrev pub evidence_eq : Evidence → Evidence → Bool
evidence_eq Evidence.passing Evidence.passing = true
evidence_eq Evidence.failing Evidence.failing = true
evidence_eq Evidence.location_fault Evidence.location_fault = true
evidence_eq Evidence.indeterminate Evidence.indeterminate = true
evidence_eq (Evidence.other s) (Evidence.other t) = str_eq s t
evidence_eq _ _ = false

abbrev pub is_pending : CandidateState → Bool
is_pending CandidateState.pending = true
is_pending _ = false

-- `evidence == EvidencePassing || evidence == EvidenceFailing`.
abbrev pub is_determinate : Evidence → Bool
is_determinate Evidence.passing = true
is_determinate Evidence.failing = true
is_determinate _ = false

pub record Counts : Type 0 where
  pub configured : ℕ
  pub eligible : ℕ
  pub responding : ℕ
  pub passing : ℕ
  pub failing : ℕ
  pub location_fault : ℕ
  pub indeterminate : ℕ
  pub missing : ℕ

pub record Candidate : Type 0 where
  pub id : String
  pub organization_id : String
  pub monitor_id : String
  pub source_revision_number : ℤ
  pub direction : Direction
  pub expected_evidence : Evidence
  pub state : CandidateState
  pub triggering_run_id : String
  pub triggering_scheduled_for : Time
  pub triggering_event_id : String
  pub requested_at : Time

pub record Snapshot : Type 0 where
  pub organization_id : String
  pub monitor_id : String
  pub state : State
  pub stable_state : State
  pub policy_version : Policy
  pub version : ℤ
  pub source_revision_number : ℤ
  pub last_scheduled_for : Time
  pub last_determinate_finished_at : Time
  pub last_run_id : String
  pub last_run_scheduled_for : Time
  pub candidate : Option Candidate
  pub counts : Counts
  pub transitioned_at : Time
  pub updated_at : Time

pub record Input : Type 0 where
  pub event_id : String
  pub run_id : String
  pub kind : Kind
  pub outcome : Outcome
  pub failure_code : FailureCode
  pub revision_number : ℤ
  pub latest_revision_number : ℤ
  pub scheduled_for : Time
  pub finished_at : Time
  pub candidate_id : String
  pub now : Time
  pub new_candidate_id : String

pub record Decision : Type 0 where
  pub snapshot : Snapshot
  pub previous_state : State
  pub evidence : Evidence
  pub late : Bool
  pub superseded_revision : Bool
  pub ignored_confirmation : Bool
  pub candidate_created : Option Candidate
  pub candidate_completed : Option Candidate
  pub transitioned : Bool

-- The errors of the package, one for each message.
pub data Error : Type 0 where
  identity_required : Error
  timestamps_not_utc : Error
  policy_unsupported : Error
  state_invalid : Error
  evidence_identity_required : Error
  evidence_not_utc : Error
  finish_required : Error
  candidate_id_required : Error
  stable_state_invalid : Error
  direction_unknown : Error
  intervals_not_positive : Error

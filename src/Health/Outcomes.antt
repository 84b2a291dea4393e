-- ===== src/Health/Outcomes.antt =====
-- How a suspected outage of internal/health/health.go starts and how its confirmation settles it.
use probehive.Base.{Option, none, some, ok, ◌≡◌, ◌≢◌, ◌⊎◌, arith, Bool, true, false, if◌then◌else◌}
use probehive.Base.Int.{eqb_ℤ}
use probehive.Base.Time.{Time, is_zero, before}
use probehive.Health.Model.{
  State, Evidence, Direction, CandidateState, Kind, Candidate, Snapshot, Input, Decision,
  evidence_eq, is_determinate,
}
use probehive.Health.Snapshot.{set_state, next_version}
use probehive.Health.Scheduled.{evaluate_scheduled}
use probehive.Health.Confirmation.{evaluate_confirmation}
use probehive.Health.Evaluate.{decide, evaluate, mark_stale, awaits}
use probehive.Health.Invariant.{IsCoherent}
use probehive.Health.Safety.{evidence_of, evaluate-decide}

-- A scheduled Run of the latest revision that is not late.
pub record IsDue (s : Snapshot) (input : Input) : Type 0 where
  pub is_scheduled : input.kind ≡ Kind.scheduled
  pub is_latest : eqb_ℤ input.revision_number input.latest_revision_number ≡ true
  pub in_time :
      (is_zero s.last_scheduled_for ≡ true)
      ⊎ (before input.scheduled_for s.last_scheduled_for ≡ false)

-- A confirmation Run of the latest revision that the snapshot's candidate awaits.
pub record IsAwaited (s : Snapshot) (input : Input) : Type 0 where
  pub is_confirmation : input.kind ≡ Kind.confirmation
  pub is_latest : eqb_ℤ input.revision_number input.latest_revision_number ≡ true
  pub is_awaited : awaits s.candidate input ≡ true

-- The evidence that agrees with a stable state; unknown agrees with passing.
abbrev pub agreeing : State → Evidence
agreeing State.down = Evidence.failing
agreeing _ = Evidence.passing

abbrev pub settled : State → State
settled State.down = State.down
settled _ = State.healthy

abbrev pub direction_from : State → Direction
direction_from State.down = Direction.recovery
direction_from _ = Direction.failure

abbrev pub contrary : State → Evidence
contrary State.down = Evidence.passing
contrary _ = Evidence.failing

-- What a due Run leaves, by its evidence and the stable state before it.
pub record Agrees (s : Snapshot) (d : Decision) : Type 0 where
  pub state_settled : d.snapshot.state ≡ settled s.stable_state
  pub stable_settled : d.snapshot.stable_state ≡ settled s.stable_state
  pub no_candidate : d.snapshot.candidate ≡ none

-- The candidate that a Run with contrary evidence starts.
abbrev pub suspicion : Snapshot → Input → Candidate
suspicion s input = record {
  id = input.new_candidate_id;
  organization_id = s.organization_id;
  monitor_id = s.monitor_id;
  source_revision_number = input.revision_number;
  direction = direction_from s.stable_state;
  expected_evidence = contrary s.stable_state;
  state = CandidateState.pending;
  triggering_run_id = input.run_id;
  triggering_scheduled_for = input.scheduled_for;
  triggering_event_id = input.event_id;
  requested_at = input.now;
}

pub record Suspects (s : Snapshot) (input : Input) (d : Decision) : Type 0 where
  pub is_degraded : d.snapshot.state ≡ State.degraded
  pub stable_kept : d.snapshot.stable_state ≡ s.stable_state
  pub holds : d.snapshot.candidate ≡ some (suspicion s input)
  pub created : d.candidate_created ≡ some (suspicion s input)

module _ (s : Snapshot) (input : Input) (d : Decision) (coherent : IsCoherent s)
    (due : IsDue s input) (decided : decide s input ≡ ok d) where
  due-Agrees : evidence_of input ≡ agreeing s.stable_state → Agrees s d
  unfolding decide evaluate_scheduled set_state
  due-Agrees e = ground arith

  due-Suspects : evidence_of input ≡ contrary s.stable_state → Suspects s input d
  unfolding decide evaluate_scheduled set_state
  due-Suspects e = ground arith

  -- Evidence that decides nothing leaves state, stable state and candidate.
  due_undecided :
      is_determinate (evidence_of input) ≡ false
      → (d.snapshot.state ≡ s.state)
        × (d.snapshot.stable_state ≡ s.stable_state)
        × (d.snapshot.candidate ≡ s.candidate)
  unfolding decide evaluate_scheduled set_state
  due_undecided e = ground arith

-- A due scheduled Run whose evidence agrees with the stable state of coherent health (passing for
-- unknown and healthy, failing for down) settles the Monitor there, healthy or down, and leaves no
-- candidate.
pub due_settles :
    (s : Snapshot) (input : Input) (d : Decision)
    → IsCoherent s
    → IsDue s input
    → evidence_of input ≡ agreeing s.stable_state
    → evaluate s input ≡ ok d
    → Agrees s d
due_settles s input d h due e eq = due-Agrees s input d h due (evaluate-decide s input d eq).2 e

-- A due scheduled Run whose evidence is contrary to the stable state of coherent health degrades
-- the Monitor without leaving the stable state, and holds a new pending candidate: of the Run, of
-- its revision, in the direction away from the stable state, expecting the same evidence again.
pub due_suspicion :
    (s : Snapshot) (input : Input) (d : Decision)
    → IsCoherent s
    → IsDue s input
    → evidence_of input ≡ contrary s.stable_state
    → evaluate s input ≡ ok d
    → Suspects s input d
due_suspicion s input d h due e eq = due-Suspects s input d h due (evaluate-decide s input d eq).2 e

abbrev pub confirms : Input → Candidate → Bool
confirms input c = evidence_eq (evidence_of input) c.expected_evidence

abbrev pub destination : Direction → State
destination Direction.failure = State.down
destination Direction.recovery = State.healthy
destination (Direction.other s) = State.other s

-- What a confirmation does to the candidate and its Monitor.
pub record Settles (s : Snapshot) (input : Input) (c : Candidate) (d : Decision) : Type 0 where
  pub no_candidate : d.snapshot.candidate ≡ none
  pub stable_reached : d.snapshot.stable_state ≡ d.snapshot.state
  pub completed :
      d.candidate_completed
      ≡ some (record c {
        state = if confirms input c then CandidateState.confirmed else CandidateState.contradicted;
      })
  pub reached :
      d.snapshot.state ≡ (if confirms input c then destination c.direction else s.stable_state)

module _ (s : Snapshot) (input : Input) (d : Decision) (c : Candidate) (coherent : IsCoherent s)
    (held : s.candidate ≡ some c) (awaited : IsAwaited s input)
    (determinate : is_determinate (evidence_of input) ≡ true)
    (decided : decide s input ≡ ok d) where
  awaited_clears : (d.snapshot.candidate ≡ none) × (d.snapshot.stable_state ≡ d.snapshot.state)
  unfolding decide evaluate_confirmation set_state
  awaited_clears = ground arith

  awaited_completes :
      (d.candidate_completed
        ≡ some (record c {
          state =
              if confirms input c then CandidateState.confirmed else CandidateState.contradicted;
        }))
      × (d.snapshot.state ≡ (if confirms input c then destination c.direction else s.stable_state))
  unfolding decide evaluate_confirmation set_state
  awaited_completes = ground arith

-- An awaited confirmation with determinate evidence ends the candidate of coherent health. The
-- expected evidence confirms it: a failure leads to down, a recovery to healthy. The other
-- evidence contradicts it, and the Monitor returns to its stable state.
pub awaited-Settles :
    (s : Snapshot) (input : Input) (d : Decision) (c : Candidate)
    → IsCoherent s
    → s.candidate ≡ some c
    → IsAwaited s input
    → is_determinate (evidence_of input) ≡ true
    → evaluate s input ≡ ok d
    → Settles s input c d
awaited-Settles s input d c h held awaited determinate eq =
    let decided = (evaluate-decide s input d eq).2 in
    let cleared = awaited_clears s input d c h held awaited determinate decided in
    let completes = awaited_completes s input d c h held awaited determinate decided in
    record {
      no_candidate = cleared.0;
      stable_reached = cleared.1;
      completed = completes.0;
      reached = completes.1;
    }

abbrev stale_candidate : Option Candidate → Option Candidate
stale_candidate none = none
stale_candidate (some c) = some (record c { state = CandidateState.stale })

-- Staleness of a valid snapshot whose state is not unknown: state and stable state become unknown,
-- the version is counted on, the candidate is dropped and handed out as stale, and the counts say
-- that the one configured location is missing.
pub mark_stale_outcome :
    (s : Snapshot) (now : Time) (d : Decision)
    → s.state ≢ State.unknown
    → mark_stale s now ≡ ok d
    → (d.snapshot.state ≡ State.unknown)
      × (d.snapshot.stable_state ≡ State.unknown)
      × (d.snapshot.candidate ≡ none)
      × (d.snapshot.version ≡ next_version s.version)
      × (d.candidate_completed ≡ stale_candidate s.candidate)
      × (d.snapshot.counts.missing ≡ 1)
      × (d.snapshot.counts.responding ≡ 0)
      × (d.snapshot.last_scheduled_for ≡ s.last_scheduled_for)
unfolding mark_stale set_state
mark_stale_outcome s now d known eq = ground arith

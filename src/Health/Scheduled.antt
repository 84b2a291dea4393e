-- ===== src/Health/Scheduled.antt =====
-- internal/health/health.go: `beginCandidate` and `evaluateScheduled`.
use probehive.Base.{
  Bool, true, false, not, Option, none, some, Result, ok, err, ◌>>◌, fail_if, if◌then◌else◌,
  is_empty,
}
use probehive.Health.Model.{
  State, Evidence, Direction, CandidateState, Candidate, Snapshot, Input, Decision, Error,
  is_determinate,
}
use probehive.Health.Snapshot.{set_state}

abbrev new_candidate : Snapshot → Input → Direction → Evidence → Candidate
new_candidate snapshot input direction expected = record {
  id = input.new_candidate_id;
  organization_id = snapshot.organization_id;
  monitor_id = snapshot.monitor_id;
  source_revision_number = input.revision_number;
  direction = direction;
  expected_evidence = expected;
  state = CandidateState.pending;
  triggering_run_id = input.run_id;
  triggering_scheduled_for = input.scheduled_for;
  triggering_event_id = input.event_id;
  requested_at = input.now;
}

begin_candidate : Decision → Input → Direction → Evidence → Result Error Decision
unfolding set_state
begin_candidate decision input direction expected = do
  fail_if (is_empty input.new_candidate_id) Error.candidate_id_required
  let candidate = new_candidate decision.snapshot input direction expected
  let begun = record decision {
    snapshot = record (decision.snapshot) { candidate = some candidate };
    candidate_created = some candidate;
  }
  ok (set_state begun State.degraded decision.snapshot.stable_state input.now)

-- `if decision.Snapshot.Candidate != nil { … }`: determinate scheduled evidence ends a candidate.
supersede : Option Candidate → Decision → Decision
supersede none decision = decision
supersede (some candidate) decision = record decision {
  candidate_completed = some (record candidate { state = CandidateState.superseded });
  snapshot = record (decision.snapshot) { candidate = none };
}

abbrev is_degraded : State → Bool
is_degraded State.degraded = true
is_degraded _ = false

-- The switch on the stable state; the evidence is passing or failing.
from_stable : State → Evidence → Decision → Input → Result Error Decision
unfolding begin_candidate
from_stable State.unknown Evidence.passing decision input =
    ok (set_state decision State.healthy State.healthy input.now)
from_stable State.unknown _ decision input =
    begin_candidate decision input Direction.failure Evidence.failing
from_stable State.healthy Evidence.passing decision input =
    ok (set_state decision State.healthy State.healthy input.now)
from_stable State.healthy _ decision input =
    begin_candidate decision input Direction.failure Evidence.failing
from_stable State.down Evidence.failing decision input =
    ok (set_state decision State.down State.down input.now)
from_stable State.down _ decision input =
    begin_candidate decision input Direction.recovery Evidence.passing
from_stable _ _ decision input = err Error.stable_state_invalid

unfoldable pub evaluate_scheduled : Decision → Input → Result Error Decision
unfolding supersede from_stable
evaluate_scheduled decision input =
    if not (is_determinate decision.evidence)
    then ok decision
    else let current = supersede decision.snapshot.candidate decision in
      let stable =
        if is_degraded current.snapshot.state
        then current.snapshot.stable_state
        else current.snapshot.state in
      from_stable stable current.evidence current input

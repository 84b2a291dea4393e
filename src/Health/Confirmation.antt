-- ===== src/Health/Confirmation.antt =====
-- internal/health/health.go: `evaluateConfirmation`.
use probehive.Base.{
  not, ◌||◌, Option, none, some, Result, ok, err, ◌>>=◌, if◌then◌else◌, is_empty, str_eq,
}
use probehive.Base.Int.{eqb_ℤ}
use probehive.Health.Model.{
  State, Direction, CandidateState, Candidate, Input, Decision, Error, evidence_eq, is_pending,
  is_determinate,
}
use probehive.Health.Snapshot.{set_state}

-- `switch candidate.Direction`.
settle : Direction → Decision → Input → Result Error Decision
settle Direction.failure decision input = ok (set_state decision State.down State.down input.now)
settle Direction.recovery decision input =
    ok (set_state decision State.healthy State.healthy input.now)
settle (Direction.other _) decision input = err Error.direction_unknown

complete_candidate : CandidateState → Candidate → Decision → Decision
complete_candidate state candidate decision = record decision {
  candidate_completed = some (record candidate { state = state });
}

resolve_candidate : Candidate → Decision → Input → Result Error Decision
unfolding settle complete_candidate
resolve_candidate candidate decision input =
    if evidence_eq decision.evidence candidate.expected_evidence
    then (do
      settled ← settle candidate.direction cleared input
      ok (complete_candidate CandidateState.confirmed candidate settled))
    else ok (
        complete_candidate CandidateState.contradicted candidate (
          set_state cleared decision.snapshot.stable_state decision.snapshot.stable_state
            input.now))
  where
    cleared : Decision
    cleared = record decision { snapshot = record (decision.snapshot) { candidate = none } }

confirm_candidate : Option Candidate → Decision → Input → Result Error Decision
unfolding resolve_candidate
confirm_candidate none decision input = ok decision
confirm_candidate (some candidate) decision input =
    if is_empty input.candidate_id
      || not (str_eq candidate.id input.candidate_id)
      || not (is_pending candidate.state)
    then ok decision
    else if not (eqb_ℤ candidate.source_revision_number input.revision_number)
    then ok decision
    else if not (is_determinate decision.evidence)
    then ok decision
    else resolve_candidate candidate decision input

unfoldable pub evaluate_confirmation : Decision → Input → Result Error Decision
unfolding confirm_candidate
evaluate_confirmation decision input = confirm_candidate decision.snapshot.candidate decision input

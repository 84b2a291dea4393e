-- ===== src/Health/Evaluate.antt =====
-- internal/health/health.go: `Evaluate` and `MarkStale`.
use probehive.Base.{
  Bool, true, false, not, ◌&&◌, ◌||◌, Option, none, some, Result, ok, ◌>>=◌, ◌>>◌, fail_if,
  if◌then◌else◌, is_empty, str_eq,
}
use probehive.Base.Int.{pos, ltb_ℤ, eqb_ℤ}
use probehive.Base.Time.{Time, is_zero, before}
use probehive.Health.Model.{
  State, Evidence, CandidateState, Kind, Candidate, Snapshot, Input, Decision, Error, is_pending,
  is_determinate,
}
use probehive.Health.Classify.{classify, counts_for}
use probehive.Health.Snapshot.{set_state, is_utc, no_counts, validate_snapshot}
use probehive.Health.Scheduled.{evaluate_scheduled}
use probehive.Health.Confirmation.{evaluate_confirmation}

-- `Decision{Snapshot: current, PreviousState: current.State}` with the evidence.
abbrev pub undecided : Snapshot → Evidence → Decision
undecided current evidence = record {
  snapshot = current;
  previous_state = current.state;
  evidence = evidence;
  late = false;
  superseded_revision = false;
  ignored_confirmation = false;
  candidate_created = none;
  candidate_completed = none;
  transitioned = false;
}

-- The candidate that a confirmation must name: pending, and of the same revision.
abbrev pub awaits : Option Candidate → Input → Bool
awaits none input = false
awaits (some candidate) input =
    not (is_empty input.candidate_id)
    && str_eq candidate.id input.candidate_id
    && is_pending candidate.state
    && eqb_ℤ candidate.source_revision_number input.revision_number

-- The fields of the snapshot that every counted Run sets.
record_run : Decision → Input → Decision
record_run decision input = record decision {
  snapshot = record (decision.snapshot) {
    source_revision_number = input.revision_number;
    last_run_id = input.run_id;
    last_run_scheduled_for = input.scheduled_for;
    counts = counts_for decision.evidence;
  };
}

-- A determinate Run must have finished.
record_finish : Decision → Input → Result Error Decision
record_finish decision input =
    if is_determinate decision.evidence
    then (do
      fail_if (is_zero input.finished_at) Error.finish_required
      ok (record decision {
        snapshot = record (decision.snapshot) { last_determinate_finished_at = input.finished_at };
      }))
    else ok decision

dispatch : Kind → Decision → Input → Result Error Decision
dispatch Kind.confirmation decision input = evaluate_confirmation decision input
dispatch Kind.scheduled decision input = evaluate_scheduled decision input
dispatch _ decision input = ok decision

count_run : Decision → Input → Result Error Decision
unfolding record_run record_finish dispatch
count_run decision input = do
  recorded ← record_finish (record_run decision input) input
  dispatch input.kind recorded input

-- What follows the tests on manual Runs and revisions, by the kind of the Run.
admit : Kind → Snapshot → Decision → Input → Result Error Decision
unfolding count_run
admit Kind.scheduled current decision input =
    if not (is_zero current.last_scheduled_for)
      && before input.scheduled_for current.last_scheduled_for
    then ok (record decision { late = true })
    else count_run
        (record decision {
          snapshot = record (decision.snapshot) { last_scheduled_for = input.scheduled_for };
        })
        input
admit Kind.confirmation current decision input =
    if not (awaits current.candidate input)
    then ok (record decision { ignored_confirmation = true })
    else count_run decision input
admit _ current decision input = count_run decision input

abbrev is_manual : Kind → Bool
is_manual Kind.manual = true
is_manual _ = false

-- `Evaluate` after its validation.
unfoldable pub decide : Snapshot → Input → Result Error Decision
unfolding admit
decide current input =
    if is_manual input.kind
    then ok decision
    else if not (eqb_ℤ input.revision_number input.latest_revision_number)
    then ok (record decision { superseded_revision = true })
    else admit input.kind current decision input
  where
    decision : Decision
    decision =
        undecided (record current { updated_at = input.now })
          (classify input.kind input.outcome input.failure_code)

unfoldable pub validate_input : Input → Result Error (Unit {0})
validate_input input = do
  fail_if
      (is_empty input.event_id
        || is_empty input.run_id
        || ltb_ℤ input.revision_number (pos 1)
        || ltb_ℤ input.latest_revision_number (pos 1))
      Error.evidence_identity_required
  fail_if
      (not (is_utc input.scheduled_for)
        || (not (is_zero input.finished_at) && not (is_utc input.finished_at))
        || not (is_utc input.now))
      Error.evidence_not_utc
  ok tt

unfoldable pub evaluate : Snapshot → Input → Result Error Decision
unfolding decide
evaluate current input = do validate_snapshot current; validate_input input; decide current input

-- The candidate that staleness ends.
abbrev staled : Option Candidate → Option Candidate
staled none = none
staled (some candidate) = some (record candidate { state = CandidateState.stale })

abbrev is_unknown : State → Bool
is_unknown State.unknown = true
is_unknown _ = false

unfoldable pub mark_stale : Snapshot → Time → Result Error Decision
mark_stale current now = do
  validate_snapshot current
  fail_if (not (is_utc now)) Error.timestamps_not_utc
  ok (
      if is_unknown current.state
      then undecided current Evidence.indeterminate
      else let decision =
          set_state
            (record (undecided (record current { candidate = none }) Evidence.indeterminate) {
              candidate_completed = staled current.candidate;
            })
            State.unknown State.unknown now in
        record decision {
          snapshot = record (decision.snapshot) {
            updated_at = now;
            counts = record no_counts { configured = 1; eligible = 1; missing = 1 };
          };
        })

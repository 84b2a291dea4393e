-- ===== src/Health/Examples.antt =====
-- Concrete Monitors and Runs: tests of internal/health/health.go's model, and the theorems about it
-- at inputs that meet their hypotheses.
use probehive.Base.{
  List, ℕ, none, some, [], ◌∷◌, Result, ok, err, ◌≡◌, ◌≢◌, ◌↔◌, ◌*◌, ◌+◌, inl, inr, refl,
}
use probehive.Base.Int.{pos, ◌+ℤ◌, wrap64}
use probehive.Base.Time.{Time, utc, second}
use probehive.Health.Service.{StaleTarget, SweepAnswers, ServiceError}
use probehive.Health.Model.{
  State, Evidence, Direction, CandidateState, Kind, Outcome, FailureCode, Policy, Candidate,
  Snapshot, Input, Decision, Error,
}
use probehive.Health.Classify.{classify, counts_for}
use probehive.Health.Snapshot.{no_counts, initial, validate_snapshot, set_state, next_version}
use probehive.Health.Scheduled.{evaluate_scheduled}
use probehive.Health.Confirmation.{evaluate_confirmation}
use probehive.Health.Evaluate.{undecided, evaluate, validate_input, mark_stale}
use probehive.Health.Invariant.{IsCoherent}
use probehive.Health.Safety.{
  Confirms, evidence_of, down_needs_confirmation, recovery_needs_confirmation,
}
use probehive.Health.Transitions.{IsComplete, Moves, evaluate-total}
use probehive.Health.History.{
  History, created, evaluated, Confirmed, History-IsCoherent, down-Confirmed,
}
use probehive.Health.Outcomes.{
  Agrees, Suspects, Settles, due_settles, due_suspicion, awaited-Settles,
}
use probehive.Health.Classification.{classify_iff, ShowsFailure}

-- Noon of 1 March 2026, and so many seconds later.
abbrev at_second : ℕ → Time
at_second n = record { instant = pos ((63908006400 + n) * second); location = utc }

abbrev watched : Snapshot
watched = record {
  organization_id = "org";
  monitor_id = "monitor";
  state = State.healthy;
  stable_state = State.healthy;
  policy_version = Policy.phase1_v1;
  version = pos 4;
  source_revision_number = pos 2;
  last_scheduled_for = at_second 0;
  last_determinate_finished_at = at_second 1;
  last_run_id = "run-1";
  last_run_scheduled_for = at_second 0;
  candidate = none;
  counts = no_counts;
  transitioned_at = at_second 0;
  updated_at = at_second 1;
}

abbrev failing_run : Input
failing_run = record {
  event_id = "event-2";
  run_id = "run-2";
  kind = Kind.scheduled;
  outcome = Outcome.failed;
  failure_code = FailureCode.status_unexpected;
  revision_number = pos 2;
  latest_revision_number = pos 2;
  scheduled_for = at_second 60;
  finished_at = at_second 61;
  candidate_id = "";
  now = at_second 62;
  new_candidate_id = "candidate-1";
}

abbrev passing_run : Input
passing_run = record failing_run { outcome = Outcome.passed; failure_code = FailureCode.empty }

abbrev confirming_run : Input
confirming_run = record failing_run {
  event_id = "event-3";
  run_id = "run-3";
  kind = Kind.confirmation;
  scheduled_for = at_second 63;
  finished_at = at_second 64;
  now = at_second 65;
  candidate_id = "candidate-1";
}

abbrev decision_or : Decision → Result Error Decision → Decision
decision_or d (ok e) = e
decision_or d (err e) = d

abbrev decision : Snapshot → Input → Decision
decision s input = decision_or (undecided s Evidence.indeterminate) (evaluate s input)

abbrev suspected : Candidate
suspected = record {
  id = "candidate-1";
  organization_id = "org";
  monitor_id = "monitor";
  source_revision_number = pos 2;
  direction = Direction.failure;
  expected_evidence = Evidence.failing;
  state = CandidateState.pending;
  triggering_run_id = "run-2";
  triggering_scheduled_for = at_second 60;
  triggering_event_id = "event-2";
  requested_at = at_second 62;
}

abbrev degraded : Snapshot
degraded = record watched { state = State.degraded; candidate = some suspected }

abbrev failed : Snapshot
failed = record watched {
  state = State.degraded;
  stable_state = State.down;
  candidate =
      some
        (record suspected { direction = Direction.recovery; expected_evidence = Evidence.passing });
}

abbrev recovering_run : Input
recovering_run = record confirming_run {
  outcome = Outcome.passed;
  failure_code = FailureCode.empty;
}

degraded-IsCoherent : IsCoherent degraded
degraded-IsCoherent = (refl, record { is_pending = refl; asks = inl (refl, refl, inr refl) })

failed-IsCoherent : IsCoherent failed
failed-IsCoherent = (refl, record { is_pending = refl; asks = inr (refl, refl, refl) })

watched-IsCoherent : IsCoherent watched
watched-IsCoherent = (refl, inr (inl refl))

confirming_run-IsComplete : IsComplete confirming_run
unfolding validate_input classify
confirming_run-IsComplete = record { valid = refl; identified = refl; finished = λ e. refl }

due_suspicion_example : Suspects watched failing_run (decision watched failing_run)
unfolding evaluate validate_snapshot validate_input classify evaluate_scheduled set_state
    next_version ◌+ℤ◌ wrap64 counts_for
due_suspicion_example =
    due_suspicion watched failing_run (decision watched failing_run) watched-IsCoherent
      (record { is_scheduled = refl; is_latest = refl; in_time = inr refl }) refl refl

due_settles_example : Agrees watched (decision watched passing_run)
unfolding evaluate validate_snapshot validate_input classify evaluate_scheduled set_state
    next_version ◌+ℤ◌ wrap64 counts_for
due_settles_example =
    due_settles watched passing_run (decision watched passing_run) watched-IsCoherent
      (record { is_scheduled = refl; is_latest = refl; in_time = inr refl }) refl refl

awaited-Settles_example :
    Settles degraded confirming_run suspected (decision degraded confirming_run)
unfolding evaluate validate_snapshot validate_input classify evaluate_confirmation set_state
    next_version ◌+ℤ◌ wrap64 counts_for
awaited-Settles_example =
    awaited-Settles degraded confirming_run (decision degraded confirming_run) suspected
      degraded-IsCoherent refl
      (record { is_confirmation = refl; is_latest = refl; is_awaited = refl }) refl refl

down_needs_confirmation_example :
    (c : Candidate) × (Confirms degraded confirming_run c
      × (c.direction ≡ Direction.failure)
      × (evidence_of confirming_run ≡ Evidence.failing)
      × ((decision degraded confirming_run).candidate_completed
          ≡ some (record c { state = CandidateState.confirmed })))
unfolding evaluate validate_snapshot validate_input classify evaluate_confirmation set_state
    next_version ◌+ℤ◌ wrap64 counts_for
down_needs_confirmation_example =
    down_needs_confirmation degraded confirming_run (decision degraded confirming_run)
      degraded-IsCoherent refl (λ e. cc) refl

recovery_needs_confirmation_example :
    (c : Candidate) × (Confirms failed recovering_run c
      × (c.direction ≡ Direction.recovery)
      × (evidence_of recovering_run ≡ Evidence.passing)
      × ((decision failed recovering_run).snapshot.state ≡ State.healthy)
      × ((decision failed recovering_run).candidate_completed
          ≡ some (record c { state = CandidateState.confirmed })))
unfolding evaluate validate_snapshot validate_input classify evaluate_confirmation set_state
    next_version ◌+ℤ◌ wrap64 counts_for
recovery_needs_confirmation_example =
    recovery_needs_confirmation failed recovering_run (decision failed recovering_run)
      failed-IsCoherent refl refl (λ e. cc)

evaluate-total_example :
    (d : Decision) × ((evaluate degraded confirming_run ≡ ok d)
      × IsCoherent d.snapshot
      × Moves degraded d)
unfolding validate_snapshot
evaluate-total_example =
    evaluate-total degraded confirming_run refl degraded-IsCoherent confirming_run-IsComplete

-- A Monitor from its creation to the first confirmed outage.
abbrev fresh : Snapshot
fresh = record watched {
  state = State.unknown;
  stable_state = State.unknown;
  version = pos 0;
  source_revision_number = pos 0;
  last_scheduled_for = record { instant = pos 0; location = utc };
  last_determinate_finished_at = record { instant = pos 0; location = utc };
  last_run_id = "";
  last_run_scheduled_for = record { instant = pos 0; location = utc };
  transitioned_at = at_second 0;
  updated_at = at_second 0;
}

outage :
    History
      (confirming_run ∷ failing_run ∷ [])
      (decision (decision fresh failing_run).snapshot confirming_run).snapshot
unfolding initial evaluate validate_snapshot validate_input classify evaluate_confirmation
    evaluate_scheduled set_state next_version ◌+ℤ◌ wrap64 counts_for
outage =
    evaluated confirming_run (decision (decision fresh failing_run).snapshot confirming_run)
      (evaluated failing_run (decision fresh failing_run)
        (created {s = fresh} "org" "monitor" (at_second 0) refl) refl)
      refl

History-IsCoherent_example :
    IsCoherent (decision (decision fresh failing_run).snapshot confirming_run).snapshot
History-IsCoherent_example = History-IsCoherent outage

down-Confirmed_example : Confirmed Evidence.failing (confirming_run ∷ failing_run ∷ [])
unfolding evaluate validate_snapshot validate_input classify evaluate_confirmation
    evaluate_scheduled set_state next_version ◌+ℤ◌ wrap64 counts_for
down-Confirmed_example = down-Confirmed outage (inl refl)

mark_stale_decision : Decision
mark_stale_decision =
    decision_or (undecided watched Evidence.passing) (mark_stale degraded (at_second 900))

classify_iff_example :
    ((classify Kind.scheduled Outcome.failed FailureCode.status_unexpected ≡ Evidence.passing) ↔ (
      (Kind.scheduled ≢ Kind.manual)
      × (Outcome.failed ≡ Outcome.passed)
      × (FailureCode.status_unexpected ≡ FailureCode.empty)))
    × ((classify Kind.scheduled Outcome.failed FailureCode.status_unexpected ≡ Evidence.failing) ↔ (
        (Kind.scheduled ≢ Kind.manual) × ShowsFailure Outcome.failed FailureCode.status_unexpected))
classify_iff_example = classify_iff Kind.scheduled Outcome.failed FailureCode.status_unexpected

-- Two stale Monitors; the second cannot be marked.
abbrev stale_target : StaleTarget
stale_target = record { organization_id = "org"; monitor_id = "monitor"; version = pos 4 }

abbrev sweep_ok : SweepAnswers
sweep_ok = record { transition_id = some "t"; event_id = some "e"; mark_health_stale = ok tt }

abbrev sweep_broken : SweepAnswers
sweep_broken = record sweep_ok { mark_health_stale = err ServiceError.store_failed }

abbrev swept : List (StaleTarget × SweepAnswers)
swept = (stale_target, sweep_ok) ∷ (stale_target, sweep_broken) ∷ []

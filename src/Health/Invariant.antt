-- ===== src/Health/Invariant.antt =====
-- The states that a Monitor's health can be in, under the operations of internal/health/health.go.
use probehive.Base.{Option, none, some, ok, ◌≡◌, ◌⊎◌, inl, inr, arith}
use probehive.Base.Time.{Time}
use probehive.Health.Model.{
  State, Evidence, Direction, CandidateState, Candidate, Snapshot, Input, Decision,
}
use probehive.Health.Classify.{classify, counts_for}
use probehive.Health.Snapshot.{set_state}
use probehive.Health.Scheduled.{evaluate_scheduled}
use probehive.Health.Confirmation.{evaluate_confirmation}
use probehive.Health.Evaluate.{undecided, decide, mark_stale}

abbrev pub IsStable : State → Type 0
IsStable state = (state ≡ State.unknown) ⊎ (state ≡ State.healthy) ⊎ (state ≡ State.down)

-- A candidate is pending, and asks to leave the stable state.
pub record Awaits (stable : State) (candidate : Candidate) : Type 0 where
  pub is_pending : candidate.state ≡ CandidateState.pending
  pub asks :
      ((candidate.direction ≡ Direction.failure)
        × (candidate.expected_evidence ≡ Evidence.failing)
        × ((stable ≡ State.unknown) ⊎ (stable ≡ State.healthy)))
      ⊎ ((candidate.direction ≡ Direction.recovery)
          × (candidate.expected_evidence ≡ Evidence.passing)
          × (stable ≡ State.down))

abbrev pub Coherent : State → State → Option Candidate → Type 0
Coherent state stable none = (state ≡ stable) × IsStable stable
Coherent state stable (some candidate) = (state ≡ State.degraded) × Awaits stable candidate

abbrev pub IsCoherent : Snapshot → Type 0
IsCoherent s = Coherent s.state s.stable_state s.candidate

evaluate_scheduled-IsCoherent :
    (d e : Decision) (input : Input)
    → IsCoherent d.snapshot
    → evaluate_scheduled d input ≡ ok e
    → IsCoherent e.snapshot
unfolding evaluate_scheduled set_state
evaluate_scheduled-IsCoherent d e input h eq = ground arith

evaluate_confirmation-IsCoherent :
    (d e : Decision) (input : Input)
    → IsCoherent d.snapshot
    → evaluate_confirmation d input ≡ ok e
    → IsCoherent e.snapshot
unfolding evaluate_confirmation set_state
evaluate_confirmation-IsCoherent d e input h eq = ground arith

-- The decision that a counted Run brings to the evaluation, with the two instants that it may set.
abbrev pub counted : Snapshot → Input → Time → Time → Decision
counted s input slot finished =
    let evidence = classify input.kind input.outcome input.failure_code in
    undecided
      (record s {
        updated_at = input.now;
        last_scheduled_for = slot;
        source_revision_number = input.revision_number;
        last_run_id = input.run_id;
        last_run_scheduled_for = input.scheduled_for;
        counts = counts_for evidence;
        last_determinate_finished_at = finished;
      })
      evidence

-- The part of a snapshot that coherence reads is as it was.
abbrev pub IsKept : Snapshot → Snapshot → Type 0
IsKept s t = (t.state ≡ s.state) × (t.stable_state ≡ s.stable_state) × (t.candidate ≡ s.candidate)

instants_of :
    (s : Snapshot) (input : Input) (d : Decision)
    → decide s input ≡ ok d
    → IsKept s d.snapshot
      ⊎ ((evaluate_scheduled
              (counted s input input.scheduled_for s.last_determinate_finished_at)
              input
            ≡ ok d)
          ⊎ (evaluate_scheduled (counted s input input.scheduled_for input.finished_at) input
              ≡ ok d))
      ⊎ ((evaluate_confirmation
              (counted s input s.last_scheduled_for s.last_determinate_finished_at)
              input
            ≡ ok d)
          ⊎ (evaluate_confirmation (counted s input s.last_scheduled_for input.finished_at) input
              ≡ ok d))
unfolding decide
instants_of s input d eq = ground arith

-- A decision comes from one of the two evaluations, or keeps the health.
pub decide_cases :
    (s : Snapshot) (input : Input) (d : Decision)
    → decide s input ≡ ok d
    → IsKept s d.snapshot
      ⊎ ((finished : Time) × (evaluate_scheduled
              (counted s input input.scheduled_for finished)
              input
            ≡ ok d))
      ⊎ ((finished : Time) × (evaluate_confirmation
              (counted s input s.last_scheduled_for finished)
              input
            ≡ ok d))
decide_cases s input d eq = elim (instants_of s input d eq) [
  | inl k ↦ inl k
  | inr (inl (inl e)) ↦ inr (inl (s.last_determinate_finished_at, e))
  | inr (inl (inr e)) ↦ inr (inl (input.finished_at, e))
  | inr (inr (inl e)) ↦ inr (inr (s.last_determinate_finished_at, e))
  | inr (inr (inr e)) ↦ inr (inr (input.finished_at, e))
]

IsKept-IsCoherent : (s t : Snapshot) → IsKept s t → IsCoherent s → IsCoherent t
IsKept-IsCoherent s t k h = rw (k.0, k.1, k.2) h

-- Every Run keeps the health coherent, on every branch of the evaluation.
pub decide-IsCoherent :
    (s : Snapshot) (input : Input) (d : Decision)
    → IsCoherent s
    → decide s input ≡ ok d
    → IsCoherent d.snapshot
decide-IsCoherent s input d h eq = elim (decide_cases s input d eq) [
  | inl k ↦ IsKept-IsCoherent s d.snapshot k h
  | inr (inl (finished, e)) ↦
      evaluate_scheduled-IsCoherent (counted s input input.scheduled_for finished) d input h e
  | inr (inr (finished, e)) ↦
      evaluate_confirmation-IsCoherent (counted s input s.last_scheduled_for finished) d input h e
]

pub mark_stale-IsCoherent :
    (s : Snapshot) (now : Time) (d : Decision)
    → IsCoherent s
    → mark_stale s now ≡ ok d
    → IsCoherent d.snapshot
unfolding mark_stale set_state
mark_stale-IsCoherent s now d h eq = ground arith

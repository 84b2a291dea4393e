-- ===== src/Health/Safety.antt =====
-- What a transition of evaluated health needs: the guards of `Evaluate` in
-- internal/health/health.go, read backwards from the state that they protect.
use probehive.Base.{none, some, ok, ◌≡◌, ◌≢◌, ◌⊎◌, inl, inr, arith, str_eq_iff, Option-cases}
use probehive.Health.Model.{
  State, Evidence, Direction, CandidateState, Kind, Candidate, Snapshot, Input, Decision,
}
use probehive.Health.Classify.{classify}
use probehive.Health.Snapshot.{set_state, validate_snapshot}
use probehive.Health.Scheduled.{evaluate_scheduled}
use probehive.Health.Confirmation.{evaluate_confirmation}
use probehive.Health.Evaluate.{decide, evaluate, validate_input}
use probehive.Health.Invariant.{IsCoherent}

abbrev pub evidence_of : Input → Evidence
evidence_of input = classify input.kind input.outcome input.failure_code

-- The Run confirms the candidate that the snapshot holds, by the evidence that it expects.
pub record Confirms (s : Snapshot) (input : Input) (candidate : Candidate) : Type 0 where
  pub held : s.candidate ≡ some candidate
  pub named : candidate.id ≡ input.candidate_id
  pub pending : candidate.state ≡ CandidateState.pending
  pub same_revision : candidate.source_revision_number ≡ input.revision_number
  pub is_confirmation : input.kind ≡ Kind.confirmation
  pub is_expected : evidence_of input ≡ candidate.expected_evidence

-- A successful evaluation has passed its validation.
pub evaluate-decide :
    (s : Snapshot) (input : Input) (d : Decision)
    → evaluate s input ≡ ok d
    → (validate_snapshot s ≡ ok tt) × (validate_input input ≡ ok tt) × (decide s input ≡ ok d)
unfolding evaluate
evaluate-decide s input d eq = ground arith

module _ (s : Snapshot) (input : Input) (d : Decision) (coherent : IsCoherent s)
    (decided : decide s input ≡ ok d) where
  -- Without a candidate no Run changes a stable `healthy` or `down`.
  no_candidate_stays :
      s.candidate ≡ none
      → (d.snapshot.stable_state ≡ s.stable_state)
        ⊎ ((s.stable_state ≡ State.unknown) × (d.snapshot.stable_state ≡ State.healthy))
  unfolding decide evaluate_scheduled evaluate_confirmation set_state
  no_candidate_stays e = ground arith

  confirmed_down :
      (c : Candidate)
      → s.candidate ≡ some c
      → d.snapshot.stable_state ≡ State.down
      → s.stable_state ≢ State.down
      → Confirms s input c
        × (c.direction ≡ Direction.failure)
        × (evidence_of input ≡ Evidence.failing)
        × (d.candidate_completed ≡ some (record c { state = CandidateState.confirmed }))
  unfolding decide evaluate_scheduled evaluate_confirmation set_state
  confirmed_down c e to from = ground (arith, str_eq_iff c.id input.candidate_id)

  confirmed_up :
      (c : Candidate)
      → s.candidate ≡ some c
      → s.stable_state ≡ State.down
      → d.snapshot.stable_state ≢ State.down
      → Confirms s input c
        × (c.direction ≡ Direction.recovery)
        × (evidence_of input ≡ Evidence.passing)
        × (d.snapshot.state ≡ State.healthy)
        × (d.candidate_completed ≡ some (record c { state = CandidateState.confirmed }))
  unfolding decide evaluate_scheduled evaluate_confirmation set_state
  confirmed_up c e from to = ground (arith, str_eq_iff c.id input.candidate_id)

-- A Monitor whose stable health was not `down` becomes `down` only by a confirmation Run with
-- failing evidence that names the pending failure candidate of the same revision; the candidate
-- is then completed as confirmed.
pub down_needs_confirmation :
    (s : Snapshot) (input : Input) (d : Decision)
    → IsCoherent s
    → evaluate s input ≡ ok d
    → s.stable_state ≢ State.down
    → d.snapshot.stable_state ≡ State.down
    → (c : Candidate) × (Confirms s input c
        × (c.direction ≡ Direction.failure)
        × (evidence_of input ≡ Evidence.failing)
        × (d.candidate_completed ≡ some (record c { state = CandidateState.confirmed })))
down_needs_confirmation s input d h eq from to =
    let decided = (evaluate-decide s input d eq).2 in
    elim (Option-cases s.candidate) [
      | inl e ↦ absurd (from (ground (arith, no_candidate_stays s input d h decided e)))
      | inr (c, e) ↦ (c, confirmed_down s input d h decided c e to from)
    ]

-- A Monitor whose stable health was `down` leaves it by an evaluated Run only through a
-- confirmation Run with passing evidence that names the pending recovery candidate of the same
-- revision; it is then `healthy` and the candidate is completed as confirmed.
pub recovery_needs_confirmation :
    (s : Snapshot) (input : Input) (d : Decision)
    → IsCoherent s
    → evaluate s input ≡ ok d
    → s.stable_state ≡ State.down
    → d.snapshot.stable_state ≢ State.down
    → (c : Candidate) × (Confirms s input c
        × (c.direction ≡ Direction.recovery)
        × (evidence_of input ≡ Evidence.passing)
        × (d.snapshot.state ≡ State.healthy)
        × (d.candidate_completed ≡ some (record c { state = CandidateState.confirmed })))
recovery_needs_confirmation s input d h eq from to =
    let decided = (evaluate-decide s input d eq).2 in
    elim (Option-cases s.candidate) [
      | inl e ↦ absurd (to (ground (arith, no_candidate_stays s input d h decided e)))
      | inr (c, e) ↦ (c, confirmed_up s input d h decided c e from to)
    ]

-- ===== src/Health/Transitions.antt =====
-- What one evaluation in internal/health/health.go writes besides the state: the version and the
-- candidates.
use probehive.Base.{
  Option, none, some, Result, ok, err, ◌≡◌, ◌≢◌, ◌⊎◌, inl, inr, arith, true, false, Option-cases,
  Result-cases, is_empty,
}
use probehive.Base.Int.{eqb_ℤ}
use probehive.Base.Time.{Time, is_zero, before}
use probehive.Health.Model.{
  CandidateState, Kind, Candidate, Snapshot, Input, Decision, Error, state_eq, is_determinate,
}
use probehive.Health.Snapshot.{set_state, validate_snapshot, next_version}
use probehive.Health.Scheduled.{evaluate_scheduled}
use probehive.Health.Confirmation.{evaluate_confirmation}
use probehive.Health.Evaluate.{decide, evaluate, validate_input, mark_stale, awaits}
use probehive.Health.Invariant.{IsCoherent, decide-IsCoherent}
use probehive.Health.Safety.{evidence_of, evaluate-decide}

-- The snapshot moved to another state in one versioned step, or kept state and version.
abbrev pub Moves : Snapshot → Decision → Type 0
Moves s d =
    ((d.transitioned ≡ true)
      × (state_eq s.state d.snapshot.state ≡ false)
      × (d.snapshot.version ≡ next_version s.version))
    ⊎ ((d.transitioned ≡ false)
        × (d.snapshot.state ≡ s.state)
        × (d.snapshot.version ≡ s.version)
        × (d.snapshot.transitioned_at ≡ s.transitioned_at))

decide-Moves :
    (s : Snapshot) (input : Input) (d : Decision) → IsCoherent s → decide s input ≡ ok d → Moves s d
unfolding decide evaluate_scheduled evaluate_confirmation set_state
decide-Moves s input d h eq = ground arith

mark_stale-Moves :
    (s : Snapshot) (now : Time) (d : Decision) → IsCoherent s → mark_stale s now ≡ ok d → Moves s d
unfolding mark_stale set_state
mark_stale-Moves s now d h eq = ground arith

-- A Run that is manual, of an old revision, late, or a confirmation that no candidate awaits.
abbrev pub IsUncounted : Snapshot → Input → Type 0
IsUncounted s input =
    (input.kind ≡ Kind.manual)
    ⊎ (eqb_ℤ input.revision_number input.latest_revision_number ≡ false)
    ⊎ ((input.kind ≡ Kind.scheduled)
        × (is_zero s.last_scheduled_for ≡ false)
        × (before input.scheduled_for s.last_scheduled_for ≡ true))
    ⊎ ((input.kind ≡ Kind.confirmation) × (awaits s.candidate input ≡ false))

uncounted :
    (s : Snapshot) (input : Input)
    → IsUncounted s input
    → (d : Decision) → decide s input ≡ ok d
    → (d.snapshot ≡ record s { updated_at = input.now })
      × (d.transitioned ≡ false)
      × (d.candidate_created ≡ none)
      × (d.candidate_completed ≡ none)
unfolding decide
uncounted s input h d eq = ground arith

-- How an evaluation may end a candidate.
abbrev pub IsFinal : CandidateState → Type 0
IsFinal state =
    (state ≡ CandidateState.superseded)
    ⊎ (state ≡ CandidateState.confirmed)
    ⊎ (state ≡ CandidateState.contradicted)

-- A candidate held before is kept, or handed out once under a final state and held no more.
abbrev pub Ends : Option Candidate → Decision → Type 0
Ends none d = d.candidate_completed ≡ none
Ends (some c) d =
    ((d.snapshot.candidate ≡ some c)
      × (d.candidate_completed ≡ none)
      × (d.candidate_created ≡ none))
    ⊎ ((k : Candidate) × ((d.candidate_completed ≡ some k)
          × (k ≡ record c { state = k.state })
          × IsFinal k.state
          × (d.snapshot.candidate ≡ d.candidate_created)))

ends_none :
    (s : Snapshot) (input : Input) (d : Decision)
    → IsCoherent s
    → s.candidate ≡ none
    → decide s input ≡ ok d
    → (d.candidate_completed ≡ none) × (d.snapshot.candidate ≡ d.candidate_created)
unfolding decide evaluate_scheduled evaluate_confirmation set_state
ends_none s input d h e eq = ground arith

abbrev or_else : Option Candidate → Candidate → Candidate
or_else none c = c
or_else (some k) c = k

ends_some :
    (s : Snapshot) (input : Input) (d : Decision) (c : Candidate)
    → IsCoherent s
    → s.candidate ≡ some c
    → decide s input ≡ ok d
    → ((d.snapshot.candidate ≡ some c)
        × (d.candidate_completed ≡ none)
        × (d.candidate_created ≡ none))
      ⊎ ((d.candidate_completed ≡ some (or_else d.candidate_completed c))
          × (or_else d.candidate_completed c
              ≡ record c { state = (or_else d.candidate_completed c).state })
          × IsFinal (or_else d.candidate_completed c).state
          × (d.snapshot.candidate ≡ d.candidate_created))
unfolding decide evaluate_scheduled evaluate_confirmation set_state
ends_some s input d c h e eq = ground arith

-- A Run that is not refused: its inputs are complete, and a determinate one has finished.
pub record IsComplete (input : Input) : Type 0 where
  pub valid : validate_input input ≡ ok tt
  pub identified : is_empty input.new_candidate_id ≡ false
  pub finished : is_determinate (evidence_of input) ≡ true → is_zero input.finished_at ≡ false

decide-ne-err :
    (s : Snapshot) (input : Input) (e : Error)
    → IsCoherent s
    → IsComplete input
    → decide s input ≢ err e
unfolding decide evaluate_scheduled evaluate_confirmation set_state
decide-ne-err s input e h c eq = ground arith

module _ (s : Snapshot) (input : Input) (valid : validate_snapshot s ≡ ok tt) where
  evaluate-of-decide :
      (r : Result Error Decision)
      → validate_input input ≡ ok tt
      → decide s input ≡ r
      → evaluate s input ≡ r
  unfolding evaluate
  evaluate-of-decide r v eq = rw (valid, v) eq

  -- From a coherent valid snapshot every complete Run is evaluated without an error, and the
  -- result is coherent; it either moves to another state, with the version counted on and the
  -- transition reported, or keeps state, version and transition instant.
  pub evaluate-total :
      IsCoherent s
      → IsComplete input
      → (d : Decision) × ((evaluate s input ≡ ok d) × IsCoherent d.snapshot × Moves s d)
  evaluate-total h c = elim (Result-cases (decide s input)) [
    | inl (d, eq) ↦ (
      d,
      (
        evaluate-of-decide (ok d) c.valid eq,
        decide-IsCoherent s input d h eq,
        decide-Moves s input d h eq,
      ),
    )
    | inr (e, eq) ↦ absurd (decide-ne-err s input e h c eq)
  ]

  uncounted-ne-err : (e : Error) → IsUncounted s input → decide s input ≢ err e
  unfolding decide
  uncounted-ne-err e u eq = ground arith

  -- A valid Run that is manual, of a superseded revision, scheduled before the last counted
  -- slot, or a confirmation that no pending candidate awaits, is evaluated without an error and
  -- leaves the snapshot as it was, but for the instant of the update; no candidate starts or ends.
  pub evaluate_uncounted :
      validate_input input ≡ ok tt
      → IsUncounted s input
      → (d : Decision) × ((evaluate s input ≡ ok d)
          × (d.snapshot ≡ record s { updated_at = input.now })
          × (d.transitioned ≡ false)
          × (d.candidate_created ≡ none)
          × (d.candidate_completed ≡ none))
  evaluate_uncounted v u = elim (Result-cases (decide s input)) [
    | inl (d, eq) ↦ (
      d,
      (
        evaluate-of-decide (ok d) v eq,
        (uncounted s input u d eq).0,
        (uncounted s input u d eq).1,
        (uncounted s input u d eq).2,
        (uncounted s input u d eq).3,
      ),
    )
    | inr (e, eq) ↦ absurd (uncounted-ne-err e u eq)
  ]

-- An evaluation of a coherent snapshot keeps its candidate, or completes it once, under a final
-- state and otherwise unchanged; the snapshot then holds the candidate that the evaluation
-- created, if any. Without a candidate nothing is completed.
pub evaluate-Ends :
    (s : Snapshot) (input : Input) (d : Decision)
    → IsCoherent s
    → evaluate s input ≡ ok d
    → ((s.candidate ≡ none)
        × (d.candidate_completed ≡ none)
        × (d.snapshot.candidate ≡ d.candidate_created))
      ⊎ ((c : Candidate) × ((s.candidate ≡ some c) × Ends (some c) d))
evaluate-Ends s input d h eq =
    let decided = (evaluate-decide s input d eq).2 in
    elim (Option-cases s.candidate) [
      | inl e ↦ inl (e, (ends_none s input d h e decided).0, (ends_none s input d h e decided).1)
      | inr (c, e) ↦ inr (
        c,
        (
          e,
          elim (ends_some s input d c h e decided) [
            | inl kept ↦ inl kept
            | inr ended ↦ inr (or_else d.candidate_completed c, ended)
          ],
        ),
      )
    ]

-- ===== src/Run/Confirmed.antt =====
-- When internal/run/confirmation.go returns nil, whatever the collaborators answer: the outbox then
-- forgets the request.
use probehive.Base.{
  String, false, not, Option, none, some, List, [], ◌∷◌, Result, ok, err, ◌≡◌, ◌⊎◌, inl, inr, refl,
  sym, ◌∙◌, ap, subst, arith, Result-cases, Option-cases, Bool-cases,
}
use probehive.Base.Time.{Time, Duration, to_utc}
use probehive.Run.Model.{Kind, Outcome, Error, Run, is_in_flight}
use probehive.Run.Lifecycle.{claim_confirmation, complete}
use probehive.Run.Observation.{filed_under}
use probehive.Run.Events.{Json, OutboxEntry, new_run_recorded_entry}
use probehive.Run.Scheduler.{StoreError, StoreCall, claims, completes}
use probehive.Run.Confirming.{
  ConfirmationRequest, ConfirmationAnswers, Executed, proposed_confirmation, after_held,
  completion_result, record_confirmation, execute_confirmation, claimed_confirmation, claim_request,
  valid_request, execute_request,
}

-- A Run in flight that confirms the request: in the slot of its target and of the instant that it
-- names, for the candidate and the causes that it names.
abbrev pub ClaimFor : ConfirmationRequest → Run → Type 0
ClaimFor request p =
    (p.kind ≡ Kind.confirmation)
    × (p.outcome ≡ Outcome.in_flight)
    × (p.slot ≡ record {
      organization_id = request.organization_id;
      monitor_id = request.monitor_id;
      revision_number = request.revision_number;
      location = request.location;
      scheduled_for = request.requested_for;
    })
    × (p.confirmation
        ≡ some (record {
          candidate_id = request.candidate_id;
          triggering_run_id = request.triggering_run_id;
          triggering_scheduled_for = request.triggering_scheduled_for;
          causation_event_id = request.event_id;
          policy_version = request.policy_version;
        }))

proposed-ClaimFor :
    (ceiling : Duration) (request : ConfirmationRequest) (now : Time) (id holder : String) (p : Run)
    → proposed_confirmation ceiling request now id holder ≡ ok p
    → ClaimFor request p
unfolding claim_confirmation
proposed-ClaimFor ceiling request now id holder p e = ground arith

module _ (answers : ConfirmationAnswers) (request : ConfirmationRequest) where
  -- The Run of the request was granted, executed and recorded under its lease.
  abbrev pub Recorded : List StoreCall → Type 0
  Recorded calls =
      (p : Run) × ((taken : Run) × ((c : Run) × ((entry : OutboxEntry) × (ClaimFor request p
              × (answers.claim_slot p ≡ ok taken)
              × (complete taken answers.execution.outcome (to_utc answers.execution.started_at)
                    (to_utc answers.execution.finished_at)
                  ≡ ok c)
              × (answers.complete c taken.lease_holder ≡ ok tt)
              × (calls
                  ≡ claims p
                    ∷ completes c taken.lease_holder (filed_under c answers.execution.observation)
                        (entry ∷ [])
                    ∷ [])))))

  -- The slot of the request is held, and the Run that `FindConfirmation` answers is recorded.
  abbrev pub Known : List StoreCall → Type 0
  Known calls =
      (p : Run) × ((r : Run) × (ClaimFor request p
          × (answers.claim_slot p ≡ err StoreError.slot_held)
          × (answers.existing ≡ ok (some r))
          × (is_in_flight r.outcome ≡ false)
          × (calls ≡ claims p ∷ [])))

module _ (json : Json) (ceiling : Duration) (answers : ConfirmationAnswers)
    (request : ConfirmationRequest) (now : Time) where
  abbrev Completed : Run → Run → Executed → Type 0
  Completed taken completed t =
      (entry : OutboxEntry) × ((answers.complete completed taken.lease_holder ≡ ok tt)
        × (t.0
            ≡ completes completed taken.lease_holder
                (filed_under completed answers.execution.observation) (entry ∷ [])
              ∷ []))

  completion_ok : (r : Result StoreError (Unit {0})) → completion_result r ≡ ok tt → r ≡ ok tt
  completion_ok r e = ground arith

  record-Completed :
      (taken completed : Run)
      → (record_confirmation json answers taken completed).1 ≡ ok tt
      → Completed taken completed (record_confirmation json answers taken completed)
  unfolding record_confirmation
  record-Completed taken completed e = elim (Option-cases answers.event_id) [
    | inl i ↦ absurd (cc (rw (record_confirmation, i) at e))
    | inr (id, i) ↦
        elim (Result-cases (new_run_recorded_entry json id completed completed.finished_at)) [
          | inr (x, n) ↦ absurd (cc (rw (record_confirmation, i, n) at e))
          | inl (entry, n) ↦ (
            entry,
            (
              completion_ok (answers.complete completed taken.lease_holder)
                  (rw (record_confirmation, i, n) at e),
              ap (λ (t : Executed). t.0) (made completed taken id entry i n),
            ),
          )
        ]
  ]
    where
      made :
          (completed taken : Run) (id : String) (entry : OutboxEntry)
          → answers.event_id ≡ some id
          → new_run_recorded_entry json id completed completed.finished_at ≡ ok entry
          → record_confirmation json answers taken completed ≡ (
            completes completed taken.lease_holder
                  (filed_under completed answers.execution.observation)
                  (entry ∷ [])
                ∷ [],
            completion_result (answers.complete completed taken.lease_holder),
          )
      made completed taken id entry i n = rw (record_confirmation, i, n) refl

  abbrev report : Run → Result Error Run
  report taken =
      complete taken answers.execution.outcome (to_utc answers.execution.started_at)
        (to_utc answers.execution.finished_at)

  executed-Completed :
      (taken : Run)
      → (execute_confirmation json answers taken).1 ≡ ok tt
      → (c : Run) × ((report taken ≡ ok c)
          × Completed taken c (execute_confirmation json answers taken))
  unfolding execute_confirmation
  executed-Completed taken e = elim (Bool-cases answers.stopped) [
    | inl s ↦ absurd (cc (rw (execute_confirmation, s) at e))
    | inr s ↦ elim (Result-cases (report taken)) [
      | inr (x, r) ↦ absurd (cc (rw (execute_confirmation, s, r) at e))
      | inl (c, r) ↦
          let same : execute_confirmation json answers taken
              ≡ record_confirmation json answers taken c =
            simp (execute_confirmation, s, r) refl in
          (
            c,
            (
              r,
              subst (Completed taken c) (sym same)
                  (record-Completed taken c (sym (ap (λ (t : Executed). t.1) same) ∙ e)),
            ),
          )
    ]
  ]

  abbrev Settled : List StoreCall → Type 0
  Settled calls = Known answers request calls ⊎ Recorded answers request calls

  held_known :
      (x : Result StoreError (Option Run))
      → after_held x ≡ ok tt
      → (r : Run) × ((x ≡ ok (some r)) × (is_in_flight r.outcome ≡ false))
  held_known (err y) e = absurd (cc e)
  held_known (ok none) e = absurd (cc e)
  held_known (ok (some r)) e = (r, (refl, ground arith))

  claimed-Settled :
      (p : Run) (claimed : Result StoreError Run)
      → ClaimFor request p
      → answers.claim_slot p ≡ claimed
      → (claimed_confirmation json answers p claimed).1 ≡ ok tt
      → Settled (claimed_confirmation json answers p claimed).0
  unfolding claimed_confirmation
  claimed-Settled p (err StoreError.slot_held) k g e =
      let (r, (known, over)) = held_known answers.existing e in
      inl (p, (r, (k, g, known, over, refl)))
  claimed-Settled p (err StoreError.lease_lost) k g e = absurd (cc e)
  claimed-Settled p (err StoreError.failed) k g e = absurd (cc e)
  claimed-Settled p (ok taken) k g e =
      let (c, (r, (entry, (done, calls)))) = executed-Completed taken e in
      inr (p, (taken, (c, (entry, (k, g, r, done, ap (λ cs. claims p ∷ cs) calls)))))

  request-Settled :
      (at : Time)
      → (claim_request json ceiling answers request at).1 ≡ ok tt
      → Settled (claim_request json ceiling answers request at).0
  unfolding claim_request
  request-Settled at e = elim (Option-cases answers.holder) [
    | inl h ↦ absurd (cc (rw (claim_request, h) at e))
    | inr (holder, h) ↦ elim (Option-cases answers.run_id) [
      | inl i ↦ absurd (cc (rw (claim_request, h, i) at e))
      | inr (id, i) ↦ elim (Result-cases (proposed_confirmation ceiling request at id holder)) [
        | inr (x, c) ↦ absurd (cc (rw (claim_request, h, i, c) at e))
        | inl (p, c) ↦
            let same : claim_request json ceiling answers request at
                ≡ claimed_confirmation json answers p (answers.claim_slot p) =
              simp (claim_request, h, i, c) refl in
            subst (λ (t : Executed). Settled t.0) (sym same)
              (claimed-Settled p (answers.claim_slot p)
                (proposed-ClaimFor ceiling request at id holder p c) refl
                (sym (ap (λ (t : Executed). t.1) same) ∙ e))
      ]
    ]
  ]

  -- `Execute` returns nil only if the target of the request is not eligible any more, without a
  -- call; or after one claim of a confirming Run in the slot and for the candidate that the request
  -- names. This claim found the slot held, and `FindConfirmation` answers a Run that is not in flight
  -- any more; or it was granted, the granted Run was completed with the executor's report, and the
  -- store recorded it under its lease.
  pub execute_request-Settles :
      (execute_request json ceiling answers request now).1 ≡ ok tt
      → ((answers.target ≡ ok false) × ((execute_request json ceiling answers request now).0 ≡ []))
        ⊎ Known answers request (execute_request json ceiling answers request now).0
        ⊎ Recorded answers request (execute_request json ceiling answers request now).0
  unfolding execute_request
  execute_request-Settles e = elim (Bool-cases (not (valid_request request))) [
    | inl v ↦ absurd (cc (rw (execute_request, v) at e))
    | inr v ↦ elim (Result-cases answers.target) [
      | inr (x, t) ↦ absurd (cc (rw (execute_request, v, t) at e))
      | inl (eligible, t) ↦ elim (Bool-cases (not eligible)) [
        | inl n ↦ inl (t ∙ ap ok (ground arith), simp (execute_request, v, t, n) refl)
        | inr n ↦ elim (Bool-cases (not answers.acquired)) [
          | inl a ↦ absurd (cc (rw (execute_request, v, t, n, a) at e))
          | inr a ↦
              let same : execute_request json ceiling answers request now
                  ≡ claim_request json ceiling answers request (to_utc now) =
                simp (execute_request, v, t, n, a) refl in
              subst
                (λ (s : Executed).
                  ((answers.target ≡ ok false) × (s.0 ≡ []))
                  ⊎ Known answers request s.0
                  ⊎ Recorded answers request s.0)
                (sym same)
                (inr (request-Settled (to_utc now) (sym (ap (λ (s : Executed). s.1) same) ∙ e)))
        ]
      ]
    ]
  ]

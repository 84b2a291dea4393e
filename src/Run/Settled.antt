-- ===== src/Run/Settled.antt =====
-- What internal/run/manual.go may do with a Run that a person asked for, and that it does so once the
-- Run is claimed, whatever the collaborators answer.
use probehive.Base.{
  subst, String, true, false, none, some, List, [], ◌∷◌, Result, ok, err, ◌≡◌, ◌⊎◌, inl, inr, refl,
  sym, Result-cases, Option-cases, Bool-cases,
}
use probehive.Base.Time.{Time, to_utc}
use probehive.Run.Model.{Kind, Outcome, Error, Run}
use probehive.Run.Lifecycle.{complete}
use probehive.Run.Observation.{Observation, filed_under}
use probehive.Run.Schedule.{Schedulable}
use probehive.Run.Events.{Json, OutboxEntry, EntryError, new_run_recorded_entry}
use probehive.Run.Scheduler.{StoreError, StoreCall, claims, releases, completes}
use probehive.Run.Manual.{
  ManualError, ManualConfig, ManualAnswers, Triggered, given_back, stored, record_manual,
  execute_manual,
}

-- A manual Run in flight, at the revision and the instant that the request is for.
abbrev pub ManualClaim : ManualConfig → ManualAnswers → Time → Run → Type 0
ManualClaim config answers now p =
    (p.kind ≡ Kind.manual)
    × (p.outcome ≡ Outcome.in_flight)
    × ((target : Schedulable) × ((answers.target ≡ ok (some target))
          × (p.slot ≡ record {
            organization_id = target.organization_id;
            monitor_id = target.monitor_id;
            revision_number = target.revision_number;
            location = config.location;
            scheduled_for = to_utc now;
          })))

module _ (json : Json) (answers : ManualAnswers) where
  -- The Run as the executor's report completes it.
  abbrev pub report : Run → Result Error Run
  report taken =
      complete taken answers.execution.outcome (to_utc answers.execution.started_at)
        (to_utc answers.execution.finished_at)

  -- A completed Run is the granted one with the executor's report, under its lease and with its
  -- observation.
  abbrev pub Completes : Run → Run → String → Observation → Type 0
  Completes taken c holder o =
      (report taken ≡ ok c)
      × (holder ≡ taken.lease_holder)
      × (o ≡ filed_under c answers.execution.observation)

  -- Nothing can be recorded: the scheduler stops, the report does not complete the Run, or its event
  -- cannot be made.
  abbrev pub Unrecordable : Run → Type 0
  Unrecordable taken =
      (answers.stopped ≡ true)
      ⊎ ((e : Error) × (report taken ≡ err e))
      ⊎ (answers.event_id ≡ none)
      ⊎ ((c : Run) × ((id : String) × ((e : EntryError) × ((report taken ≡ ok c)
                × (new_run_recorded_entry json id c c.finished_at ≡ err e)))))

  -- After the claim: the Run is recorded and returned, or it is given back at last and an error is
  -- returned.
  abbrev pub Settles : Run → List StoreCall → Result ManualError Run → Type 0
  Settles taken (releases r ∷ []) result =
      Unrecordable taken × (r ≡ taken) × (result ≡ err ManualError.failed)
  Settles taken (completes c holder o entries ∷ []) result =
      Completes taken c holder o
      × (answers.stopped ≡ false)
      × (answers.complete c holder ≡ ok tt)
      × (result ≡ ok c)
  Settles taken (completes c holder o entries ∷ releases r ∷ []) result =
      Completes taken c holder o
      × (answers.stopped ≡ false)
      × ((e : StoreError) × (answers.complete c holder ≡ err e))
      × (r ≡ taken)
      × (result ≡ err ManualError.failed)
  Settles taken calls result = ⊥

  module _ (config : ManualConfig) (now : Time) where
    abbrev pub Requests : List StoreCall → Result ManualError Run → Type 0
    Requests [] result = (e : ManualError) × (result ≡ err e)
    Requests (claims p ∷ []) result =
        ManualClaim config answers now p
        × ((e : StoreError) × (answers.claim_slot p ≡ err e))
        × (result ≡ err ManualError.failed)
    Requests (claims p ∷ call ∷ calls) result =
        ManualClaim config answers now p
        × ((taken : Run) × ((answers.claim_slot p ≡ ok taken)
              × Settles taken (call ∷ calls) result))
    Requests (call ∷ calls) result = ⊥

  stored-Settles :
      (taken c : Run) (holder : String) (o : Observation) (entries : List OutboxEntry)
      (r : Result StoreError (Unit {0}))
      → Completes taken c holder o
      → answers.stopped ≡ false
      → answers.complete c holder ≡ r
      → Settles taken
          (stored taken c (completes c holder o entries) r).0
          (stored taken c (completes c holder o entries) r).1
  stored-Settles taken c holder o entries (ok t) m s e = (m, s, e, refl)
  stored-Settles taken c holder o entries (err x) m s e = (m, s, (x, e), refl, refl)

  abbrev Settled : Run → Triggered → Type 0
  Settled taken t = Settles taken t.0 t.1

  record_manual-Settles :
      (taken completed : Run)
      → report taken ≡ ok completed
      → answers.stopped ≡ false
      → Settled taken (record_manual json answers taken completed)
  unfolding record_manual
  record_manual-Settles taken completed c s = elim (Option-cases answers.event_id) [
    | inl i ↦
        let given : record_manual json answers taken completed ≡ given_back taken =
          simp (record_manual, i) refl in
        subst (Settled taken) (sym given) (inr (inr (inl i)), refl, refl)
    | inr (id, i) ↦
        elim (Result-cases (new_run_recorded_entry json id completed completed.finished_at)) [
          | inr (x, n) ↦
              let given : record_manual json answers taken completed ≡ given_back taken =
                simp (record_manual, i, n) refl in
              subst (Settled taken) (sym given)
                (inr (inr (inr (completed, (id, (x, (c, n)))))), refl, refl)
          | inl (entry, n) ↦
              let o = filed_under completed answers.execution.observation in
              let call = completes completed taken.lease_holder o (entry ∷ []) in
              let r = answers.complete completed taken.lease_holder in
              let asked : record_manual json answers taken completed
                  ≡ stored taken completed call r =
                simp (record_manual, i, n) refl in
              subst (Settled taken) (sym asked) (
                stored-Settles taken completed taken.lease_holder o (entry ∷ []) r (c, refl, refl) s
                  refl)
        ]
  ]

  execute_manual_cases :
      (taken : Run)
      → ((execute_manual json answers taken ≡ given_back taken) × Unrecordable taken)
        ⊎ ((completed : Run) × ((report taken ≡ ok completed)
              × (answers.stopped ≡ false)
              × (execute_manual json answers taken ≡ record_manual json answers taken completed)))
  unfolding execute_manual
  execute_manual_cases taken = elim (Bool-cases answers.stopped) [
    | inl s ↦ inl (rw s refl, inl s)
    | inr s ↦ elim (Result-cases (report taken)) [
      | inr (e, c) ↦ inl (rw (s, c) refl, inr (inl (e, c)))
      | inl (completed, c) ↦ inr (completed, (c, s, rw (s, c) refl))
    ]
  ]

  pub execute_manual-Settles : (taken : Run) → Settled taken (execute_manual json answers taken)
  execute_manual-Settles taken = elim (execute_manual_cases taken) [
    | inl (c, u) ↦ subst (Settled taken) (sym c) (u, refl, refl)
    | inr (completed, (r, s, c)) ↦
        subst (Settled taken) (sym c) (record_manual-Settles taken completed r s)
  ]

-- ===== src/Store/Examples.antt =====
-- One Run that is claimed, taken over and completed: the theorems about the rows of internal/postgres
-- at inputs that meet their hypotheses.
use probehive.Base.{
  ℕ, String, true, none, some, List, [], ◌∷◌, ok, err, ◌≡◌, ◌≢◌, ◌⊎◌, inl, refl, ap, str_eq_iff,
  ◌*◌, ◌+◌, arith,
}
use probehive.Base.Int.{pos, quot, ◌*ℤ◌}
use probehive.Base.Time.{Time, utc, second, zero_time}
use probehive.Run.Model.{Kind, Outcome, Run, validate_slot}
use probehive.Run.Lifecycle.{restore_with_cause}
use probehive.Run.Observation.{Observation, validate_observation, validate_http}
use probehive.Run.Events.{Json, OutboxEntry, validate_entry}
use probehive.Run.Scheduler.{StoreError}
use probehive.Store.Tables.{Holds}
use probehive.Store.Rows.{Db, held_by}
use probehive.Store.Runs.{
  claim_slot, renew_lease, release_slot, complete, may_complete, insert_entries, link_candidate,
}
use probehive.Store.Histories.{Call, claims, completes, Reach, here, next}
use probehive.Store.Slots.{IsSound, Reach-IsSound}
use probehive.Store.Finality.{recorded_stays, recorded_closes}
use probehive.Store.Exclusion.{claim_excludes, granted_completes}
use probehive.Store.Atomic.{IsWritten, complete_atomic}

abbrev at_second : ℕ → Time
at_second n = record { instant = pos ((63908006400 + n) * second); location = utc }

abbrev json : Json
json = record { marshal = λ e. none; valid = λ p. true }

abbrev leased : String → ℕ → Run
leased holder n = record {
  id = "run";
  slot = record {
    organization_id = "org";
    monitor_id = "monitor";
    revision_number = pos 1;
    location = "default";
    scheduled_for = at_second 0;
  };
  kind = Kind.scheduled;
  confirmation = none;
  outcome = Outcome.in_flight;
  started_at = zero_time;
  finished_at = zero_time;
  lease_holder = holder;
  lease_expires_at = at_second n;
}

abbrev passed : Run
passed = record (leased "" 0) {
  outcome = Outcome.passed;
  started_at = at_second 71;
  finished_at = at_second 72;
  lease_expires_at = zero_time;
}

abbrev observation : Observation
observation = record {
  run_id = "run";
  scheduled_for = at_second 0;
  organization_id = "org";
  failure_code = "";
  failure_class = "";
  duration = pos 2000;
  phases = record { connect = pos 1000; tls = pos 0; first_byte = pos 1000 };
  http = none;
}

abbrev entry : OutboxEntry
entry = record {
  id = "event";
  organization_id = "org";
  topic = "run.recorded.v1";
  payload = 123 ∷ 125 ∷ [];
  created_at = at_second 72;
}

abbrev holding : List Run → Db
holding runs = record { runs = runs; observations = []; outbox = []; candidates = [] }

abbrev recorded : Db
recorded = record {
  runs = passed ∷ [];
  observations = observation ∷ [];
  outbox = entry ∷ [];
  candidates = [];
}

-- The first worker claims the slot, the second takes it over when the lease has run out.
claims_first :
    claim_slot true (holding []) (leased "first" 60) (at_second 1)
    ≡ (ok (leased "first" 60), holding (leased "first" 60 ∷ []))
unfolding claim_slot restore_with_cause validate_slot
claims_first = refl

claims_second :
    claim_slot true (holding (leased "first" 60 ∷ [])) (leased "second" 120) (at_second 70)
    ≡ (ok (leased "second" 120), holding (leased "second" 120 ∷ []))
unfolding claim_slot restore_with_cause validate_slot
claims_second = refl

completes_second :
    complete json true (holding (leased "second" 120 ∷ [])) passed "second" observation (entry ∷ [])
    ≡ (ok tt, recorded)
unfolding complete may_complete validate_observation validate_http validate_entry insert_entries
    link_candidate quot ◌*ℤ◌
completes_second = refl

empty-IsSound : IsSound (holding [])
empty-IsSound = record { slots = tt; keys = tt }

single-IsSound : (r : Run) → IsSound (holding (r ∷ []))
single-IsSound r = record { slots = (tt, tt); keys = (tt, tt) }

recorded-IsSound : IsSound recorded
recorded-IsSound = record { slots = (tt, tt); keys = (tt, tt) }

first_claim : Call json (holding []) (holding (leased "first" 60 ∷ []))
first_claim = claims true (leased "first" 60) (at_second 1) (ap (λ p. p.1) claims_first)

second_claim : Call json (holding (leased "first" 60 ∷ [])) (holding (leased "second" 120 ∷ []))
second_claim = claims true (leased "second" 120) (at_second 70) (ap (λ p. p.1) claims_second)

completion : Call json (holding (leased "second" 120 ∷ [])) recorded
completion =
    completes true passed "second" observation (entry ∷ []) (ap (λ p. p.1) completes_second)

to_recorded : Reach json (holding []) recorded
to_recorded = next (next (next here first_claim) second_claim) completion

-- The first worker comes back and asks for the slot again.
asks_again : Reach json recorded (claim_slot true recorded (leased "first" 200) (at_second 150)).1
asks_again = next here (claims true (leased "first" 200) (at_second 150) refl)

Reach-IsSound_example : IsSound recorded
Reach-IsSound_example = Reach-IsSound empty-IsSound to_recorded

recorded_stays_example :
    Holds passed (claim_slot true recorded (leased "first" 200) (at_second 150)).1.runs
recorded_stays_example = recorded_stays passed recorded-IsSound (inl refl) refl asks_again

recorded_closes_example :
    (claim_slot true
      (claim_slot true recorded (leased "first" 200) (at_second 150)).1
      (leased "third" 300)
      (at_second 200)).0
    ≢ ok (leased "third" 300)
recorded_closes_example =
    recorded_closes passed (leased "third" 300) (leased "third" 300) true (at_second 200)
      recorded-IsSound (inl refl) refl refl asks_again

first_second : ◌≢◌ {A = String} "first" "second"
first_second e = absurd (ground (arith, str_eq_iff "first" "second"))

claim_excludes_example :
    ((renew_lease true (holding (leased "second" 120 ∷ [])) (leased "first" 90)).0 ≢ ok tt)
    × ((release_slot true (holding (leased "second" 120 ∷ [])) (leased "first" 90)).0 ≢ ok tt)
    × ((complete json true
          (holding (leased "second" 120 ∷ []))
          (leased "first" 90)
          "first"
          observation
          []).0
        ≢ ok tt)
claim_excludes_example =
    claim_excludes json (holding (leased "first" 60 ∷ [])) (holding (leased "second" 120 ∷ []))
      (leased "second" 120) (leased "second" 120) (leased "first" 90) "first" (at_second 70) true
      true observation [] (single-IsSound (leased "first" 60)) claims_second refl refl refl
      first_second

may_complete-passed : may_complete json passed "second" observation (entry ∷ []) ≡ true
unfolding may_complete validate_observation validate_http validate_entry
may_complete-passed = refl

inserts_entry : insert_entries (entry ∷ []) [] ≡ some (entry ∷ [])
unfolding insert_entries
inserts_entry = refl

links_nothing : link_candidate passed none [] ≡ some []
unfolding link_candidate
links_nothing = refl

granted_completes_example :
    (complete json true
      (holding (leased "second" 120 ∷ []))
      passed
      "second"
      observation
      (entry ∷ [])).0
    ≡ ok tt
granted_completes_example =
    granted_completes json (holding (leased "first" 60 ∷ [])) (holding (leased "second" 120 ∷ []))
      (leased "second" 120) (leased "second" 120) passed true (at_second 70) observation
      (entry ∷ []) (entry ∷ []) [] claims_second refl refl refl refl may_complete-passed refl
      inserts_entry links_nothing

complete_atomic_example :
    ((e : StoreError) × (complete json true
          (holding (leased "second" 120 ∷ []))
          passed
          "second"
          observation
          (entry ∷ [])
        ≡ (err e, holding (leased "second" 120 ∷ []))))
    ⊎ ((row : Run) × (((complete json true
              (holding (leased "second" 120 ∷ []))
              passed
              "second"
              observation
              (entry ∷ [])).0
            ≡ ok tt)
          × (Holds row (holding (leased "second" 120 ∷ [])).runs
              × (held_by passed "second" row ≡ true)
              × IsWritten
                  (complete json true
                    (holding (leased "second" 120 ∷ []))
                    passed
                    "second"
                    observation
                    (entry ∷ [])).1
                  passed
                  row
                  observation
                  (entry ∷ []))))
complete_atomic_example =
    complete_atomic json true (holding (leased "second" 120 ∷ [])) passed "second" observation
      (entry ∷ [])

-- ===== src/Incident/Examples.antt =====
-- A Monitor that goes down and recovers, with the second event first: the theorems about the rows of
-- Incidents at inputs that meet their hypotheses.
use probehive.Base.{
  ℕ, String, true, false, Option, none, some, List, [], ◌∷◌, ok, err, ◌≡◌, refl, arith, ap, ◌*◌,
  ◌+◌,
}
use probehive.Base.Int.{pos, ◌+ℤ◌, wrap64}
use probehive.Base.Time.{Time, utc, second}
use probehive.Health.Model as Health
use probehive.Incident.Model.{HealthTransitioned, IncidentTransitioned, ProcessIds, Error}
use probehive.Incident.Rows.{Db, Transition, append_timeline, next_version}
use probehive.Incident.Projection.{
  process_health_transition, process_found, process_matched, project, insert_opened, queue_event,
  resolve_incident, advanced,
}
use probehive.Incident.Histories.{delivers, records, Reach, here, next, empty, with_transition}
use probehive.Incident.Views.{view}
use probehive.Incident.Unresolved.{IsKeyed, Reach-IsKeyed}
use probehive.Incident.Delivered.{Agrees}
use probehive.Incident.Agreement.{Reach-Agrees}
use probehive.Incident.Followed.{followed}
use probehive.Incident.Ordering.{Outcome, process-Outcome}
use probehive.Incident.Redelivery.{process_again}

abbrev at_second : ℕ → Time
at_second n = record { instant = pos ((63908006400 + n) * second); location = utc }

abbrev marshal : IncidentTransitioned → Option (List ℕ)
marshal event = some (123 ∷ 125 ∷ [])

abbrev counts : Health.Counts
counts = record {
  configured = 1;
  eligible = 1;
  responding = 1;
  passing = 0;
  failing = 1;
  location_fault = 0;
  indeterminate = 0;
  missing = 0;
}

abbrev down : Transition
down = record {
  id = "t1";
  organization_id = "org";
  monitor_id = "monitor";
  version = pos 1;
  old_state = Health.State.healthy;
  new_state = Health.State.down;
  policy_version = "phase1.v1";
  causal_run = none;
  counts = counts;
  occurred_at = at_second 60;
}

abbrev recovered : Transition
recovered = record down {
  id = "t2";
  version = pos 2;
  old_state = Health.State.down;
  new_state = Health.State.healthy;
  occurred_at = at_second 120;
}

abbrev event_of : String → Transition → HealthTransitioned
event_of id row = record {
  event_id = id;
  organization_id = row.organization_id;
  occurred_at = row.occurred_at;
  aggregate_type = "monitorHealth";
  aggregate_id = row.monitor_id;
  aggregate_version = row.version;
  causation_id = "run";
  transition_id = row.id;
  monitor_id = row.monitor_id;
  old_state = row.old_state;
  new_state = row.new_state;
  policy_version = row.policy_version;
}

abbrev ids : String → String → String → ProcessIds
ids i t a = record { incident_id = i; timeline_id = t; alert_event_id = a }

abbrev known : Db
known = with_transition recovered (with_transition down empty)

abbrev opened : Db
opened =
    (process_health_transition marshal true false known (event_of "e1" down) (ids "i1" "l1" "a1")
      (at_second 61)).1

abbrev closed : Db
closed =
    (process_health_transition marshal true false opened (event_of "e2" recovered)
      (ids "i2" "l2" "a2") (at_second 121)).1

-- The second event comes first, and changes nothing.
gap_first :
    process_health_transition marshal true false known
      (event_of "e2" recovered)
      (ids "i0" "l0" "a0")
      (at_second 60)
    ≡ (err Error.version_gap, known)
unfolding process_health_transition process_found process_matched next_version ◌+ℤ◌ wrap64
gap_first = refl

history : Reach marshal empty closed
history =
    next
      (next
        (next (next (next here (records down refl)) (records recovered refl)) (
          delivers true false (event_of "e2" recovered) (ids "i0" "l0" "a0") (at_second 60)
            (ap (λ p. p.1) gap_first)))
        (delivers true false (event_of "e1" down) (ids "i1" "l1" "a1") (at_second 61) refl))
      (delivers true false (event_of "e2" recovered) (ids "i2" "l2" "a2") (at_second 121) refl)

empty_rows-IsKeyed : IsKeyed empty.incidents
empty_rows-IsKeyed = record { ids = tt; unresolved = tt }

Reach-IsKeyed_example : IsKeyed closed.incidents
Reach-IsKeyed_example = Reach-IsKeyed empty_rows-IsKeyed history

Reach-Agrees_example : Agrees closed "org" "monitor" (followed "org" "monitor" history)
Reach-Agrees_example = Reach-Agrees "org" "monitor" history

handles_down :
    process_health_transition marshal true false known
      (event_of "e1" down)
      (ids "i1" "l1" "a1")
      (at_second 61)
    ≡ (ok tt, opened)
unfolding process_health_transition process_found process_matched project insert_opened
    append_timeline queue_event advanced
handles_down = refl

process_again_example :
    process_health_transition marshal true true opened
      (event_of "e1" down)
      (ids "i3" "l3" "a3")
      (at_second 90)
    ≡ (ok tt, opened)
process_again_example =
    process_again marshal true false known opened (event_of "e1" down) (ids "i1" "l1" "a1")
      (at_second 61) handles_down true (ids "i3" "l3" "a3") (at_second 90)

process-Outcome_example :
    Outcome marshal false known (event_of "e1" down) down (ids "i1" "l1" "a1") 0 (
      process_health_transition marshal true false known
        (event_of "e1" down)
        (ids "i1" "l1" "a1")
        (at_second 61))
process-Outcome_example =
    process-Outcome marshal false known (event_of "e1" down) down (ids "i1" "l1" "a1")
      (at_second 61) 0 empty_rows-IsKeyed refl refl refl refl (ground arith) (ground arith)

-- The history follows both transitions, and leaves an Incident that the second one resolved.
both_followed : followed "org" "monitor" history ≡ (false, recovered) ∷ (false, down) ∷ []
unfolding history process_health_transition process_found process_matched advanced project
    insert_opened resolve_incident append_timeline queue_event next_version wrap64 ◌+ℤ◌
both_followed = refl

resolved_view : view "org" "monitor" closed.incidents ≡ ("t1", some "t2") ∷ []
unfolding process_health_transition process_found process_matched project insert_opened
    resolve_incident append_timeline queue_event advanced next_version wrap64 ◌+ℤ◌
resolved_view = refl

-- ===== src/Incident/Histories.antt =====
-- What any number of workers and users can do to the rows of Incidents: deliveries of events in any
-- order and any number of times, and acknowledgements, while the health store adds transitions.
use probehive.Base.{ℕ, String, Bool, Option, List, [], ◌∷◌, ◌≡◌}
use probehive.Base.Time.{Time}
use probehive.Incident.Model.{HealthTransitioned, IncidentTransitioned, ProcessIds}
use probehive.Incident.Service.{Scope}
use probehive.Incident.Rows.{Db, Transition}
use probehive.Incident.Projection.{process_health_transition}
use probehive.Incident.Acknowledgement.{acknowledge_incident}

abbrev pub empty : Db
empty = record {
  processed = [];
  transitions = [];
  cursors = [];
  incidents = [];
  timeline = [];
  outbox = [];
}

abbrev pub with_transition : Transition → Db → Db
with_transition row db = record db { transitions = row ∷ db.transitions }

module _ (marshal : IncidentTransitioned → Option (List ℕ)) where
  -- One call of `IncidentStore` with any arguments, carried out or refused by the database, or a new
  -- row of health_transitions.
  pub data Call (s t : Db) : Type 0 where
    delivers :
        (available archived : Bool) (event : HealthTransitioned) (ids : ProcessIds) (now : Time)
        → (process_health_transition marshal available archived s event ids now).1 ≡ t
        → Call s t
    acknowledges :
        (available : Bool) (scope : Scope) (id actor_id timeline_id : String) (now : Time)
        → (acknowledge_incident available s scope id actor_id timeline_id now).1 ≡ t
        → Call s t
    records : (row : Transition) → with_transition row s ≡ t → Call s t

  pub data Reach (s : Db) : Db → Type 0 where
    here : Reach s s
    next : {t u : Db} → Reach s t → Call t u → Reach s u

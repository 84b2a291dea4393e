-- ===== src/Incident/Unresolved.antt =====
-- The keys of incidents under any history of calls.
use probehive.Base.{
  ℕ, String, Bool, true, false, Option, some, List, [], ◌∷◌, ◌≡◌, inl, inr, refl, arith, subst,
  str_eq, str_eq_iff,
}
use probehive.Base.Time.{Time}
use probehive.Incident.Model.{Incident, HealthTransitioned, IncidentTransitioned, ProcessIds}
use probehive.Incident.Service.{Scope}
use probehive.Incident.Rows.{
  Db, Transition, is_opened, is_unresolved_of, same_id, both_unresolved, opened_row, next_version,
  resolved_row, resolves, acknowledged_row,
}
use probehive.Incident.Acknowledgement.{acknowledge_incident, in_scope}
use probehive.Incident.Acknowledgement as Acknowledgement
use probehive.Incident.Cases.{process_cases, acknowledge_cases}
use probehive.Incident.Effects.{Projected, keeps, opens, closes, project-Projected}
use probehive.Incident.Histories.{Call, delivers, acknowledges, records, Reach, here, next}
use probehive.Store.Tables.{any, find_where, update_where, Holds}
use probehive.Store.Distinct.{
  Absent, Apart, any-Absent, find_holds, Apart_unique, Apart-update, Apart-narrow,
}

-- The primary key of incidents, and the index on the unresolved Incident of a Monitor.
pub record IsKeyed (rows : List Incident) : Type 0 where
  pub ids : Apart same_id rows
  pub unresolved : Apart both_unresolved rows

pub same_id_comm : (a b : Incident) → same_id a b ≡ same_id b a
same_id_comm a b = ground (arith, str_eq_iff a.id b.id, str_eq_iff b.id a.id)

pub both_unresolved_comm : (a b : Incident) → both_unresolved a b ≡ both_unresolved b a
both_unresolved_comm a b =
    ground (arith, str_eq_iff a.monitor_id b.monitor_id, str_eq_iff b.monitor_id a.monitor_id)

pub one_row :
    (a b : Incident) (rows : List Incident)
    → IsKeyed rows
    → Holds a rows
    → Holds b rows
    → str_eq a.id b.id ≡ true
    → a ≡ b
one_row a b rows sound h k e = Apart_unique same_id a b rows same_id_comm sound.ids h k e

any_unresolved-Absent :
    (row : Incident) (rows : List Incident)
    → any (is_unresolved_of row.monitor_id) rows ≡ false
    → Absent both_unresolved row rows
any_unresolved-Absent row [] e = tt
any_unresolved-Absent row (x ∷ xs) e = (ground arith, any_unresolved-Absent row xs (ground arith))

pub Projected-IsKeyed :
    {archived : Bool} {event : HealthTransitioned} {row : Transition} {ids : ProcessIds}
    {rows after : List Incident}
    → IsKeyed rows
    → Projected archived event row ids rows after
    → IsKeyed after
Projected-IsKeyed sound (keeps _ _) = sound
Projected-IsKeyed {event = event} {row = row} {ids = ids} {rows = rows} sound
      (opens _ free fresh none_unresolved) =
    let new = opened_row event ids.incident_id row.occurred_at in
    record {
      ids = (any-Absent same_id new rows fresh, sound.ids);
      unresolved = (any_unresolved-Absent new rows none_unresolved, sound.unresolved);
    }
Projected-IsKeyed {event = event} {row = row} {ids = ids} {rows = rows} sound
      (closes _ value found) =
    record {
      ids =
          Apart-update same_id (resolves value)
            (resolved_row event (next_version value.version) row.occurred_at) rows (λ a b. refl)
            (λ a b. refl) sound.ids;
      unresolved =
          Apart-narrow both_unresolved (resolves value)
            (resolved_row event (next_version value.version) row.occurred_at) rows
            (λ a b h p e. ground arith) (λ a b h p e. ground arith) sound.unresolved;
    }

acknowledged-IsKeyed :
    (db : Db) (scope : Scope) (id actor_id : String) (now : Time) (value : Incident)
    → IsKeyed db.incidents
    → find_where (in_scope scope id) db.incidents ≡ some value
    → is_opened value.state ≡ true
    → IsKeyed (
        update_where
          (Acknowledgement.acknowledges scope id)
          (acknowledged_row (next_version value.version) actor_id now)
          db.incidents)
acknowledged-IsKeyed db scope id actor_id now value sound found opened =
    let (there, hits) = find_holds (in_scope scope id) db.incidents value found in
    let is_value : (b : Incident)
        → Holds b db.incidents
        → Acknowledgement.acknowledges scope id b ≡ true
        → b ≡ value =
      λ b h p.
        one_row b value db.incidents sound h there
          (ground (arith, str_eq_iff id b.id, str_eq_iff id value.id, str_eq_iff b.id value.id)) in
    record {
      ids =
          Apart-update same_id (Acknowledgement.acknowledges scope id)
            (acknowledged_row (next_version value.version) actor_id now) db.incidents (λ a b. refl)
            (λ a b. refl) sound.ids;
      unresolved =
          Apart-narrow both_unresolved (Acknowledgement.acknowledges scope id)
            (acknowledged_row (next_version value.version) actor_id now) db.incidents
            (λ a b h p e. ground (arith, is_value b h p))
            (λ a b h p e. ground (arith, is_value a h p)) sound.unresolved;
    }

pub Call-IsKeyed :
    {marshal : IncidentTransitioned → Option (List ℕ)} {s t : Db}
    → IsKeyed s.incidents
    → Call marshal s t
    → IsKeyed t.incidents
Call-IsKeyed {marshal = marshal} {s = s} sound (delivers available archived event ids now e) =
    elim (process_cases marshal available archived s event ids now) [
      | inl (r, c) ↦ subst (λ (u : Db). IsKeyed u.incidents) (rw c at e) sound
      | inr (inl (_, c)) ↦ subst (λ (u : Db). IsKeyed u.incidents) (rw c at e) sound
      | inr (inr (inl c)) ↦ subst (λ (u : Db). IsKeyed u.incidents) (rw c at e) sound
      | inr (inr (inr (row, (w, (_, _, _, _, p, c))))) ↦
          subst (λ (u : Db). IsKeyed u.incidents) (rw c at e)
            (Projected-IsKeyed sound (project-Projected marshal archived s event row ids now w p))
    ]
Call-IsKeyed {s = s} sound (acknowledges available scope id actor_id timeline_id now e) =
    elim (acknowledge_cases available s scope id actor_id timeline_id now) [
      | inl (r, c) ↦ subst (λ (u : Db). IsKeyed u.incidents) (rw c at e) sound
      | inr (value, (timeline, (found, opened, c))) ↦
          subst (λ (u : Db). IsKeyed u.incidents) (rw c at e)
            (acknowledged-IsKeyed s scope id actor_id now value sound found opened)
    ]
Call-IsKeyed sound (records row e) = subst (λ (u : Db). IsKeyed u.incidents) e sound

-- Where it holds at the start, it holds after any history of deliveries and acknowledgements, in
-- any order and whatever the database refuses: Incidents have different identifiers, and a Monitor
-- has one unresolved Incident at most.
pub Reach-IsKeyed :
    {marshal : IncidentTransitioned → Option (List ℕ)} {s t : Db}
    → IsKeyed s.incidents
    → Reach marshal s t
    → IsKeyed t.incidents
Reach-IsKeyed sound here = sound
Reach-IsKeyed sound (next before call) = Call-IsKeyed (Reach-IsKeyed sound before) call

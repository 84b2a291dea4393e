-- ===== src/Incident/Agreement.antt =====
-- The Incidents that any history of deliveries leaves, against the replay of the transitions.
use probehive.Base.{
  ℕ, String, Bool, true, Option, some, List, ◌≡◌, inl, inr, refl, sym, arith, subst, ap, length,
  str_eq_iff,
}
use probehive.Base.Int.{pos}
use probehive.Base.Time.{Time}
use probehive.Incident.Model.{Incident, TimelineEntry, HealthTransitioned, IncidentTransitioned}
use probehive.Incident.Service.{Scope}
use probehive.Incident.Rows.{Db, is_opened, cursor_of, next_version, acknowledged_row}
use probehive.Incident.Acknowledgement.{in_scope}
use probehive.Incident.Acknowledgement as Acknowledgement
use probehive.Incident.Cases.{
  process_cases, acknowledge_cases, after_projection, after_acknowledgement, after_redelivery,
}
use probehive.Incident.Delivered.{Agrees, noted_still, projected-Agrees}
use probehive.Incident.Followed.{Followed, with_delivery, with_call, followed}
use probehive.Incident.Cursors.{last_version}
use probehive.Incident.Views.{view, summary, view_kept}
use probehive.Incident.Replay.{Replayed, start, Replayed-with}
use probehive.Incident.Histories.{Call, delivers, acknowledges, records, Reach, here, next, empty}
use probehive.Incident.Unresolved.{IsKeyed, one_row, Reach-IsKeyed}
use probehive.Store.Tables.{find_where}
use probehive.Store.Distinct.{find_holds}

module _ (db : Db) (scope : Scope) (id actor_id : String) (now : Time) (value : Incident)
    (timeline : List TimelineEntry) (available : Bool) (timeline_id : String)
    (sound : IsKeyed db.incidents)
    (found : find_where (in_scope scope id) db.incidents ≡ some value)
    (opened : is_opened value.state ≡ true) where
  acknowledged-Agrees :
      (o m : String) (done : Followed)
      → Agrees db o m done
      → Agrees
          (after_acknowledgement available db scope id actor_id timeline_id now value timeline)
          o
          m
          done
  acknowledged-Agrees o m done before =
      let (there, hits) = find_holds (in_scope scope id) db.incidents value found in
      record {
        reached = before.reached;
        incidents =
            subst (Replayed db.transitions o m done)
              (sym (
                view_kept o m (Acknowledgement.acknowledges scope id)
                  (acknowledged_row (next_version value.version) actor_id now) db.incidents
                  (λ r. refl)
                  (λ r h own p.
                    let same = one_row value r db.incidents sound there h (
                      ground (
                        arith,
                        str_eq_iff id r.id,
                        str_eq_iff id value.id,
                        str_eq_iff value.id r.id,
                      )) in
                    subst
                      (λ x.
                        summary (acknowledged_row (next_version value.version) actor_id now x)
                        ≡ summary x)
                      same (ground arith))))
              before.incidents;
      }

-- A delivery that leaves the rows of Incidents and cursors.
delivered-Agrees :
    (s t : Db) (o m : String) (archived : Bool) (event : HealthTransitioned) (done : Followed)
    → s.cursors ≡ t.cursors
    → s.incidents ≡ t.incidents
    → s.transitions ≡ t.transitions
    → Agrees s o m done
    → Agrees t o m (with_delivery o m archived event s t done)
delivered-Agrees s t o m archived event done c i r before =
    subst (Agrees t o m)
      (sym (
        noted_still o m archived event s t done
          (ap (λ cs. last_version (find_where (cursor_of o m) cs)) c)))
      (record {
        reached =
            subst (λ cs. last_version (find_where (cursor_of o m) cs) ≡ pos (length done)) c
              before.reached;
        incidents =
            subst (λ rows. Replayed rows o m done (view o m t.incidents)) r
              (subst (λ rows. Replayed s.transitions o m done (view o m rows)) i before.incidents);
      })

Call-Agrees :
    {marshal : IncidentTransitioned → Option (List ℕ)} {s t : Db} (o m : String) (done : Followed)
    → IsKeyed s.incidents
    → Agrees s o m done
    → (call : Call marshal s t) → Agrees t o m (with_call o m call done)
Call-Agrees {marshal = marshal} {s = s} {t = t} o m done sound before
      (delivers available archived event ids now e) =
    elim (process_cases marshal available archived s event ids now) [
      | inl (r, c) ↦ unchanged (rw c at e)
      | inr (inl (_, c)) ↦ unchanged (rw c at e)
      | inr (inr (inl c)) ↦
          let same : after_redelivery s event ≡ t = rw c at e in
          delivered-Agrees s t o m archived event done (ap (λ (u : Db). u.cursors) same)
            (ap (λ (u : Db). u.incidents) same) (ap (λ (u : Db). u.transitions) same) before
      | inr (inr (inr (row, (w, cases)))) ↦
          let (_, _, _, _, _, c) = cases in
          let same : after_projection s event row now w ≡ t = rw c at e in
          subst (λ (u : Db). Agrees u o m (with_delivery o m archived event s u done)) same
            (projected-Agrees marshal available archived s event ids now sound row w cases o m done
              before)
    ]
  where
    unchanged : s ≡ t → Agrees t o m (with_delivery o m archived event s t done)
    unchanged same =
        delivered-Agrees s t o m archived event done (ap (λ (u : Db). u.cursors) same)
          (ap (λ (u : Db). u.incidents) same) (ap (λ (u : Db). u.transitions) same) before
Call-Agrees {s = s} o m done sound before
      (acknowledges available scope id actor_id timeline_id now e) =
    elim (acknowledge_cases available s scope id actor_id timeline_id now) [
      | inl (r, c) ↦ subst (λ u. Agrees u o m done) (rw c at e) before
      | inr (value, (timeline, (found, opened, c))) ↦
          subst (λ u. Agrees u o m done) (rw c at e)
            (acknowledged-Agrees s scope id actor_id now value timeline available timeline_id sound
              found opened o m done before)
    ]
Call-Agrees o m done sound before (records row e) =
    subst (λ u. Agrees u o m done) e
      (record { reached = before.reached; incidents = Replayed-with before.incidents })

empty-IsKeyed : IsKeyed empty.incidents
empty-IsKeyed = record { ids = tt; unresolved = tt }

-- From empty tables on, whatever the order in which events are delivered, and however often,
-- whatever the database refuses and whichever Incidents are acknowledged: the Incidents of each
-- Monitor are those of a replay of the health transitions whose delivery moved its cursor. Their
-- versions are 1, 2, … in order, the cursor counts them, and at each one the Monitor is archived in
-- the replay exactly if the delivery that projected it read so.
pub Reach-Agrees :
    {marshal : IncidentTransitioned → Option (List ℕ)} {t : Db}
    (organization_id monitor_id : String) (history : Reach marshal empty t)
    → Agrees t organization_id monitor_id (followed organization_id monitor_id history)
Reach-Agrees organization_id monitor_id here = record { reached = refl; incidents = start }
Reach-Agrees organization_id monitor_id (next before call) =
    Call-Agrees organization_id monitor_id (followed organization_id monitor_id before)
      (Reach-IsKeyed empty-IsKeyed before) (Reach-Agrees organization_id monitor_id before) call

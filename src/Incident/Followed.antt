-- ===== src/Incident/Followed.antt =====
-- Which transitions of a Monitor a history of deliveries projects: those that moved the cursor of the
-- Monitor, each with what its delivery read of the Monitor's archived state.
use probehive.Base.{ℕ, String, Bool, not, Option, none, some, List, [], ◌∷◌, if◌then◌else◌}
use probehive.Base.Int.{eqb_ℤ}
use probehive.Incident.Model.{HealthTransitioned, IncidentTransitioned}
use probehive.Incident.Rows.{Db, Transition}
use probehive.Incident.Projection.{is_transition}
use probehive.Incident.Cursors.{projected_version}
use probehive.Incident.Histories.{Call, delivers, acknowledges, records, Reach, here, next, empty}
use probehive.Store.Tables.{find_where}

-- A transition, and whether its Monitor was archived when it was projected.
abbrev pub Followed : Type 0
Followed = List (Bool × Transition)

abbrev pub noted : Bool → Option Transition → Followed → Followed
noted archived none done = done
noted archived (some row) done = (archived, row) ∷ done

-- What a delivery of the event adds, which leads from one state of the tables to another.
abbrev pub with_delivery :
    String → String → Bool → HealthTransitioned → Db → Db → Followed → Followed
with_delivery organization_id monitor_id archived event before after done =
    if not (
      eqb_ℤ (projected_version before organization_id monitor_id)
        (projected_version after organization_id monitor_id))
    then noted archived (find_where (is_transition event) before.transitions) done
    else done

module _ {marshal : IncidentTransitioned → Option (List ℕ)}
    (organization_id monitor_id : String) where
  abbrev pub with_call : {s t : Db} → Call marshal s t → Followed → Followed
  with_call {s = s} {t = t} (delivers available archived event ids now e) done =
      with_delivery organization_id monitor_id archived event s t done
  with_call (acknowledges available scope id actor_id timeline_id now e) done = done
  with_call (records row e) done = done

  -- Newest first.
  abbrev pub followed : {t : Db} → Reach marshal empty t → Followed
  followed here = []
  followed (next before call) = with_call call (followed before)

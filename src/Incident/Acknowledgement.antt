-- ===== src/Incident/Acknowledgement.antt =====
-- internal/postgres/incident.go: `AcknowledgeIncident` and `GetIncident` on the rows of their tables.
-- `available` says whether the database carries the transaction out.
use probehive.Base.{
  String, Bool, ◌&&◌, not, Option, none, some, List, [], ◌∷◌, Result, ok, err, if◌then◌else◌,
  str_eq,
}
use probehive.Base.Int.{ℤ, leb_ℤ}
use probehive.Base.Time.{Time, to_utc}
use probehive.Incident.Model.{TimelineKind, Incident, TimelineEntry, Error}
use probehive.Incident.Service.{Scope}
use probehive.Incident.Rows.{
  Db, is_resolved, is_opened, append_timeline, next_version, acknowledged_row,
}
use probehive.Store.Tables.{find_where, update_where}

abbrev insert_by_version : TimelineEntry → List TimelineEntry → List TimelineEntry
insert_by_version entry [] = entry ∷ []
insert_by_version entry (x ∷ xs) =
    let rest = insert_by_version entry xs in
    if leb_ℤ entry.incident_version x.incident_version then entry ∷ x ∷ xs else x ∷ rest

-- `listTimeline`: `WHERE organization_id=… AND incident_id=… ORDER BY incident_version`.
unfoldable pub list_timeline : String → String → List TimelineEntry → List TimelineEntry
list_timeline organization_id incident_id [] = []
list_timeline organization_id incident_id (x ∷ xs) =
    let rest = list_timeline organization_id incident_id xs in
    if str_eq organization_id x.organization_id && str_eq incident_id x.incident_id
    then insert_by_version x rest
    else rest

abbrev pub in_scope : Scope → String → Incident → Bool
in_scope scope id row =
    str_eq id row.id
    && str_eq scope.monitor_id row.monitor_id
    && str_eq scope.organization_id row.organization_id

unfoldable pub get_incident : Db → Scope → String → Option (Incident × List TimelineEntry)
get_incident db scope id = elim (find_where (in_scope scope id) db.incidents) [
  | none ↦ none
  | some value ↦ some (value, list_timeline scope.organization_id id db.timeline)
]

abbrev pub acknowledges : Scope → String → Incident → Bool
acknowledges scope id row = str_eq id row.id && str_eq scope.organization_id row.organization_id

abbrev pub acknowledged_entry : Scope → String → ℤ → String → String → Time → TimelineEntry
acknowledged_entry scope id version actor_id timeline_id now = record {
  id = timeline_id;
  organization_id = scope.organization_id;
  incident_id = id;
  incident_version = version;
  kind = TimelineKind.acknowledged;
  cause = none;
  actor_user_id = actor_id;
  occurred_at = to_utc now;
}

-- The answer is read after the commit.
abbrev answered : Db → Scope → String → Result Error (Option (Incident × List TimelineEntry)) × Db
answered db scope id = (ok (get_incident db scope id), db)

unfoldable pub acknowledge_opened :
    Db
    → Scope
    → String
    → String
    → Time
    → ℤ
    → Option (List TimelineEntry)
    → Result Error (Option (Incident × List TimelineEntry)) × Db
acknowledge_opened db scope id actor_id now version none = (err Error.failed, db)
acknowledge_opened db scope id actor_id now version (some timeline) =
    answered
      (record db {
        incidents =
            update_where (acknowledges scope id) (acknowledged_row version actor_id now)
              db.incidents;
        timeline = timeline;
      })
      scope id

unfoldable pub acknowledge_found :
    Db
    → Scope
    → String
    → String
    → String
    → Time
    → Incident
    → Result Error (Option (Incident × List TimelineEntry)) × Db
acknowledge_found db scope id actor_id timeline_id now value =
    if is_resolved value.state
    then (err Error.conflict, db)
    else if is_opened value.state
    then acknowledge_opened db scope id actor_id now (next_version value.version) (
        append_timeline
          (acknowledged_entry scope id (next_version value.version) actor_id timeline_id now)
          db.timeline)
    else answered db scope id

unfoldable pub acknowledge_incident :
    Bool
    → Db
    → Scope
    → String
    → String
    → String
    → Time
    → Result Error (Option (Incident × List TimelineEntry)) × Db
acknowledge_incident available db scope id actor_id timeline_id now =
    if not available
    then (err Error.failed, db)
    else elim (find_where (in_scope scope id) db.incidents) [
      | none ↦ (ok none, db)
      | some value ↦ acknowledge_found db scope id actor_id timeline_id now value
    ]

-- ===== src/Incident/Ordering.antt =====
-- What becomes of an event, by the place of its version after the cursor of its Monitor.
use probehive.Base.{
  ℕ, suc, Bool, true, false, Option, none, some, List, Result, ok, err, ◌≡◌, ◌⊎◌, inl, inr, refl,
  ◌<◌, ◌^◌, ◌-◌, sym, ◌∙◌, arith, subst, Bool-cases, Option-cases, str_eq_iff,
}
use probehive.Base.Int.{ℤ, pos, ◌+ℤ◌, ◌<ℤ◌, ◌≤ℤ◌, wrap64, eqb_ℤ, leb_ℤ, IsInt64, eq_of_parts}
use probehive.Base.Time.{Time}
use probehive.Incident.Model.{HealthTransitioned, IncidentTransitioned, ProcessIds, Error}
use probehive.Incident.Rows.{Db, Transition, Cursor, same_event, matches, next_version}
use probehive.Incident.Projection.{
  Written, project, is_transition, is_behind, expected_version, process_matched, advanced,
  process_health_transition,
}
use probehive.Incident.Cases.{after_projection, after_redelivery, cursor_for, matched_step}
use probehive.Incident.Cursors.{last_version, matched_version, projected_version, advanced_version}
use probehive.Incident.Effects.{project-Projected}
use probehive.Incident.Obstructed.{Obstructed, project-Obstructed}
use probehive.Incident.Views.{view}
use probehive.Incident.Replay.{replayed, Projected-view}
use probehive.Incident.Unresolved.{IsKeyed}
use probehive.Store.Distinct.{find_holds}
use probehive.Store.Tables.{any, find_where}

next_version_exact : (n : ℕ) → n < 2 ^ 63 - 1 → next_version (pos n) ≡ pos (suc n)
unfolding next_version wrap64 ◌+ℤ◌
next_version_exact n h = ground arith

module _ (version : ℤ) (n : ℕ) where
  -- A version is at most the last one, or the next, or beyond.
  abbrev Place : ℤ → Type 0
  Place expected =
      ((leb_ℤ version (pos n) ≡ true) × (version ≤ℤ pos n))
      ⊎ ((leb_ℤ version (pos n) ≡ false)
          × (eqb_ℤ version expected ≡ true)
          × (version ≡ pos (suc n)))
      ⊎ ((leb_ℤ version (pos n) ≡ false)
          × (eqb_ℤ version expected ≡ false)
          × (pos (suc n) <ℤ version))

  Place-next : Place (pos (suc n))
  Place-next = elim (Bool-cases (leb_ℤ version (pos n))) [
    | inl b ↦ inl (b, ground arith)
    | inr b ↦ elim (Bool-cases (eqb_ℤ version (pos (suc n)))) [
      | inl q ↦ inr (inl (b, q, eq_of_parts version (pos (suc n)) (ground arith)))
      | inr q ↦ inr (inr (b, q, ground arith))
    ]
  ]

  place : IsInt64 version → Place (next_version (pos n))
  place h = elim (Bool-cases (leb_ℤ version (pos n))) [
    | inl b ↦ inl (b, ground arith)
    | inr b ↦ subst Place (sym (next_version_exact n (ground arith))) Place-next
  ]

-- The tests of `ProcessHealthTransition` tell the three places apart.
cursor_place :
    (event : HealthTransitioned) (cursor : Option Cursor) (n : ℕ)
    → last_version cursor ≡ pos n
    → IsInt64 event.aggregate_version
    → pos 1 ≤ℤ event.aggregate_version
    → ((is_behind event cursor ≡ true) × (event.aggregate_version ≤ℤ pos n))
      ⊎ ((is_behind event cursor ≡ false)
          × (eqb_ℤ event.aggregate_version (expected_version cursor) ≡ true)
          × (event.aggregate_version ≡ pos (suc n)))
      ⊎ ((is_behind event cursor ≡ false)
          × (eqb_ℤ event.aggregate_version (expected_version cursor) ≡ false)
          × (pos (suc n) <ℤ event.aggregate_version))
cursor_place event none n l h p = elim (Bool-cases (eqb_ℤ event.aggregate_version (pos 1))) [
  | inl q ↦ inr (inl (refl, q, eq_of_parts event.aggregate_version (pos (suc n)) (ground arith)))
  | inr q ↦ inr (inr (refl, q, ground arith))
]
cursor_place event (some cursor) n l h p = rw l (place event.aggregate_version n h)

-- What becomes of the event, where the cursor of its Monitor has reached the version n.
abbrev pub Outcome :
    (IncidentTransitioned → Option (List ℕ))
    → Bool
    → Db
    → HealthTransitioned
    → Transition
    → ProcessIds
    → ℕ
    → Result Error (Unit {0}) × Db
    → Type 0
Outcome marshal archived db event row ids n answer =
    ((event.aggregate_version ≤ℤ pos n) × (answer ≡ (ok tt, after_redelivery db event)))
    ⊎ ((event.aggregate_version ≡ pos (suc n))
        × (((answer ≡ (err Error.failed, db)) × Obstructed marshal db ids archived event row)
            ⊎ ((answer.0 ≡ ok tt)
                × (projected_version answer.1 event.organization_id row.monitor_id ≡ pos (suc n))
                × (view event.organization_id row.monitor_id answer.1.incidents
                    ≡ replayed archived row
                        (view event.organization_id row.monitor_id db.incidents)))))
    ⊎ ((pos (suc n) <ℤ event.aggregate_version) × (answer ≡ (err Error.version_gap, db)))

module _ (marshal : IncidentTransitioned → Option (List ℕ)) (archived : Bool) (db : Db)
    (event : HealthTransitioned) (row : Transition) (ids : ProcessIds) (now : Time) where
  abbrev Ends : ℕ → Result Error (Unit {0}) × Db → Type 0
  Ends n answer = Outcome marshal archived db event row ids n answer

  projected-Ends :
      (w : Written) (n : ℕ)
      → IsKeyed db.incidents
      → event.transition_id ≡ row.id
      → row.monitor_id ≡ event.monitor_id
      → event.aggregate_version ≡ pos (suc n)
      → project marshal archived row.new_state db event row ids now ≡ some w
      → Ends n (ok tt, after_projection db event row now w)
  projected-Ends w n sound t m v f = inr (
      inl (
        v,
        inr (
          refl,
          advanced_version event.organization_id row.monitor_id event.aggregate_version now
                db.cursors
              ∙ v,
          Projected-view event row db.incidents sound t m
              (project-Projected marshal archived db event row ids now w f),
        ),
      ))

  matched-Ends :
      (cursor : Option Cursor) (n : ℕ)
      → IsKeyed db.incidents
      → event.transition_id ≡ row.id
      → row.monitor_id ≡ event.monitor_id
      → last_version cursor ≡ pos n
      → IsInt64 event.aggregate_version
      → pos 1 ≤ℤ event.aggregate_version
      → Ends n (process_matched marshal archived db event row ids now cursor)
  unfolding process_matched advanced
  matched-Ends cursor n sound t m l h p = elim (cursor_place event cursor n l h p) [
    | inl (b, v) ↦ inl (v, rw b refl)
    | inr (inr (b, q, v)) ↦ inr (inr (v, rw (b, q) refl))
    | inr (inl (b, q, v)) ↦
        elim (Option-cases (project marshal archived row.new_state db event row ids now)) [
          | inl f ↦ inr (
              inl (
                v,
                inl (rw (b, q, f) refl, project-Obstructed marshal db ids archived event row now f),
              ))
          | inr (w, f) ↦
              subst (Ends n) (sym (projected_step cursor w b q f))
                (projected-Ends w n sound t m v f)
        ]
  ]
    where
      projected_step :
          (cursor : Option Cursor) (w : Written)
          → is_behind event cursor ≡ false
          → eqb_ℤ event.aggregate_version (expected_version cursor) ≡ true
          → project marshal archived row.new_state db event row ids now ≡ some w
          → process_matched marshal archived db event row ids now cursor
            ≡ (ok tt, after_projection db event row now w)
      projected_step cursor w b q f = rw (b, q, f) refl

  -- An event with a positive version that matches its transition and was not processed before ends
  -- by its version, where the cursor of the Monitor has reached n, the rows of Incidents keep their
  -- keys and the database carries the transaction out. Up to n it is only marked as processed. At
  -- n + 1 the cursor reaches n + 1, and the Incidents of the Monitor, by the transitions that opened
  -- and resolved them, become what one step of the replay makes of them: one more is open if the
  -- Monitor went down, is not archived and had none that is open, and the open one is resolved if the
  -- Monitor got healthy; or an error leaves everything as it was, which takes an Incident to open or
  -- to resolve and a taken key, an empty identifier or a payload that cannot be made. Beyond, it is
  -- refused with a version gap and nothing is changed.
  pub process-Outcome :
      (n : ℕ)
      → IsKeyed db.incidents
      → find_where (is_transition event) db.transitions ≡ some row
      → matches event row ≡ true
      → any (same_event event.event_id event.organization_id) db.processed ≡ false
      → projected_version db event.organization_id row.monitor_id ≡ pos n
      → IsInt64 event.aggregate_version
      → pos 1 ≤ℤ event.aggregate_version
      → Outcome marshal archived db event row ids n
          (process_health_transition marshal true archived db event ids now)
  process-Outcome n sound found hit new reached h p =
      let (held, named) = find_holds (is_transition event) db.transitions row found in
      let (same_monitor, _) = matched_version event row hit in
      subst (Ends n)
        (sym (matched_step marshal true archived db event ids now row refl new found hit))
        (matched-Ends (cursor_for db event row) n sound
          (ground (arith, str_eq_iff event.transition_id row.id)) same_monitor reached h p)

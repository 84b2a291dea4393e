-- ===== src/Incident/Delivered.antt =====
-- What one delivery that projects a transition leaves, against the replay of the transitions.
use probehive.Base.{
  ℕ, suc, String, Bool, true, false, ◌&&◌, Option, some, List, ◌≡◌, inl, inr, refl, sym, ◌∙◌, arith,
  subst, length, Bool-cases, str_eq, str_eq_iff, ◌∷◌,
}
use probehive.Base.Int.{ℤ, pos, eqb_ℤ}
use probehive.Base.Time.{Time}
use probehive.Incident.Model.{HealthTransitioned, IncidentTransitioned, ProcessIds}
use probehive.Incident.Rows.{Db, Transition}
use probehive.Incident.Projection.{Written, is_transition}
use probehive.Incident.Cases.{after_projection, cursor_for, Projects}
use probehive.Incident.Followed.{Followed, with_delivery}
use probehive.Incident.Cursors.{
  projected_version, matched_version, advanced_version, other_version, expected_next,
}
use probehive.Incident.Effects.{project-Projected}
use probehive.Incident.Views.{view}
use probehive.Incident.Replay.{Replayed, follows, Projected-view, Projected-view_other}
use probehive.Incident.Unresolved.{IsKeyed}
use probehive.Store.Tables.{find_where}
use probehive.Store.Distinct.{find_holds}

-- The cursor of a Monitor counts the transitions that were projected, and its Incidents are what
-- their replay makes of them.
pub record Agrees (db : Db) (organization_id monitor_id : String) (done : Followed) : Type 0 where
  pub reached : projected_version db organization_id monitor_id ≡ pos (length done)
  pub incidents :
      Replayed db.transitions organization_id monitor_id done
        (view organization_id monitor_id db.incidents)

eqb_ℤ_refl : (a : ℤ) → eqb_ℤ a a ≡ true
eqb_ℤ_refl a = ground arith

module _ (o m : String) (archived : Bool) (event : HealthTransitioned) (s t : Db) where
  pub noted_still :
      (done : Followed)
      → projected_version s o m ≡ projected_version t o m
      → with_delivery o m archived event s t done ≡ done
  noted_still done e = rw (e, eqb_ℤ_refl (projected_version t o m)) refl

  noted_advance :
      (row : Transition) (n : ℕ) (done : Followed)
      → projected_version s o m ≡ pos n
      → projected_version t o m ≡ pos (suc n)
      → find_where (is_transition event) s.transitions ≡ some row
      → with_delivery o m archived event s t done ≡ (archived, row) ∷ done
  noted_advance row n done a b f = rw (a, b, f) (ground arith)

module _ (marshal : IncidentTransitioned → Option (List ℕ)) (available archived : Bool) (db : Db)
    (event : HealthTransitioned) (ids : ProcessIds) (now : Time) (sound : IsKeyed db.incidents)
    (row : Transition) (w : Written)
    (cases : Projects marshal available archived db event ids now row w) where
  abbrev projected : Db
  projected = after_projection db event row now w

  abbrev delivered : String → String → Followed → Followed
  delivered o m done = with_delivery o m archived event db projected done

  projected_here :
      (done : Followed)
      → Agrees db event.organization_id row.monitor_id done
      → Agrees projected event.organization_id row.monitor_id
          (delivered event.organization_id row.monitor_id done)
  projected_here done before =
      let (found, hit, ahead, expected, made, _) = cases in
      let (same_monitor, same_version) = matched_version event row hit in
      let (held, named) = find_holds (is_transition event) db.transitions row found in
      let is_next =
        expected_next event (cursor_for db event row) (length done) before.reached ahead expected in
      let same_id : event.transition_id ≡ row.id =
        ground (arith, str_eq_iff event.transition_id row.id) in
      let same_organization : row.organization_id ≡ event.organization_id =
        ground (arith, str_eq_iff event.organization_id row.organization_id) in
      let advanced : projected_version projected event.organization_id row.monitor_id
          ≡ pos (suc (length done)) =
        advanced_version event.organization_id row.monitor_id event.aggregate_version now db.cursors
        ∙ is_next in
      let more : delivered event.organization_id row.monitor_id done ≡ (archived, row) ∷ done =
        noted_advance event.organization_id row.monitor_id archived event db projected row
          (length done) done before.reached advanced found in
      subst (Agrees projected event.organization_id row.monitor_id) (sym more) (record {
        reached = advanced;
        incidents =
            subst
              (Replayed db.transitions event.organization_id row.monitor_id
                ((archived, row) ∷ done))
              (sym (
                Projected-view event row db.incidents sound same_id same_monitor
                  (project-Projected marshal archived db event row ids now w made)))
              (follows before.incidents archived row held same_organization refl
                (same_version ∙ is_next));
      })

  projected_other :
      (o m : String) (done : Followed)
      → str_eq o event.organization_id && str_eq m row.monitor_id ≡ false
      → Agrees db o m done
      → Agrees projected o m (delivered o m done)
  projected_other o m done other before =
      let (_, hit, _, _, made, _) = cases in
      let (same_monitor, _) = matched_version event row hit in
      let still : projected_version projected o m ≡ projected_version db o m =
        other_version o m event.organization_id row.monitor_id event.aggregate_version now
          db.cursors other in
      subst (Agrees projected o m)
        (sym (noted_still o m archived event db projected done (sym still)))
        (record {
          reached = still ∙ before.reached;
          incidents =
              subst (Replayed db.transitions o m done)
                (sym (
                  Projected-view_other event row db.incidents sound o m other same_monitor
                    (project-Projected marshal archived db event row ids now w made)))
                before.incidents;
        })

  pub projected-Agrees :
      (o m : String) (done : Followed)
      → Agrees db o m done
      → Agrees projected o m (delivered o m done)
  projected-Agrees o m done before =
      elim (Bool-cases (str_eq o event.organization_id && str_eq m row.monitor_id)) [
        | inr other ↦ projected_other o m done other before
        | inl same ↦
            let p : event.organization_id ≡ o =
              ground (arith, str_eq_iff o event.organization_id) in
            let q : row.monitor_id ≡ m = ground (arith, str_eq_iff m row.monitor_id) in
            subst (λ x. Agrees db x m done → Agrees projected x m (delivered x m done)) p
              (subst
                (λ y.
                  Agrees db event.organization_id y done
                  → Agrees projected event.organization_id y
                      (delivered event.organization_id y done))
                q (projected_here done))
              before
      ]

-- ===== src/Incident/Redelivery.antt =====
-- Events that the outbox delivers more than once.
use probehive.Base.{
  ℕ, String, Bool, true, Option, List, ok, ◌≡◌, inl, inr, refl, sym, ◌∙◌, ap, subst, Bool-cases,
  str_eq_refl,
}
use probehive.Base.Time.{Time}
use probehive.Incident.Model.{HealthTransitioned, IncidentTransitioned, ProcessIds}
use probehive.Incident.Rows.{Db, same_event, mark_processed}
use probehive.Incident.Projection.{process_health_transition}
use probehive.Incident.Cases.{process_cases}
use probehive.Store.Tables.{any}

abbrev seen : Db → HealthTransitioned → Bool
seen db event = any (same_event event.event_id event.organization_id) db.processed

mark_processed_marks :
    (id organization_id : String) (rows : List (String × String))
    → any (same_event id organization_id) (mark_processed id organization_id rows) ≡ true
mark_processed_marks id organization_id rows =
    elim (Bool-cases (any (same_event id organization_id) rows)) [
      | inl h ↦ rw (h, h) refl
      | inr h ↦ rw (h, str_eq_refl id, str_eq_refl organization_id) refl
    ]

module _ (marshal : IncidentTransitioned → Option (List ℕ)) (available archived : Bool) (db t : Db)
    (event : HealthTransitioned) (ids : ProcessIds) (now : Time)
    (handled : process_health_transition marshal available archived db event ids now
      ≡ (ok tt, t)) where
  handled_seen : seen t event ≡ true
  handled_seen = elim (process_cases marshal available archived db event ids now) [
    | inl (e, c) ↦ absurd (cc (sym c ∙ handled))
    | inr (inl (m, c)) ↦ subst (λ u. seen u event ≡ true) (ap (λ p. p.1) (sym c ∙ handled)) m
    | inr (inr (inl c)) ↦
        subst (λ u. seen u event ≡ true) (ap (λ p. p.1) (sym c ∙ handled))
          (mark_processed_marks event.event_id event.organization_id db.processed)
    | inr (inr (inr (row, (w, (_, _, _, _, _, c))))) ↦
        subst (λ u. seen u event ≡ true) (ap (λ p. p.1) (sym c ∙ handled))
          (mark_processed_marks event.event_id event.organization_id db.processed)
  ]

  -- An event that was handled without an error is handled again, on the rows that this left, with
  -- any identifiers, at any time and whether the Monitor is archived or not, without an error and
  -- without a change, if the database carries the transaction out.
  pub process_again :
      (archived' : Bool) (ids' : ProcessIds) (later : Time)
      → process_health_transition marshal true archived' t event ids' later ≡ (ok tt, t)
  unfolding process_health_transition
  process_again archived' ids' later = rw handled_seen refl

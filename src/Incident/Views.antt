-- ===== src/Incident/Views.antt =====
-- What the Incidents of one Monitor say of its health, newest first: which transition opened each,
-- and which resolved it.
use probehive.Base.{
  String, Bool, true, false, not, Option, none, some, List, [], ◌∷◌, if◌then◌else◌, ◌≡◌, inl, inr,
  refl, arith, ap, Bool-cases,
}
use probehive.Base.Int.{ℤ}
use probehive.Base.Time.{Time}
use probehive.Incident.Model.{Incident, HealthTransitioned}
use probehive.Incident.Rows.{is_resolved, of_monitor, is_active_of, resolved_row}
use probehive.Store.Tables.{any, update_where, Holds}

abbrev pub View : Type 0
View = List (String × Option String)

abbrev pub resolution : Incident → Option String
resolution row = if is_resolved row.state then some row.resolved_transition_id else none

abbrev pub summary : Incident → String × Option String
summary row = (row.opened_transition_id, resolution row)

abbrev pub view : String → String → List Incident → View
view organization_id monitor_id [] = []
view organization_id monitor_id (row ∷ rows) =
    if of_monitor organization_id monitor_id row
    then summary row ∷ view organization_id monitor_id rows
    else view organization_id monitor_id rows

abbrev pub is_open_entry : String × Option String → Bool
is_open_entry (opened, none) = true
is_open_entry (opened, some resolved) = false

abbrev pub is_open : View → Bool
is_open entries = any is_open_entry entries

abbrev pub close : String → View → View
close transition_id [] = []
close transition_id ((opened, none) ∷ entries) =
    (opened, some transition_id) ∷ close transition_id entries
close transition_id ((opened, some resolved) ∷ entries) =
    (opened, some resolved) ∷ close transition_id entries

pub close_closed : (id : String) (v : View) → is_open v ≡ false → close id v ≡ v
close_closed id [] e = refl
close_closed id ((o, none) ∷ v) e = absurd (cc e)
close_closed id ((o, some r) ∷ v) e = ap (λ w. (o, some r) ∷ w) (close_closed id v e)

module _ (organization_id monitor_id : String) where
  pub view-is_open :
      (rows : List Incident)
      → is_open (view organization_id monitor_id rows)
        ≡ any (is_active_of organization_id monitor_id) rows
  view-is_open [] = refl
  view-is_open (row ∷ rows) = ground (arith, view-is_open rows)

  -- An update that leaves what the rows of the Monitor say.
  pub view_kept :
      (p : Incident → Bool) (f : Incident → Incident) (rows : List Incident)
      → ((r : Incident)
          → of_monitor organization_id monitor_id (f r) ≡ of_monitor organization_id monitor_id r)
      → ((r : Incident)
          → Holds r rows
          → of_monitor organization_id monitor_id r ≡ true
          → p r ≡ true
          → summary (f r) ≡ summary r)
      → view organization_id monitor_id (update_where p f rows)
        ≡ view organization_id monitor_id rows
  view_kept p f [] same keeps = refl
  view_kept p f (row ∷ rows) same keeps =
      let rest = view_kept p f rows same (λ r h. keeps r (inr h)) in
      elim (Bool-cases (p row)) [
        | inr n ↦ rw (n, rest) refl
        | inl t ↦ elim (Bool-cases (of_monitor organization_id monitor_id row)) [
          | inr o ↦ rw (t, same row, o, rest) refl
          | inl o ↦ rw (t, same row, o, rest, keeps row (inl refl) o t) refl
        ]
      ]

  -- An update that resolves what is unresolved of the Monitor.
  pub view_closed :
      (p : Incident → Bool) (event : HealthTransitioned) (version : ℤ) (at : Time)
      (rows : List Incident)
      → ((r : Incident)
          → Holds r rows
          → of_monitor organization_id monitor_id r ≡ true
          → p r ≡ not (is_resolved r.state))
      → view organization_id monitor_id (update_where p (resolved_row event version at) rows)
        ≡ close event.transition_id (view organization_id monitor_id rows)
  view_closed p event version at [] hits = refl
  view_closed p event version at (row ∷ rows) hits =
      let rest = view_closed p event version at rows (λ r h. hits r (inr h)) in
      elim (Bool-cases (of_monitor organization_id monitor_id row)) [
        | inr o ↦ ground (arith, rest, o)
        | inl o ↦ elim (Bool-cases (is_resolved row.state)) [
          | inl d ↦ rw (hits row (inl refl) o, d, o, rest, d) refl
          | inr d ↦ rw (hits row (inl refl) o, d, o, rest) refl
        ]
      ]

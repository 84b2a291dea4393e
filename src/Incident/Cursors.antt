-- ===== src/Incident/Cursors.antt =====
-- The projection cursors of Monitors, and the order that they keep.
use probehive.Base.{
  ℕ, suc, String, true, false, ◌&&◌, Option, none, some, List, [], ◌∷◌, ◌≡◌, inl, inr, refl, arith,
  Bool-cases, str_eq, str_eq_iff, str_eq_refl,
}
use probehive.Base.Int.{ℤ, pos, ◌+ℤ◌, wrap64, eqb_ℤ, leb_ℤ, eq_of_parts}
use probehive.Base.Time.{Time}
use probehive.Incident.Model.{HealthTransitioned}
use probehive.Incident.Rows.{
  Db, Transition, Cursor, cursor_of, advance_cursor, matches, next_version,
}
use probehive.Incident.Projection.{is_behind, expected_version}
use probehive.Store.Tables.{find_where}

abbrev pub last_version : Option Cursor → ℤ
last_version none = pos 0
last_version (some cursor) = cursor.last_version

-- The version up to which the transitions of a Monitor are projected.
abbrev pub projected_version : Db → String → String → ℤ
projected_version db organization_id monitor_id =
    last_version (find_where (cursor_of organization_id monitor_id) db.cursors)

pub advanced_version :
    (organization_id monitor_id : String) (version : ℤ) (now : Time) (rows : List Cursor)
    → last_version (
        find_where
          (cursor_of organization_id monitor_id)
          (advance_cursor organization_id monitor_id version now rows))
      ≡ version
advanced_version organization_id monitor_id version now [] =
    rw (str_eq_refl organization_id, str_eq_refl monitor_id) refl
advanced_version organization_id monitor_id version now (row ∷ rows) =
    elim (Bool-cases (cursor_of organization_id monitor_id row)) [
      | inl h ↦ rw (h, h) refl
      | inr h ↦ rw (h, h) (advanced_version organization_id monitor_id version now rows)
    ]

not_both :
    (o m organization_id monitor_id : String) (row : Cursor)
    → str_eq o organization_id && str_eq m monitor_id ≡ false
    → cursor_of organization_id monitor_id row ≡ true
    → cursor_of o m row ≡ false
not_both o m organization_id monitor_id row other h = ground (
  arith,
  str_eq_iff organization_id row.organization_id,
  str_eq_iff monitor_id row.monitor_id,
  str_eq_iff o row.organization_id,
  str_eq_iff m row.monitor_id,
  str_eq_iff o organization_id,
  str_eq_iff m monitor_id,
)

pub other_version :
    (o m organization_id monitor_id : String) (version : ℤ) (now : Time) (rows : List Cursor)
    → str_eq o organization_id && str_eq m monitor_id ≡ false
    → last_version
        (find_where (cursor_of o m) (advance_cursor organization_id monitor_id version now rows))
      ≡ last_version (find_where (cursor_of o m) rows)
other_version o m organization_id monitor_id version now [] other = rw other refl
other_version o m organization_id monitor_id version now (row ∷ rows) other =
    let rest = other_version o m organization_id monitor_id version now rows other in
    elim (Bool-cases (cursor_of organization_id monitor_id row)) [
      | inl h ↦
          let apart = not_both o m organization_id monitor_id row other h in rw (h, apart) refl
      | inr h ↦ elim (Bool-cases (cursor_of o m row)) [
        | inl k ↦ rw (h, k) refl
        | inr k ↦ rw (h, k) rest
      ]
    ]

next_version_lem :
    (version : ℤ) (n : ℕ)
    → eqb_ℤ version (next_version (pos n)) ≡ true
    → leb_ℤ version (pos n) ≡ false
    → version ≡ pos (suc n)
unfolding next_version wrap64 ◌+ℤ◌
next_version_lem version n e b = ground arith

-- A version that is expected and not behind is the one after the last.
pub expected_next :
    (event : HealthTransitioned) (cursor : Option Cursor) (n : ℕ)
    → last_version cursor ≡ pos n
    → is_behind event cursor ≡ false
    → eqb_ℤ event.aggregate_version (expected_version cursor) ≡ true
    → event.aggregate_version ≡ pos (suc n)
expected_next event none n l b e = ground (arith, eq_of_parts event.aggregate_version (pos 1))
expected_next event (some cursor) n l b e =
    next_version_lem event.aggregate_version n (rw l at e) (rw l at b)

pub matched_version :
    (event : HealthTransitioned) (row : Transition)
    → matches event row ≡ true
    → (row.monitor_id ≡ event.monitor_id) × (row.version ≡ event.aggregate_version)
matched_version event row e = (
  ground (arith, str_eq_iff row.monitor_id event.monitor_id),
  eq_of_parts row.version event.aggregate_version (ground arith),
)

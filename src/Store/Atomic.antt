-- ===== src/Store/Atomic.antt =====
-- What `Complete` and `RecordSkipped` leave behind: all of it, or nothing.
use probehive.Base.{
  String, Bool, true, some, List, [], ◌∷◌, All, ok, err, ◌≡◌, ◌⊎◌, inl, inr, refl, subst, ap, arith,
  str_eq_refl, str_eq_iff,
}
use probehive.Base.Time.{to_utc}
use probehive.Run.Model.{Run}
use probehive.Run.Observation.{Observation}
use probehive.Run.Events.{Json, OutboxEntry}
use probehive.Run.Scheduler.{StoreError}
use probehive.Store.Tables.{Holds, any-Holds}
use probehive.Store.Distinct.{Holds-updated}
use probehive.Store.Rows.{Db, held_by, completed_row, stored_observation}
use probehive.Store.Runs.{complete, insert_entries, find_observation, may_complete}
use probehive.Store.Cases.{complete_cases}

abbrev pub stored_entry : OutboxEntry → OutboxEntry
stored_entry entry = record entry { created_at = to_utc entry.created_at }

insert_entries_keeps :
    (entries rows result : List OutboxEntry) (x : OutboxEntry)
    → insert_entries entries rows ≡ some result
    → Holds x rows
    → Holds x result
unfolding insert_entries
insert_entries_keeps [] rows result x e h = subst (Holds x) (ground arith) h
insert_entries_keeps (y ∷ ys) rows result x e h =
    insert_entries_keeps ys (stored_entry y ∷ rows) result x (ground arith) (inr h)

insert_entries_holds :
    (entries rows result : List OutboxEntry)
    → insert_entries entries rows ≡ some result
    → All (λ y. Holds (stored_entry y) result) entries
unfolding insert_entries
insert_entries_holds [] rows result e = tt
insert_entries_holds (y ∷ ys) rows result e =
    let rest : insert_entries ys (stored_entry y ∷ rows) ≡ some result = ground arith in
    (
      insert_entries_keeps ys (stored_entry y ∷ rows) result (stored_entry y) rest (inl refl),
      insert_entries_holds ys (stored_entry y ∷ rows) result rest,
    )

-- What a completion is to leave: the row with the outcome and no lease, the observation under the
-- Run, and every entry.
pub record IsWritten (t : Db) (value row : Run) (observation : Observation)
    (entries : List OutboxEntry) : Type 0 where
  pub recorded : Holds (completed_row value row) t.runs
  pub observed :
      find_observation t observation.organization_id value.id value.slot.scheduled_for
      ≡ some (stored_observation observation)
  pub queued : All (λ entry. Holds (stored_entry entry) t.outbox) entries

module _ (json : Json) (available : Bool) (db : Db) (value : Run) (holder : String)
    (observation : Observation) (entries : List OutboxEntry) where
  observed_after :
      (t : Db)
      → may_complete json value holder observation entries ≡ true
      → t.observations ≡ stored_observation observation ∷ db.observations
      → find_observation t observation.organization_id value.id value.slot.scheduled_for
        ≡ some (stored_observation observation)
  unfolding find_observation may_complete
  observed_after t may e = ground (
    arith,
    str_eq_iff observation.run_id value.id,
    str_eq_iff value.id observation.run_id,
    str_eq_refl observation.organization_id,
  )

  -- `Complete` changes nothing and reports an error; or the Run was in flight under the holder, and
  -- its row, its observation and all its entries are written.
  pub complete_atomic :
      ((e : StoreError) × (complete json available db value holder observation entries
          ≡ (err e, db)))
      ⊎ ((row : Run) × (((complete json available db value holder observation entries).0 ≡ ok tt)
            × (Holds row db.runs
                × (held_by value holder row ≡ true)
                × IsWritten
                    (complete json available db value holder observation entries).1
                    value
                    row
                    observation
                    entries)))
  complete_atomic = elim (complete_cases json available db value holder observation entries) [
    | inl (e, c) ↦ inl (e, c)
    | inr (outbox, (candidates, (may, held, _, inserted, _, c))) ↦
        let (row, (there, hits)) = any-Holds (held_by value holder) db.runs held in
        inr (
          row,
          (
            ap (λ p. p.0) c,
            (
              there,
              hits,
              rw c (record {
                recorded =
                    Holds-updated (held_by value holder) (completed_row value) row db.runs hits
                      there;
                observed = observed_after _ may refl;
                queued = insert_entries_holds entries db.outbox outbox inserted;
              }),
            ),
          ),
        )
  ]

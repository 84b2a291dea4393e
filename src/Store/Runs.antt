-- ===== src/Store/Runs.antt =====
-- internal/postgres/run.go: the statements of `RunStore` on the rows of runs and what belongs to
-- them. `available` says whether the database carries a statement or a transaction out: it may
-- refuse one for a reason that the rows do not show, and then nothing is changed. An error that is
-- neither `ErrSlotHeld` nor `ErrLeaseLost` is `failed`.
use probehive.Base.{
  ℕ, String, Bool, true, ◌&&◌, ◌||◌, not, Option, none, some, List, [], ◌∷◌, Result, ok, err,
  if◌then◌else◌, is_empty, str_eq, length, leb,
}
use probehive.Base.Time.{Time, same_instant, to_utc}
use probehive.Run.Model.{ConfirmationCause, Run, is_confirmation, is_in_flight, is_skipped}
use probehive.Run.Lifecycle.{new_run, restore_with_cause}
use probehive.Run.Observation.{Observation, validate_observation}
use probehive.Run.Events.{Json, OutboxEntry, validate_entry}
use probehive.Run.Scheduler.{StoreError, slot_held, lease_lost, failed}
use probehive.Store.Rows.{
  CandidateLink, Db, is_manual, contends, collides, claimed_row, manual_row, scanned, is_ok,
  reclaimable, leased_to, held_by, same_observation, stored_observation, completed_row, stored_slot,
}
use probehive.Store.Tables.{any, find_where, update_where, delete_where}

unfoldable pub insert_claim : Db → Run → Result StoreError Run × Db
insert_claim db value =
    let row = claimed_row value in
    if any (collides row) db.runs
    then (err failed, db)
    else (scanned (restore_with_cause row), record db { runs = row ∷ db.runs })

unfoldable pub claim_contended : Db → Run → Time → Run → Result StoreError Run × Db
claim_contended db value now row =
    if reclaimable row now
    then (
      scanned (restore_with_cause (leased_to value row)),
      record db { runs = update_where (contends value) (leased_to value) db.runs },
    )
    else (err slot_held, db)

unfoldable pub insert_manual : Db → Run → Result StoreError Run × Db
insert_manual db value =
    if any (collides (manual_row value)) db.runs
    then (err failed, db)
    else (ok value, record db { runs = manual_row value ∷ db.runs })

unfoldable pub claim_slot : Bool → Db → Run → Time → Result StoreError Run × Db
unfolding insert_claim claim_contended insert_manual
claim_slot available db value now =
    if not (is_in_flight value.outcome) || not available
    then (err failed, db)
    else if is_manual value.kind
    then insert_manual db value
    else elim (find_where (contends value) db.runs) [
      | none ↦ insert_claim db value
      | some row ↦ claim_contended db value now row
    ]

unfoldable pub renew_lease : Bool → Db → Run → Result StoreError (Unit {0}) × Db
renew_lease available db value =
    if not available
    then (err failed, db)
    else if any (held_by value value.lease_holder) db.runs
    then (
      ok tt,
      record db {
        runs =
            update_where (held_by value value.lease_holder)
              (λ row. record row { lease_expires_at = to_utc value.lease_expires_at }) db.runs;
      },
    )
    else (err lease_lost, db)

unfoldable pub release_slot : Bool → Db → Run → Result StoreError (Unit {0}) × Db
release_slot available db value =
    if not available
    then (err failed, db)
    else if any (held_by value value.lease_holder) db.runs
    then (ok tt, record db { runs = delete_where (held_by value value.lease_holder) db.runs })
    else (err lease_lost, db)

unfoldable pub find_observation : Db → String → String → Time → Option Observation
find_observation db organization_id id scheduled_for =
    find_where
      (λ row. same_observation id scheduled_for row && str_eq organization_id row.organization_id)
      db.observations

-- The loop over `insertOutboxEntry`; a known identifier is refused.
unfoldable pub insert_entries : List OutboxEntry → List OutboxEntry → Option (List OutboxEntry)
insert_entries [] rows = some rows
insert_entries (entry ∷ entries) rows =
    if any (λ row. str_eq entry.id row.id) rows
    then none
    else insert_entries entries (record entry { created_at = to_utc entry.created_at } ∷ rows)

abbrev unlinked : Run → Option (String × Time) → Bool
unlinked value none = true
unlinked value (some (id, scheduled_for)) =
    str_eq value.id id && same_instant value.slot.scheduled_for scheduled_for

-- `SET confirmation_run_id = …`, for the candidate of the Run that is not linked to another.
abbrev pub links : Run → ConfirmationCause → CandidateLink → Bool
links value cause row =
    str_eq cause.candidate_id row.id
    && str_eq value.slot.organization_id row.organization_id
    && unlinked value row.confirmation_run

unfoldable pub link_candidate :
    Run → Option ConfirmationCause → List CandidateLink → Option (List CandidateLink)
link_candidate value none rows = some rows
link_candidate value (some cause) rows =
    if any (links value cause) rows
    then some (
        update_where (links value cause)
          (λ row. record row {
            confirmation_run = some (value.id, to_utc value.slot.scheduled_for);
          })
          rows)
    else none

abbrev pub max_outbox_batch_size : ℕ
max_outbox_batch_size = 32

-- The inserts and the link after the update; `none` rolls the transaction back.
unfoldable pub written :
    Db
    → Run
    → String
    → Observation
    → Option (List OutboxEntry)
    → Option (List CandidateLink)
    → Result StoreError (Unit {0}) × Db
written db value holder observation (some outbox) (some candidates) =
    if any (same_observation observation.run_id observation.scheduled_for) db.observations
    then (err failed, db)
    else (
      ok tt,
      record {
        runs = update_where (held_by value holder) (completed_row value) db.runs;
        observations = stored_observation observation ∷ db.observations;
        outbox = outbox;
        candidates = candidates;
      },
    )
written db value holder observation (some outbox) none = (err failed, db)
written db value holder observation none candidates = (err failed, db)

abbrev pub skipped_row : Run → Run
skipped_row value = record (new_run value.id (stored_slot value.slot) value.kind) {
  outcome = value.outcome;
}

unfoldable pub insert_skipped :
    Db → Run → Option (List OutboxEntry) → Result StoreError (Unit {0}) × Db
insert_skipped db value none = (err failed, db)
insert_skipped db value (some outbox) =
    if any (collides (skipped_row value)) db.runs || is_confirmation value.kind
    then (err failed, db)
    else (ok tt, record db { runs = skipped_row value ∷ db.runs; outbox = outbox })

module _ (json : Json) where
  abbrev pub entries_valid : List OutboxEntry → Bool
  entries_valid [] = true
  entries_valid (entry ∷ entries) = is_ok (validate_entry json entry) && entries_valid entries

  -- What `Complete` tests before its transaction.
  unfoldable pub may_complete : Run → String → Observation → List OutboxEntry → Bool
  may_complete value holder observation entries =
      not (is_in_flight value.outcome)
      && not (is_skipped value.outcome)
      && not (is_empty holder)
      && is_ok (validate_observation observation)
      && str_eq observation.run_id value.id
      && same_instant observation.scheduled_for value.slot.scheduled_for
      && leb (length entries) max_outbox_batch_size
      && entries_valid entries

  unfoldable pub complete :
      Bool → Db → Run → String → Observation → List OutboxEntry → Result StoreError (Unit {0}) × Db
  unfolding written
  complete available db value holder observation entries =
      if not (may_complete value holder observation entries) || not available
      then (err failed, db)
      else if any (held_by value holder) db.runs
      then written db value holder observation (insert_entries entries db.outbox)
          (link_candidate value value.confirmation db.candidates)
      else (err lease_lost, db)

  unfoldable pub may_skip : Run → List OutboxEntry → Bool
  may_skip value entries =
      is_skipped value.outcome
      && not (is_manual value.kind)
      && leb (length entries) max_outbox_batch_size
      && entries_valid entries

  unfoldable pub record_skipped :
      Bool → Db → Run → List OutboxEntry → Result StoreError (Unit {0}) × Db
  unfolding insert_skipped
  record_skipped available db value entries =
      if not (may_skip value entries) || not available
      then (err failed, db)
      else if any (contends value) db.runs
      then (err slot_held, db)
      else insert_skipped db value (insert_entries entries db.outbox)

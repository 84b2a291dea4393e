-- ===== src/Store/Cases.antt =====
-- The branches of `RunStore`'s calls, each with its result and the rows that it leaves.
use probehive.Base.{
  String, Bool, true, false, not, ◌||◌, none, some, List, ◌∷◌, ok, err, ◌≡◌, ◌⊎◌, inl, inr, refl,
  arith, Bool-cases, Option-cases,
}
use probehive.Base.Time.{Time, to_utc}
use probehive.Run.Model.{Run, is_in_flight, is_confirmation}
use probehive.Run.Observation.{Observation}
use probehive.Run.Events.{Json, OutboxEntry}
use probehive.Run.Scheduler.{StoreError, slot_held, lease_lost, failed}
use probehive.Store.Tables.{any, find_where, update_where, delete_where}
use probehive.Store.Rows.{
  Db, CandidateLink, is_manual, contends, collides, manual_row, held_by, completed_row,
  same_observation, stored_observation,
}
use probehive.Store.Runs.{
  insert_claim, claim_contended, insert_manual, claim_slot, renew_lease, release_slot, may_complete,
  written, complete, insert_entries, link_candidate, skipped_row, may_skip, insert_skipped,
  record_skipped,
}

pub claim_cases :
    (available : Bool) (db : Db) (value : Run) (now : Time)
    → (claim_slot available db value now ≡ (err failed, db))
      ⊎ ((is_manual value.kind ≡ true)
          × (claim_slot available db value now ≡ insert_manual db value))
      ⊎ ((is_manual value.kind ≡ false)
          × (is_in_flight value.outcome ≡ true)
          × (find_where (contends value) db.runs ≡ none)
          × (claim_slot available db value now ≡ insert_claim db value))
      ⊎ ((row : Run) × ((is_manual value.kind ≡ false)
            × (find_where (contends value) db.runs ≡ some row)
            × (claim_slot available db value now ≡ claim_contended db value now row)))
unfolding claim_slot
claim_cases available db value now = elim (Option-cases (find_where (contends value) db.runs)) [
  | inl e ↦ ground arith
  | inr (row, e) ↦ elim (Bool-cases (not (is_in_flight value.outcome) || not available)) [
    | inl b ↦ inl (ground arith)
    | inr b ↦ elim (Bool-cases (is_manual value.kind)) [
      | inl m ↦ inr (inl (m, ground arith))
      | inr m ↦ inr (inr (inr (row, (m, e, ground arith))))
    ]
  ]
]

pub insert_manual_cases :
    (db : Db) (value : Run)
    → (insert_manual db value ≡ (err failed, db))
      ⊎ ((any (collides (manual_row value)) db.runs ≡ false)
          × (insert_manual db value ≡ (ok value, record db { runs = manual_row value ∷ db.runs })))
unfolding insert_manual
insert_manual_cases db value = ground arith

abbrev pub renewed : Run → Run → Run
renewed value row = record row { lease_expires_at = to_utc value.lease_expires_at }

pub renew_cases :
    (available : Bool) (db : Db) (value : Run)
    → ((e : StoreError) × (renew_lease available db value ≡ (err e, db)))
      ⊎ (renew_lease available db value ≡ (
        ok tt,
        record db {
          runs = update_where (held_by value value.lease_holder) (renewed value) db.runs;
        },
      ))
unfolding renew_lease
renew_cases available db value = elim (Bool-cases (not available)) [
  | inl b ↦ inl (failed, ground arith)
  | inr b ↦ elim (Bool-cases (any (held_by value value.lease_holder) db.runs)) [
    | inl h ↦ inr (ground arith)
    | inr h ↦ inl (lease_lost, ground arith)
  ]
]

pub release_cases :
    (available : Bool) (db : Db) (value : Run)
    → ((e : StoreError) × (release_slot available db value ≡ (err e, db)))
      ⊎ (release_slot available db value
          ≡ (ok tt, record db { runs = delete_where (held_by value value.lease_holder) db.runs }))
unfolding release_slot
release_cases available db value = elim (Bool-cases (not available)) [
  | inl b ↦ inl (failed, ground arith)
  | inr b ↦ elim (Bool-cases (any (held_by value value.lease_holder) db.runs)) [
    | inl h ↦ inr (ground arith)
    | inr h ↦ inl (lease_lost, ground arith)
  ]
]

module _ (json : Json) (available : Bool) (db : Db) (value : Run) where
  -- What a completion that is carried out leaves.
  abbrev pub after_complete : String → Observation → List OutboxEntry → List CandidateLink → Db
  after_complete holder observation outbox candidates = record {
    runs = update_where (held_by value holder) (completed_row value) db.runs;
    observations = stored_observation observation ∷ db.observations;
    outbox = outbox;
    candidates = candidates;
  }

  abbrev pub Completes : String → Observation → List OutboxEntry → Type 0
  Completes holder observation entries =
      (outbox : List OutboxEntry) × ((candidates : List CandidateLink) × ((may_complete json value
              holder observation entries
            ≡ true)
          × (any (held_by value holder) db.runs ≡ true)
          × (any (same_observation observation.run_id observation.scheduled_for) db.observations
              ≡ false)
          × (insert_entries entries db.outbox ≡ some outbox)
          × (link_candidate value value.confirmation db.candidates ≡ some candidates)
          × (complete json available db value holder observation entries
              ≡ (ok tt, after_complete holder observation outbox candidates))))

  written_cases :
      (holder : String) (observation : Observation) (outbox : List OutboxEntry)
      (candidates : List CandidateLink)
      → (written db value holder observation (some outbox) (some candidates) ≡ (err failed, db))
        ⊎ ((any (same_observation observation.run_id observation.scheduled_for) db.observations
              ≡ false)
            × (written db value holder observation (some outbox) (some candidates)
                ≡ (ok tt, after_complete holder observation outbox candidates)))
  unfolding written
  written_cases holder observation outbox candidates = ground arith

  -- `Complete` fails and changes nothing, or does all that it is asked to.
  pub complete_cases :
      (holder : String) (observation : Observation) (entries : List OutboxEntry)
      → ((e : StoreError) × (complete json available db value holder observation entries
            ≡ (err e, db)))
        ⊎ Completes holder observation entries
  unfolding complete
  complete_cases holder observation entries =
      elim (Bool-cases
        (not (may_complete json value holder observation entries) || not available)) [
          | inl b ↦ inl (failed, rw b refl)
          | inr b ↦ elim (Bool-cases (any (held_by value holder) db.runs)) [
            | inr h ↦ inl (lease_lost, rw (b, h) refl)
            | inl h ↦ elim (Option-cases (insert_entries entries db.outbox)) [
              | inl o ↦ inl (failed, rw (b, h, o) refl)
              | inr (outbox, o) ↦
                  elim (Option-cases (link_candidate value value.confirmation db.candidates)) [
                    | inl l ↦ inl (failed, rw (b, h, o, l) refl)
                    | inr (candidates, l) ↦
                        elim (written_cases holder observation outbox candidates) [
                          | inl w ↦ inl (failed, rw (b, h, o, l) w)
                          | inr (fresh, w) ↦ inr (
                            outbox,
                            (candidates, (ground arith, h, fresh, o, l, rw (b, h, o, l) w)),
                          )
                        ]
                  ]
            ]
          ]
        ]

  abbrev pub Skips : List OutboxEntry → Type 0
  Skips entries =
      (outbox : List OutboxEntry) × ((may_skip json value entries ≡ true)
        × (any (contends value) db.runs ≡ false)
        × (any (collides (skipped_row value)) db.runs ≡ false)
        × (insert_entries entries db.outbox ≡ some outbox)
        × (record_skipped json available db value entries
            ≡ (ok tt, record db { runs = skipped_row value ∷ db.runs; outbox = outbox })))

  -- `RecordSkipped` fails and changes nothing, or inserts the row and its entries.
  pub skip_cases :
      (entries : List OutboxEntry)
      → ((e : StoreError) × (record_skipped json available db value entries ≡ (err e, db)))
        ⊎ Skips entries
  unfolding record_skipped insert_skipped
  skip_cases entries = elim (Bool-cases (not (may_skip json value entries) || not available)) [
    | inl b ↦ inl (failed, rw b refl)
    | inr b ↦ elim (Bool-cases (any (contends value) db.runs)) [
      | inl h ↦ inl (slot_held, rw (b, h) refl)
      | inr h ↦ elim (Option-cases (insert_entries entries db.outbox)) [
        | inl o ↦ inl (failed, rw (b, h, o) refl)
        | inr (outbox, o) ↦
            elim (Bool-cases
              (any (collides (skipped_row value)) db.runs || is_confirmation value.kind)) [
                | inl c ↦ inl (failed, rw (b, h, o, c) refl)
                | inr c ↦ inr (outbox, (ground arith, h, ground arith, o, rw (b, h, o, c) refl))
              ]
      ]
    ]
  ]

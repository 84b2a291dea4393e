-- ===== src/Store/Histories.antt =====
-- What any number of workers can do to the rows of runs: the calls of internal/postgres/run.go in any
-- order. `DropExpiredPartitions` of internal/postgres/partitions.go, which deletes the Runs and the
-- observations of expired months, is left out.
use probehive.Base.{String, Bool, List, ◌≡◌}
use probehive.Base.Time.{Time}
use probehive.Run.Model.{Run}
use probehive.Run.Observation.{Observation}
use probehive.Run.Events.{Json, OutboxEntry}
use probehive.Store.Rows.{Db}
use probehive.Store.Runs.{claim_slot, renew_lease, release_slot, complete, record_skipped}

module _ (json : Json) where
  -- One call of `RunStore` that claims, renews, releases, completes or skips, with any arguments,
  -- carried out or refused by the database. No expired partition is dropped.
  pub data Call (s t : Db) : Type 0 where
    claims :
        (available : Bool) (value : Run) (now : Time)
        → (claim_slot available s value now).1 ≡ t
        → Call s t
    renews : (available : Bool) (value : Run) → (renew_lease available s value).1 ≡ t → Call s t
    releases : (available : Bool) (value : Run) → (release_slot available s value).1 ≡ t → Call s t
    completes :
        (available : Bool) (value : Run) (holder : String) (observation : Observation)
        (entries : List OutboxEntry)
        → (complete json available s value holder observation entries).1 ≡ t
        → Call s t
    skips :
        (available : Bool) (value : Run) (entries : List OutboxEntry)
        → (record_skipped json available s value entries).1 ≡ t
        → Call s t

  pub data Reach (s : Db) : Db → Type 0 where
    here : Reach s s
    next : {t u : Db} → Reach s t → Call t u → Reach s u

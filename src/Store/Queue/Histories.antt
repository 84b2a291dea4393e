-- ===== src/Store/Queue/Histories.antt =====
-- Any sequence of `OutboxStore`'s calls.
use probehive.Base.{ℕ, String, Bool, ◌≡◌}
use probehive.Base.Time.{Time}
use probehive.Outbox.Model.{Entry, Code}
use probehive.Store.Queue.{Db, claim, succeed, fail, enqueue}

-- A call of `OutboxStore` with any arguments, carried out or refused by the database, or a new entry.
-- `Cleanup`, which only deletes what is recorded for longer than the retention, is left out.
pub data Call (s t : Db) : Type 0 where
  claims :
      (available : Bool) (locked : Entry → Bool) (id_before : String → String → Bool)
      (holder : String) (now expires_at : Time) (limit : ℕ)
      → (claim available locked id_before s holder now expires_at limit).1 ≡ t
      → Call s t
  succeeds :
      (available : Bool) (entry : Entry) (holder : String) (now : Time)
      → (succeed available s entry holder now).1 ≡ t
      → Call s t
  fails :
      (available : Bool) (entry : Entry) (holder : String) (code : Code) (later now : Time)
      (dead : Bool)
      → (fail available s entry holder code later now dead).1 ≡ t
      → Call s t
  queues : (entry : Entry) → enqueue s entry ≡ t → Call s t

pub data Reach (s : Db) : Db → Type 0 where
  here : Reach s s
  next : {t u : Db} → Reach s t → Call t u → Reach s u

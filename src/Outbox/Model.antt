-- ===== src/Outbox/Model.antt =====
-- internal/outbox/outbox.go: entries, failure codes, and what the dispatcher asks and answers.
use probehive.Base.{ℕ, String, Bool, List}
use probehive.Base.Int.{ℤ}
use probehive.Base.Time.{Time}

pub record Entry : Type 0 where
  pub id : String
  pub organization_id : String
  pub topic : String
  pub payload : List ℕ
  pub attempts : ℤ
  pub created_at : Time
  pub available_at : Time
  pub lease_holder : String
  pub lease_expires_at : Time
  pub gap_first_seen_at : Time

-- `empty` is the empty string, which stands for no failure.
pub data Code : Type 0 where
  empty : Code
  topic_unknown : Code
  payload_invalid : Code
  organization_mismatch : Code
  version_gap : Code
  handler_failed : Code
  handler_cancelled : Code
  other : String → Code

-- What a handler returns: nil, an error that is a `*Failure`, or another error.
pub data Handled : Type 0 where
  done : Handled
  failure : Code → Bool → Handled
  broken : Handled

pub data StoreAnswer : Type 0 where
  stored lease_lost failed : StoreAnswer

-- The call that ends the handling of an entry.
pub data StoreCall : Type 0 where
  succeeds : StoreCall
  fails : Code → Time → Bool → StoreCall

pub data HandledOutcome : Type 0 where
  succeeded retried dead_lettered lost : HandledOutcome

pub record TickResult : Type 0 where
  pub claimed : ℕ
  pub succeeded : ℕ
  pub retried : ℕ
  pub dead_lettered : ℕ
  pub lost : ℕ

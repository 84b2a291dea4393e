-- ===== src/Run/Validity.antt =====
-- The Runs that internal/run/run.go lets exist, and how a Run changes.
use probehive.Base.{
  String, Bool, true, false, Option, none, some, ok, is_empty, ◌≡◌, ◌≢◌, ◌⊎◌, inl, inr, refl, arith,
}
use probehive.Base.Time.{Time, zero_time, before}
use probehive.Run.Model.{
  Kind, Outcome, Slot, ConfirmationCause, Run, is_utc, valid_kind, is_confirmation,
  valid_execution_outcome, is_in_flight, validate_slot, validate_cause,
}
use probehive.Run.Lifecycle.{claim, claim_confirmation, skip, renew_lease, complete}

-- The cause that a kind of Run carries.
abbrev pub HasCause : Bool → Option ConfirmationCause → Type 0
HasCause true none = ⊥
HasCause true (some cause) = validate_cause cause ≡ ok tt
HasCause false none = Unit {0}
HasCause false (some cause) = ⊥

-- A claimed Run has a lease and nothing else, a skipped one has nothing, an executed one has ordered
-- UTC instants and no lease.
abbrev pub HasState : Run → Type 0
HasState r =
    ((r.outcome ≡ Outcome.in_flight)
      × (is_empty r.lease_holder ≡ false)
      × (is_utc r.lease_expires_at ≡ true)
      × (r.started_at ≡ zero_time)
      × (r.finished_at ≡ zero_time))
    ⊎ ((r.outcome ≡ Outcome.skipped)
        × (r.lease_holder ≡ "")
        × (r.lease_expires_at ≡ zero_time)
        × (r.started_at ≡ zero_time)
        × (r.finished_at ≡ zero_time))
    ⊎ ((valid_execution_outcome r.outcome ≡ true)
        × (r.lease_holder ≡ "")
        × (r.lease_expires_at ≡ zero_time)
        × (is_utc r.started_at ≡ true)
        × (is_utc r.finished_at ≡ true)
        × (before r.finished_at r.started_at ≡ false))

pub record IsValid (r : Run) : Type 0 where
  pub identified : is_empty r.id ≡ false
  pub slot_valid : validate_slot r.slot ≡ ok tt
  pub kind_valid : valid_kind r.kind ≡ true
  pub cause : HasCause (is_confirmation r.kind) r.confirmation
  pub state : HasState r

claim-IsValid :
    (id : String) (slot : Slot) (kind : Kind) (holder : String) (expires : Time) (r : Run)
    → claim id slot kind holder expires ≡ ok r
    → IsValid r
unfolding claim
claim-IsValid id slot kind holder expires r eq = ground arith

claim_confirmation-IsValid :
    (id : String) (slot : Slot) (cause : ConfirmationCause) (holder : String) (expires : Time)
    (r : Run)
    → claim_confirmation id slot cause holder expires ≡ ok r
    → IsValid r
unfolding claim_confirmation
claim_confirmation-IsValid id slot cause holder expires r eq = ground arith

skip-IsValid :
    (id : String) (slot : Slot) (kind : Kind) (r : Run)
    → kind ≢ Kind.confirmation
    → skip id slot kind ≡ ok r
    → IsValid r
unfolding skip
skip-IsValid id slot kind r n eq = ground arith

renew_lease-IsValid :
    (r s : Run) (expires : Time) → IsValid r → renew_lease r expires ≡ ok s → IsValid s
unfolding renew_lease
renew_lease-IsValid r s expires v eq = ground arith

-- A recorded outcome, as an equation.
complete_fields :
    (r s : Run) (outcome : Outcome) (started finished : Time)
    → complete r outcome started finished ≡ ok s
    → (is_in_flight r.outcome ≡ true)
      × (valid_execution_outcome outcome ≡ true)
      × (is_utc started ≡ true)
      × (is_utc finished ≡ true)
      × (before finished started ≡ false)
      × (s ≡ record r {
        outcome = outcome;
        started_at = started;
        finished_at = finished;
        lease_holder = "";
        lease_expires_at = zero_time;
      })
unfolding complete
complete_fields r s outcome started finished eq = ground arith

complete-IsValid :
    (r s : Run) (outcome : Outcome) (started finished : Time)
    → IsValid r
    → complete r outcome started finished ≡ ok s
    → IsValid s
complete-IsValid r s outcome started finished v eq =
    let f = complete_fields r s outcome started finished eq in
    rw f.5 (record {
      identified = v.identified;
      slot_valid = v.slot_valid;
      kind_valid = v.kind_valid;
      cause = v.cause;
      state = inr (inr (f.1, refl, refl, f.2, f.3, f.4));
    })

-- What `Skip` makes of the kind of a confirmation: a skipped Run without a cause.
pub record IsSkippedConfirmation (r : Run) : Type 0 where
  pub confirming : r.kind ≡ Kind.confirmation
  pub causeless : r.confirmation ≡ none
  pub identified : is_empty r.id ≡ false
  pub slot_valid : validate_slot r.slot ≡ ok tt
  pub outcome : r.outcome ≡ Outcome.skipped

skip-IsSkippedConfirmation :
    (id : String) (slot : Slot) (r : Run)
    → skip id slot Kind.confirmation ≡ ok r
    → IsSkippedConfirmation r
unfolding skip
skip-IsSkippedConfirmation id slot r eq = record {
  confirming = ground arith;
  causeless = ground arith;
  identified = ground arith;
  slot_valid = ground arith;
  outcome = ground arith;
}

abbrev pub Classified : Run → Type 0
Classified r = IsValid r ⊎ IsSkippedConfirmation r

skip-Classified :
    (id : String) (slot : Slot) (kind : Kind) (r : Run) → skip id slot kind ≡ ok r → Classified r
skip-Classified id slot Kind.confirmation r eq = inr (skip-IsSkippedConfirmation id slot r eq)
skip-Classified id slot Kind.scheduled r eq = inl (skip-IsValid id slot Kind.scheduled r (cc) eq)
skip-Classified id slot Kind.manual r eq = inl (skip-IsValid id slot Kind.manual r (cc) eq)
skip-Classified id slot (Kind.other k) r eq = inl (skip-IsValid id slot (Kind.other k) r (cc) eq)

-- Only a Run in flight is renewed or completed.
renew-in_flight :
    (r s : Run) (expires : Time) → renew_lease r expires ≡ ok s → is_in_flight r.outcome ≡ true
unfolding renew_lease
renew-in_flight r s expires eq = ground arith

-- Every Run that the operations can make.
pub data Made : Run → Type 0 where
  claimed :
      {r : Run} (id : String) (slot : Slot) (kind : Kind) (holder : String) (expires : Time)
      → claim id slot kind holder expires ≡ ok r
      → Made r
  claimed_confirmation :
      {r : Run} (id : String) (slot : Slot) (cause : ConfirmationCause) (holder : String)
      (expires : Time)
      → claim_confirmation id slot cause holder expires ≡ ok r
      → Made r
  skipped : {r : Run} (id : String) (slot : Slot) (kind : Kind) → skip id slot kind ≡ ok r → Made r
  renewed : {r s : Run} (expires : Time) → Made r → renew_lease r expires ≡ ok s → Made s
  completed :
      {r s : Run} (outcome : Outcome) (started finished : Time)
      → Made r
      → complete r outcome started finished ≡ ok s
      → Made s

renew-Classified :
    (r s : Run) (expires : Time) → Classified r → renew_lease r expires ≡ ok s → Classified s
renew-Classified r s expires (inl v) eq = inl (renew_lease-IsValid r s expires v eq)
renew-Classified r s expires (inr k) eq =
    absurd (ground (arith, renew-in_flight r s expires eq, k.outcome))

complete-Classified :
    (r s : Run) (outcome : Outcome) (started finished : Time)
    → Classified r
    → complete r outcome started finished ≡ ok s
    → Classified s
complete-Classified r s outcome started finished (inl v) eq =
    inl (complete-IsValid r s outcome started finished v eq)
complete-Classified r s outcome started finished (inr k) eq =
    absurd (ground (arith, (complete_fields r s outcome started finished eq).0, k.outcome))

-- A Run that the operations make, in any order, is complete and in one of three states: leased with
-- no outcome and no instants, skipped with nothing else, or executed with ordered UTC instants and
-- no lease; and exactly the confirmation Runs carry a valid cause. The only exception is a skip with
-- the kind of a confirmation, which is recorded as skipped in a valid slot and carries no cause.
pub Made-IsValid : {r : Run} → Made r → IsValid r ⊎ IsSkippedConfirmation r
Made-IsValid (claimed {r = r} id slot kind holder expires eq) =
    inl (claim-IsValid id slot kind holder expires r eq)
Made-IsValid (claimed_confirmation {r = r} id slot cause holder expires eq) =
    inl (claim_confirmation-IsValid id slot cause holder expires r eq)
Made-IsValid (skipped {r = r} id slot kind eq) = skip-Classified id slot kind r eq
Made-IsValid (renewed {r = r} {s = s} expires m eq) =
    renew-Classified r s expires (Made-IsValid m) eq
Made-IsValid (completed {r = r} {s = s} outcome started finished m eq) =
    complete-Classified r s outcome started finished (Made-IsValid m) eq

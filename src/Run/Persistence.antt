-- ===== src/Run/Persistence.antt =====
-- Rows of Runs: what `RestoreWithCause` of internal/run/run.go accepts.
use probehive.Base.{
  String, Bool, true, false, Option, none, some, ok, err, ap, is_empty, ◌≡◌, ◌⊎◌, ◌↔◌, inl, inr,
  refl, arith,
}
use probehive.Base.Time.{Time, zero_time, is_zero, before}
use probehive.Run.Model.{
  Kind, Outcome, Error, Slot, ConfirmationCause, Run, is_utc, valid_kind, is_confirmation,
  valid_execution_outcome, is_in_flight, is_skipped, validate_slot,
}
use probehive.Run.Lifecycle.{
  skip, restore_with_cause, restore_state, restore_in_flight, restore_skipped, restore_executed,
  is_leased,
}
use probehive.Run.Lifecycle.{check_cause}
use probehive.Run.Validity.{IsValid, HasCause, HasState, IsSkippedConfirmation, Made, Made-IsValid}

released : (r : Run) → r.lease_holder ≡ "" → r.lease_expires_at ≡ zero_time → is_leased r ≡ false
released r h e = rw (h, e)

zero_is_zero : (t : Time) → t ≡ zero_time → is_zero t ≡ true
zero_is_zero t e = rw e

outcome_flags :
    (o : Outcome)
    → valid_execution_outcome o ≡ true
    → (is_in_flight o ≡ false) × (is_skipped o ≡ false)
outcome_flags o v = ground arith

restore_claimed :
    (r : Run)
    → is_empty r.lease_holder ≡ false
    → is_utc r.lease_expires_at ≡ true
    → r.started_at ≡ zero_time
    → r.finished_at ≡ zero_time
    → r.outcome ≡ Outcome.in_flight
    → restore_in_flight r ≡ ok r
unfolding restore_in_flight
restore_claimed r h u s f o =
    ground (arith, zero_is_zero r.started_at s, zero_is_zero r.finished_at f)

restore_skip :
    (r : Run)
    → r.lease_holder ≡ ""
    → r.lease_expires_at ≡ zero_time
    → r.started_at ≡ zero_time
    → r.finished_at ≡ zero_time
    → restore_skipped r ≡ ok r
unfolding restore_skipped
restore_skip r h l s f = ground (arith, zero_is_zero r.started_at s, zero_is_zero r.finished_at f)

restore_done :
    (r : Run)
    → valid_execution_outcome r.outcome ≡ true
    → r.lease_holder ≡ ""
    → r.lease_expires_at ≡ zero_time
    → is_utc r.started_at ≡ true
    → is_utc r.finished_at ≡ true
    → before r.finished_at r.started_at ≡ false
    → restore_executed r ≡ ok r
unfolding restore_executed
restore_done r o h l s f b = rw (o, s, f, b) (ground arith)

state-restore : (r : Run) → HasState r → restore_state r ≡ ok r
unfolding restore_state
state-restore r (inl (o, h, u, s, f)) = rw (ap is_in_flight o) (restore_claimed r h u s f o)
state-restore r (inr (inl (o, h, l, s, f))) =
    rw (ap is_in_flight o, released r h l, ap is_skipped o) (restore_skip r h l s f)
state-restore r (inr (inr (o, h, l, s, f, b))) =
    rw ((outcome_flags r.outcome o).0, released r h l, (outcome_flags r.outcome o).1)
      (restore_done r o h l s f b)

check_cause-HasCause :
    (b : Bool) (c : Option ConfirmationCause) → HasCause b c ↔ (check_cause b c ≡ ok tt)
check_cause-HasCause true none = (λ h. absurd h, λ e. cc)
check_cause-HasCause true (some c) = (λ h. h, λ e. e)
check_cause-HasCause false none = (λ h. refl, λ e. tt)
check_cause-HasCause false (some c) = (λ h. absurd h, λ e. cc)

-- The fields of a valid Run are accepted as they are.
IsValid-restore : (r : Run) → IsValid r → restore_with_cause r ≡ ok r
unfolding restore_with_cause
IsValid-restore r v =
    rw
      (
        v.identified,
        v.slot_valid,
        v.kind_valid,
        (check_cause-HasCause (is_confirmation r.kind) r.confirmation).0 v.cause,
      )
      (state-restore r v.state)

SkippedConfirmation-restore :
    (r : Run) → IsSkippedConfirmation r → restore_with_cause r ≡ err Error.cause_required
unfolding restore_with_cause
SkippedConfirmation-restore r k = rw (k.identified, k.slot_valid, k.confirming, k.causeless) refl

-- `RestoreWithCause` gives back, from its own fields, each Run that the operations make by any
-- sequence of claims, renewals, completions and skips; but it refuses the fields of a skip with the
-- kind of a confirmation, for want of a cause. The fields are taken as they are in the Run, before
-- the database rounds instants to whole microseconds.
pub restore-Made :
    {r : Run}
    → Made r
    → (restore_with_cause r ≡ ok r)
      ⊎ (IsSkippedConfirmation r × (restore_with_cause r ≡ err Error.cause_required))
restore-Made {r} m = elim (Made-IsValid m) [
  | inl v ↦ inl (IsValid-restore r v)
  | inr k ↦ inr (k, SkippedConfirmation-restore r k)
]

module _ (row r : Run) where
  restored_in_flight : row.outcome ≡ Outcome.in_flight → restore_in_flight row ≡ ok r → HasState r
  unfolding restore_in_flight
  restored_in_flight o eq =
      inl (ground arith, ground arith, ground arith, ground arith, ground arith)

  restored_skipped : row.outcome ≡ Outcome.skipped → restore_skipped row ≡ ok r → HasState r
  unfolding restore_skipped
  restored_skipped o eq =
      inr (inl (ground arith, ground arith, ground arith, ground arith, ground arith))

  restored_executed : restore_executed row ≡ ok r → HasState r
  unfolding restore_executed
  restored_executed eq =
      inr (inr (ground arith, ground arith, ground arith, ground arith, ground arith, ground arith))

  restored_cases :
      restore_state row ≡ ok r
      → ((row.outcome ≡ Outcome.in_flight) × (restore_in_flight row ≡ ok r))
        ⊎ ((row.outcome ≡ Outcome.skipped) × (restore_skipped row ≡ ok r))
        ⊎ (restore_executed row ≡ ok r)
  unfolding restore_state
  restored_cases eq = ground arith

  restored_state : restore_state row ≡ ok r → HasState r
  restored_state eq = elim (restored_cases eq) [
    | inl (o, e) ↦ restored_in_flight o e
    | inr (inl (o, e)) ↦ restored_skipped o e
    | inr (inr e) ↦ restored_executed e
  ]

  -- What identifies the Run is copied.
  restored_identity :
      restore_state row ≡ ok r
      → (r.id ≡ row.id)
        × (r.slot ≡ row.slot)
        × (r.kind ≡ row.kind)
        × (r.confirmation ≡ row.confirmation)
        × (r.outcome ≡ row.outcome)
  unfolding restore_state restore_in_flight restore_skipped restore_executed
  restored_identity eq = ground arith

  restored_checks :
      restore_with_cause row ≡ ok r
      → (is_empty row.id ≡ false)
        × (validate_slot row.slot ≡ ok tt)
        × (valid_kind row.kind ≡ true)
        × (check_cause (is_confirmation row.kind) row.confirmation ≡ ok tt)
        × (restore_state row ≡ ok r)
  unfolding restore_with_cause
  restored_checks eq = ground arith

  -- A row that is accepted gives a valid Run with the row's identity, slot, kind, cause and outcome.
  pub restore-IsValid :
      restore_with_cause row ≡ ok r
      → IsValid r
        × (r.id ≡ row.id)
        × (r.slot ≡ row.slot)
        × (r.kind ≡ row.kind)
        × (r.confirmation ≡ row.confirmation)
        × (r.outcome ≡ row.outcome)
  restore-IsValid eq =
      let c = restored_checks eq in
      let same = restored_identity c.4 in
      (
        record {
          identified = rw same.0 c.0;
          slot_valid = rw same.1 c.1;
          kind_valid = rw same.2 c.2;
          cause = rw (same.2, same.3) ((check_cause-HasCause _ row.confirmation).1 c.3);
          state = restored_state c.4;
        },
        same.0,
        same.1,
        same.2,
        same.3,
        same.4,
      )

-- `Skip` accepts the kind of a confirmation, and the Run that it then makes has no cause: its row
-- is refused when it is read back.
pub skip_confirmation_unreadable :
    (id : String) (slot : Slot) (r : Run)
    → skip id slot Kind.confirmation ≡ ok r
    → restore_with_cause r ≡ err Error.cause_required
unfolding skip restore_with_cause
skip_confirmation_unreadable id slot r eq = ground arith

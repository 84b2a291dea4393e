-- ===== src/Store/Finality.antt =====
-- A recorded outcome under any history of `RunStore`'s calls.
use probehive.Base.{
  String, Bool, true, false, some, ok, ◌≡◌, ◌≢◌, inl, inr, subst, arith, Bool-cases,
}
use probehive.Base.Time.{Time}
use probehive.Run.Model.{Run, is_in_flight}
use probehive.Run.Events.{Json}
use probehive.Store.Tables.{find_where, Holds}
use probehive.Store.Distinct.{
  find_holds, find-any, any-Absent, Holds-Absent, Apart_unique, Holds-update, Holds-delete,
}
use probehive.Store.Rows.{Db, contends, reclaimable, leased_to, held_by, completed_row}
use probehive.Store.Runs.{insert_claim, claim_contended, claim_slot}
use probehive.Store.Cases.{
  claim_cases, insert_manual_cases, renewed, renew_cases, release_cases, complete_cases, skip_cases,
}
use probehive.Store.Histories.{Call, claims, renews, releases, completes, skips, Reach, here, next}
use probehive.Store.Slots.{IsSound, contends_comm, contends_trans, Reach-IsSound}

held_by_recorded :
    (value r : Run) (holder : String)
    → is_in_flight r.outcome ≡ false
    → held_by value holder r ≡ false
held_by_recorded value r holder e = ground arith

module _ (db : Db) (r : Run) (sound : IsSound db) (held : Holds r db.runs)
    (recorded : is_in_flight r.outcome ≡ false) where
  -- The row that a claim meets is the only row of its slot.
  met_row :
      (value row : Run)
      → find_where (contends value) db.runs ≡ some row
      → contends value r ≡ true
      → row ≡ r
  met_row value row found meets =
      let (there, hits) = find_holds (contends value) db.runs row found in
      Apart_unique contends row r db.runs contends_comm sound.slots there held
        (contends_trans value row r hits meets)

  claim_contended_keeps :
      (t : Db) (value row : Run) (now : Time)
      → find_where (contends value) db.runs ≡ some row
      → (claim_contended db value now row).1 ≡ t
      → Holds r t.runs
  unfolding claim_contended
  claim_contended_keeps t value row now found e = elim (Bool-cases (reclaimable row now)) [
    | inr busy ↦ subst (λ (u : Db). Holds r u.runs) (rw busy at e) held
    | inl free ↦ elim (Bool-cases (contends value r)) [
      | inl meets ↦ let same = met_row value row found meets in absurd (ground (arith, same))
      | inr apart ↦
          subst (λ (u : Db). Holds r u.runs) (rw free at e)
            (Holds-update (contends value) (leased_to value) r db.runs apart held)
    ]
  ]

  insert_claim_keeps : (t : Db) (value : Run) → (insert_claim db value).1 ≡ t → Holds r t.runs
  unfolding insert_claim
  insert_claim_keeps t value e = ground arith

  Call-Holds : (json : Json) (t : Db) → Call json db t → Holds r t.runs
  Call-Holds json t (claims available value now e) = elim (claim_cases available db value now) [
    | inl c ↦ subst (λ (u : Db). Holds r u.runs) (rw c at e) held
    | inr (inl (_, c)) ↦ elim (insert_manual_cases db value) [
      | inl d ↦ subst (λ (u : Db). Holds r u.runs) (rw (c, d) at e) held
      | inr (_, d) ↦ subst (λ (u : Db). Holds r u.runs) (rw (c, d) at e) (inr held)
    ]
    | inr (inr (inl (_, _, _, c))) ↦ insert_claim_keeps t value (rw c at e)
    | inr (inr (inr (row, (_, found, c)))) ↦ claim_contended_keeps t value row now found (rw c at e)
  ]
  Call-Holds json t (renews available value e) = elim (renew_cases available db value) [
    | inl (_, c) ↦ subst (λ (u : Db). Holds r u.runs) (rw c at e) held
    | inr c ↦
        subst (λ (u : Db). Holds r u.runs) (rw c at e)
          (Holds-update (held_by value value.lease_holder) (renewed value) r db.runs
            (held_by_recorded value r value.lease_holder recorded) held)
  ]
  Call-Holds json t (releases available value e) = elim (release_cases available db value) [
    | inl (_, c) ↦ subst (λ (u : Db). Holds r u.runs) (rw c at e) held
    | inr c ↦
        subst (λ (u : Db). Holds r u.runs) (rw c at e)
          (Holds-delete (held_by value value.lease_holder) r db.runs
            (held_by_recorded value r value.lease_holder recorded) held)
  ]
  Call-Holds json t (completes available value holder observation entries e) =
      elim (complete_cases json available db value holder observation entries) [
        | inl (_, c) ↦ subst (λ (u : Db). Holds r u.runs) (rw c at e) held
        | inr (outbox, (candidates, (_, _, _, _, _, c))) ↦
            subst (λ (u : Db). Holds r u.runs) (rw c at e)
              (Holds-update (held_by value holder) (completed_row value) r db.runs
                (held_by_recorded value r holder recorded) held)
      ]
  Call-Holds json t (skips available value entries e) =
      elim (skip_cases json available db value entries) [
        | inl (_, c) ↦ subst (λ (u : Db). Holds r u.runs) (rw c at e) held
        | inr (outbox, (_, _, _, _, c)) ↦ subst (λ (u : Db). Holds r u.runs) (rw c at e) (inr held)
      ]

  -- A claim of the slot is refused.
  refuses_claim :
      (available : Bool) (value x : Run) (now : Time)
      → contends value r ≡ true
      → (claim_slot available db value now).0 ≢ ok x
  unfolding claim_contended
  refuses_claim available value x now meets e = elim (claim_cases available db value now) [
    | inl c ↦ absurd (cc (rw c at e))
    | inr (inl (manual, c)) ↦ absurd (ground (arith, manual))
    | inr (inr (inl (_, _, free, c))) ↦
        let none_meets =
          Holds-Absent contends value r db.runs
            (any-Absent contends value db.runs (find-any (contends value) db.runs free)) held in
        absurd (ground arith)
    | inr (inr (inr (row, (_, found, c)))) ↦
        let same = met_row value row found meets in absurd (ground (arith, rw c at e, same))
  ]

-- Where the rows start with their keys kept, a Run whose outcome is recorded stays as it is
-- through any history of claims, renewals, releases, completions and skips, by any number of workers
-- and whatever the database refuses, as long as no expired partition is dropped.
pub recorded_stays :
    {json : Json} {s t : Db} (r : Run)
    → IsSound s
    → Holds r s.runs
    → is_in_flight r.outcome ≡ false
    → Reach json s t
    → Holds r t.runs
recorded_stays r sound held recorded here = held
recorded_stays {json = json} r sound held recorded (next {t = t} {u = u} before call) =
    Call-Holds t r (Reach-IsSound sound before) (recorded_stays r sound held recorded before)
      recorded json u call

-- Where the rows start with their keys kept, a slot of a non-manual Run whose outcome is recorded
-- is never executed again: after any further history of claims, renewals, releases, completions and
-- skips, and as long as no expired partition is dropped, no claim of a non-manual Run for that slot
-- is granted.
pub recorded_closes :
    {json : Json} {s t : Db} (r value granted : Run) (available : Bool) (now : Time)
    → IsSound s
    → Holds r s.runs
    → is_in_flight r.outcome ≡ false
    → contends value r ≡ true
    → Reach json s t
    → (claim_slot available t value now).0 ≢ ok granted
recorded_closes {t = t} r value granted available now sound held recorded meets history =
    refuses_claim t r (Reach-IsSound sound history) (recorded_stays r sound held recorded history)
      recorded available value granted now meets

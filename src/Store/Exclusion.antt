-- ===== src/Store/Exclusion.antt =====
-- What a granted claim means for the other workers, and for the worker that holds it.
use probehive.Base.{
  String, Bool, true, false, some, List, Result, ok, err, ◌≡◌, ◌≢◌, inl, inr, refl, subst, sym, ap,
  ◌∙◌, arith, Bool-cases, str_eq_iff, str_eq_refl, is_empty,
}
use probehive.Base.Time.{Time}
use probehive.Run.Model as Model
use probehive.Run.Model.{Run, is_in_flight}
use probehive.Run.Lifecycle.{restore_with_cause}
use probehive.Run.Persistence.{restore-IsValid}
use probehive.Run.Observation.{Observation}
use probehive.Run.Events.{Json, OutboxEntry}
use probehive.Run.Scheduler.{StoreError}
use probehive.Store.Tables.{any, find_where, Holds, any-Holds}
use probehive.Store.Distinct.{Holds-any, find_holds, Apart_unique, Holds-updated}
use probehive.Store.Rows.{
  Db, CandidateLink, same_observation, is_manual, contends, same_key, collides, claimed_row,
  reclaimable, leased_to, held_by, scanned,
}
use probehive.Store.Runs.{
  may_complete, written, insert_entries, link_candidate, insert_claim, claim_contended, claim_slot,
  renew_lease, release_slot, complete,
}
use probehive.Store.Cases.{claim_cases, complete_cases}
use probehive.Store.Histories.{claims}
use probehive.Store.Slots.{IsSound, same_key_comm, Call-IsSound}

-- The row that a claim leaves: read back as the granted Run, and leased to the claimant.
abbrev pub Granted : Run → Run → Run → Type 0
Granted value r row =
    (restore_with_cause row ≡ ok r)
    × (row.lease_holder ≡ value.lease_holder)
    × (row.lease_expires_at.instant ≡ value.lease_expires_at.instant)
    × (is_in_flight row.outcome ≡ true)

scanned-ok : (x : Result Model.Error Run) (r : Run) → scanned x ≡ ok r → x ≡ ok r
scanned-ok x r e = ground arith

module _ (db t : Db) (value r : Run) (available : Bool) (now : Time)
    (granted : claim_slot available db value now ≡ (ok r, t))
    (slotted : is_manual value.kind ≡ false) where
  inserted_row :
      is_in_flight value.outcome ≡ true
      → insert_claim db value ≡ (ok r, t)
      → (row : Run) × (Holds row t.runs × Granted value r row)
  unfolding insert_claim
  inserted_row flying e = elim (Bool-cases (any (collides (claimed_row value)) db.runs)) [
    | inl known ↦ absurd (cc (rw known at e))
    | inr fresh ↦
        let made = rw fresh at e in
        (
          claimed_row value,
          (
            subst (λ (u : Db). Holds (claimed_row value) u.runs) (ap (λ p. p.1) made) (inl refl),
            (
              scanned-ok (restore_with_cause (claimed_row value)) r (ap (λ p. p.0) made),
              refl,
              refl,
              refl,
            ),
          ),
        )
  ]

  reclaimed_row :
      (row : Run)
      → find_where (contends value) db.runs ≡ some row
      → claim_contended db value now row ≡ (ok r, t)
      → (taken : Run) × (Holds taken t.runs × Granted value r taken)
  unfolding claim_contended
  reclaimed_row row found e = elim (Bool-cases (reclaimable row now)) [
    | inr busy ↦ absurd (cc (rw busy at e))
    | inl free ↦
        let made = rw free at e in
        let (there, hits) = find_holds (contends value) db.runs row found in
        (
          leased_to value row,
          (
            subst (λ (u : Db). Holds (leased_to value row) u.runs) (ap (λ p. p.1) made)
                (Holds-updated (contends value) (leased_to value) row db.runs hits there),
            (
              scanned-ok (restore_with_cause (leased_to value row)) r (ap (λ p. p.0) made),
              refl,
              refl,
              ground arith,
            ),
          ),
        )
  ]

  pub Granted-row : (row : Run) × (Holds row t.runs × Granted value r row)
  Granted-row = elim (claim_cases available db value now) [
    | inl c ↦ absurd (cc (sym c ∙ granted))
    | inr (inl (manual, c)) ↦ absurd (cc (sym manual ∙ slotted))
    | inr (inr (inl (_, flying, free, c))) ↦ inserted_row flying (sym c ∙ granted)
    | inr (inr (inr (row, (_, found, c)))) ↦ reclaimed_row row found (sym c ∙ granted)
  ]

same_key-same :
    (w x row : Run) → same_key w x ≡ true → same_key w row ≡ true → same_key x row ≡ true
same_key-same w x row e f =
    ground (arith, str_eq_iff w.id x.id, str_eq_iff w.id row.id, str_eq_iff x.id row.id)

not_ok : {x : Result StoreError (Unit {0})} {e : StoreError} → x ≡ err e → x ≢ ok tt
not_ok {x} {e} p q = absurd (cc (sym p ∙ q))

module _ (t : Db) (w : Run) (holder : String) (lost : any (held_by w holder) t.runs ≡ false) where
  lost_renewal :
      (available : Bool) → w.lease_holder ≡ holder → (renew_lease available t w).0 ≢ ok tt
  unfolding renew_lease
  lost_renewal available same e = ground arith

  lost_release :
      (available : Bool) → w.lease_holder ≡ holder → (release_slot available t w).0 ≢ ok tt
  unfolding release_slot
  lost_release available same e = ground arith

  lost_completion :
      (json : Json) (available : Bool) (observation : Observation) (entries : List OutboxEntry)
      → (complete json available t w holder observation entries).0 ≢ ok tt
  lost_completion json available observation entries e =
      elim (complete_cases json available t w holder observation entries) [
        | inl (x, c) ↦ not_ok (ap (λ p. p.0) c) e
        | inr (outbox, (candidates, (_, held, _, _, _, _))) ↦ absurd (cc (sym held ∙ lost))
      ]

module _ (db t : Db) (value r : Run) (available : Bool) (now : Time) (sound : IsSound db)
    (granted : claim_slot available db value now ≡ (ok r, t))
    (slotted : is_manual value.kind ≡ false) where
  after-IsSound : (json : Json) → IsSound t
  after-IsSound json =
      Call-IsSound json db t sound (claims available value now (ap (λ p. p.1) granted))

  Granted-key : (w row : Run) → Granted value r row → same_key w r ≡ true → same_key w row ≡ true
  Granted-key w row g same =
      let (_, id, slot, _, _, _) = restore-IsValid row r g.0 in ground (arith, id, slot)

  others_lost :
      (json : Json) (w : Run) (holder : String)
      → same_key w r ≡ true
      → holder ≢ value.lease_holder
      → any (held_by w holder) t.runs ≡ false
  others_lost json w holder same other = elim (Bool-cases (any (held_by w holder) t.runs)) [
    | inr f ↦ f
    | inl h ↦
        let (row, (there, g)) = Granted-row db t value r available now granted slotted in
        let (x, (here, hits)) = any-Holds (held_by w holder) t.runs h in
        let key : same_key w x ≡ true = ground arith in
        let one =
          Apart_unique same_key x row t.runs same_key_comm (after-IsSound json).keys here there
            (same_key-same w x row key (Granted-key w row g same)) in
        absurd (other (ground (arith, one, g.1, str_eq_iff holder x.lease_holder)))
  ]

-- On rows that keep their keys, a granted claim of a non-manual Run takes the Run from whoever
-- held it: with any other holder, no renewal, release or completion of the granted Run succeeds on
-- the rows that the claim leaves.
pub claim_excludes :
    (json : Json) (db t : Db) (value r w : Run) (holder : String) (now : Time)
    (available again : Bool) (observation : Observation) (entries : List OutboxEntry)
    → IsSound db
    → claim_slot available db value now ≡ (ok r, t)
    → is_manual value.kind ≡ false
    → same_key w r ≡ true
    → w.lease_holder ≡ holder
    → holder ≢ value.lease_holder
    → ((renew_lease again t w).0 ≢ ok tt)
      × ((release_slot again t w).0 ≢ ok tt)
      × ((complete json again t w holder observation entries).0 ≢ ok tt)
claim_excludes json db t value r w holder now available again observation entries sound granted
      slotted same mine other =
    let lost =
      others_lost db t value r available now sound granted slotted json w holder same other in
    (
      lost_renewal t w holder lost again mine,
      lost_release t w holder lost again mine,
      lost_completion t w holder lost json again observation entries,
    )

completes_held :
    (json : Json) (t : Db) (c : Run) (holder : String) (observation : Observation)
    (entries outbox : List OutboxEntry) (candidates : List CandidateLink)
    → any (held_by c holder) t.runs ≡ true
    → may_complete json c holder observation entries ≡ true
    → any (same_observation observation.run_id observation.scheduled_for) t.observations ≡ false
    → insert_entries entries t.outbox ≡ some outbox
    → link_candidate c c.confirmation t.candidates ≡ some candidates
    → (complete json true t c holder observation entries).0 ≡ ok tt
unfolding complete written
completes_held json t c holder observation entries outbox candidates held may fresh o l =
    rw (may, held, o, l, fresh) refl

-- A worker with a name that is granted a claim of a non-manual Run can complete it on the rows
-- that the claim leaves: a completion of a Run with the granted identifier and slot that passes
-- the tests before the transaction, whose observation and entries are new and whose candidate, if
-- any, is free, succeeds if the database carries it out.
pub granted_completes :
    (json : Json) (db t : Db) (value r c : Run) (available : Bool) (now : Time)
    (observation : Observation) (entries outbox : List OutboxEntry)
    (candidates : List CandidateLink)
    → claim_slot available db value now ≡ (ok r, t)
    → is_manual value.kind ≡ false
    → is_empty value.lease_holder ≡ false
    → c.id ≡ r.id
    → c.slot ≡ r.slot
    → may_complete json c value.lease_holder observation entries ≡ true
    → any (same_observation observation.run_id observation.scheduled_for) t.observations ≡ false
    → insert_entries entries t.outbox ≡ some outbox
    → link_candidate c c.confirmation t.candidates ≡ some candidates
    → (complete json true t c value.lease_holder observation entries).0 ≡ ok tt
granted_completes json db t value r c available now observation entries outbox candidates granted
      slotted named same_id same_slot may fresh o l =
    let (row, (there, g)) = Granted-row db t value r available now granted slotted in
    let (_, id, slot, _, _, _) = restore-IsValid row r g.0 in
    let hits : held_by c value.lease_holder row ≡ true = ground (
      arith,
      same_id ∙ id,
      same_slot ∙ slot,
      g,
      str_eq_refl row.id,
      str_eq_refl row.slot.organization_id,
      str_eq_refl row.lease_holder,
    ) in
    completes_held json t c value.lease_holder observation entries outbox candidates
      (Holds-any (held_by c value.lease_holder) row t.runs there hits) may fresh o l

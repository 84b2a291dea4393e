-- ===== src/Store/Slots.antt =====
-- The rows of runs in any history of `RunStore`'s calls: one row for a slot, and outcomes that stay.
use probehive.Base.{
  Bool, true, false, none, List, [], ◌∷◌, ◌≡◌, inl, inr, refl, subst, sym, ◌∙◌, arith, Bool-cases,
  str_eq_iff,
}
use probehive.Base.Int.{eq_of_parts}
use probehive.Base.Time.{Time}
use probehive.Run.Model.{Run}
use probehive.Run.Events.{Json}
use probehive.Store.Tables.{any, find_where, update_where}
use probehive.Store.Distinct.{Absent, Apart, any-Absent, find-any, Apart-update, Apart-delete}
use probehive.Store.Rows.{
  Db, is_manual, contends, same_key, collides, claimed_row, manual_row, reclaimable, leased_to,
  held_by, completed_row,
}
use probehive.Store.Runs.{insert_claim, claim_contended, insert_manual, skipped_row}
use probehive.Store.Cases.{
  claim_cases, insert_manual_cases, renewed, renew_cases, release_cases, complete_cases, skip_cases,
}
use probehive.Store.Histories.{Call, claims, renews, releases, completes, skips, Reach, here, next}

-- The unique indexes on the rows of runs.
pub record IsSound (db : Db) : Type 0 where
  pub slots : Apart contends db.runs
  pub keys : Apart same_key db.runs

pub same_key_comm : (a b : Run) → same_key a b ≡ same_key b a
same_key_comm a b = ground (arith, str_eq_iff a.id b.id, str_eq_iff b.id a.id)

pub contends_comm : (a b : Run) → contends a b ≡ contends b a
contends_comm a b = ground (
  arith,
  str_eq_iff a.slot.monitor_id b.slot.monitor_id,
  str_eq_iff b.slot.monitor_id a.slot.monitor_id,
  str_eq_iff a.slot.location b.slot.location,
  str_eq_iff b.slot.location a.slot.location,
)

-- Two rows meet under the slot index.
abbrev Meets : Run → Run → Type 0
Meets a b =
    (is_manual a.kind ≡ false)
    × (is_manual b.kind ≡ false)
    × (a.slot.monitor_id ≡ b.slot.monitor_id)
    × (a.slot.revision_number ≡ b.slot.revision_number)
    × (a.slot.location ≡ b.slot.location)
    × (a.slot.scheduled_for.instant ≡ b.slot.scheduled_for.instant)

contends-Meets : (a b : Run) → contends a b ≡ true → Meets a b
contends-Meets a b e = ground (
  arith,
  str_eq_iff a.slot.monitor_id b.slot.monitor_id,
  str_eq_iff a.slot.location b.slot.location,
  eq_of_parts a.slot.revision_number b.slot.revision_number,
  eq_of_parts a.slot.scheduled_for.instant b.slot.scheduled_for.instant,
)

Meets-contends : (a b : Run) → Meets a b → contends a b ≡ true
Meets-contends a b m = ground (
  arith,
  str_eq_iff a.slot.monitor_id b.slot.monitor_id,
  str_eq_iff a.slot.location b.slot.location,
)

pub contends_trans : (v a b : Run) → contends v a ≡ true → contends v b ≡ true → contends a b ≡ true
contends_trans v a b e f =
    let (nv, na, ma, ra, la, ta) = contends-Meets v a e in
    let (nv', nb, mb, rb, lb, tb) = contends-Meets v b f in
    Meets-contends a b (na, nb, sym ma ∙ mb, sym ra ∙ rb, sym la ∙ lb, sym ta ∙ tb)

collides-Absent :
    (row : Run) (rows : List Run) → any (collides row) rows ≡ false → Absent same_key row rows
collides-Absent row [] e = tt
collides-Absent row (x ∷ xs) e = (ground arith, collides-Absent row xs (ground arith))

-- An update that keeps keys and slots.
updates-IsSound :
    (db : Db) (p : Run → Bool) (f : Run → Run)
    → ((a b : Run) → contends a (f b) ≡ contends a b)
    → ((a b : Run) → contends (f a) b ≡ contends a b)
    → ((a b : Run) → same_key a (f b) ≡ same_key a b)
    → ((a b : Run) → same_key (f a) b ≡ same_key a b)
    → IsSound db
    → IsSound (record db { runs = update_where p f db.runs })
updates-IsSound db p f sr sl kr kl s = record {
  slots = Apart-update contends p f db.runs sr sl s.slots;
  keys = Apart-update same_key p f db.runs kr kl s.keys;
}

module _ (db t : Db) (value : Run) (available : Bool) (sound : IsSound db) where
  insert_claim-IsSound :
      find_where (contends value) db.runs ≡ none → (insert_claim db value).1 ≡ t → IsSound t
  unfolding insert_claim
  insert_claim-IsSound free e =
      let absent = any-Absent contends value db.runs (find-any (contends value) db.runs free) in
      elim (Bool-cases (any (collides (claimed_row value)) db.runs)) [
        | inl known ↦ subst IsSound (rw known at e) sound
        | inr fresh ↦ subst IsSound (rw fresh at e) (record {
          slots = (absent, sound.slots);
          keys = (collides-Absent (claimed_row value) db.runs fresh, sound.keys);
        })
      ]

  claim_contended-IsSound :
      (now : Time) (row : Run) → (claim_contended db value now row).1 ≡ t → IsSound t
  unfolding claim_contended
  claim_contended-IsSound now row e = elim (Bool-cases (reclaimable row now)) [
    | inl free ↦ subst IsSound (rw free at e) (
        updates-IsSound db (contends value) (leased_to value) (λ a b. refl) (λ a b. refl)
          (λ a b. refl) (λ a b. refl) sound)
    | inr held ↦ subst IsSound (rw held at e) sound
  ]

manual-Absent :
    (value : Run)
    → is_manual value.kind ≡ true
    → (rows : List Run) → Absent contends (manual_row value) rows
manual-Absent value m [] = tt
manual-Absent value m (x ∷ xs) = (rw m refl, manual-Absent value m xs)

module _ (json : Json) (db t : Db) (sound : IsSound db) where
  insert_manual-IsSound :
      (value : Run) → is_manual value.kind ≡ true → (insert_manual db value).1 ≡ t → IsSound t
  insert_manual-IsSound value manual e = elim (insert_manual_cases db value) [
    | inl c ↦ subst IsSound (rw c at e) sound
    | inr (fresh, c) ↦ subst IsSound (rw c at e) (record {
      slots = (manual-Absent value manual db.runs, sound.slots);
      keys = (collides-Absent (manual_row value) db.runs fresh, sound.keys);
    })
  ]

  pub Call-IsSound : Call json db t → IsSound t
  Call-IsSound (claims available value now e) = elim (claim_cases available db value now) [
    | inl c ↦ subst IsSound (rw c at e) sound
    | inr (inl (manual, c)) ↦ insert_manual-IsSound value manual (rw c at e)
    | inr (inr (inl (_, _, free, c))) ↦
        insert_claim-IsSound db t value available sound free (rw c at e)
    | inr (inr (inr (row, (_, _, c)))) ↦
        claim_contended-IsSound db t value available sound now row (rw c at e)
  ]
  Call-IsSound (renews available value e) = elim (renew_cases available db value) [
    | inl (_, c) ↦ subst IsSound (rw c at e) sound
    | inr c ↦ subst IsSound (rw c at e) (
        updates-IsSound db (held_by value value.lease_holder) (renewed value) (λ a b. refl)
          (λ a b. refl) (λ a b. refl) (λ a b. refl) sound)
  ]
  Call-IsSound (releases available value e) = elim (release_cases available db value) [
    | inl (_, c) ↦ subst IsSound (rw c at e) sound
    | inr c ↦ subst IsSound (rw c at e) (record {
      slots = Apart-delete contends (held_by value value.lease_holder) db.runs sound.slots;
      keys = Apart-delete same_key (held_by value value.lease_holder) db.runs sound.keys;
    })
  ]
  Call-IsSound (completes available value holder observation entries e) =
      elim (complete_cases json available db value holder observation entries) [
        | inl (_, c) ↦ subst IsSound (rw c at e) sound
        | inr (outbox, (candidates, (_, _, _, _, _, c))) ↦
            let kept =
              updates-IsSound db (held_by value holder) (completed_row value) (λ a b. refl)
                (λ a b. refl) (λ a b. refl) (λ a b. refl) sound in
            subst IsSound (rw c at e) (record { slots = kept.slots; keys = kept.keys })
      ]
  Call-IsSound (skips available value entries e) =
      elim (skip_cases json available db value entries) [
        | inl (_, c) ↦ subst IsSound (rw c at e) sound
        | inr (outbox, (_, free, fresh, _, c)) ↦ subst IsSound (rw c at e) (record {
          slots = (any-Absent contends (skipped_row value) db.runs free, sound.slots);
          keys = (collides-Absent (skipped_row value) db.runs fresh, sound.keys);
        })
      ]

-- Where the rows start with their keys kept, any history of calls, by any number of workers and
-- whatever the database refuses, keeps them: there is one non-manual Run at most for a slot, and
-- one Run at most under an identifier and an instant.
pub Reach-IsSound : {json : Json} {s t : Db} → IsSound s → Reach json s t → IsSound t
Reach-IsSound sound here = sound
Reach-IsSound {json = json} sound (next {t = t} {u = u} before call) =
    Call-IsSound json t u (Reach-IsSound sound before) call

-- ===== src/Store/Queue/Conservation.antt =====
-- What becomes of an entry of the outbox under any history of `OutboxStore`'s calls.
use probehive.Base.{
  ℕ, String, Bool, not, ◌||◌, ◌≡◌, inl, inr, refl, subst, Bool-cases, Option-cases, str_eq,
}
use probehive.Base.Time.{Time}
use probehive.Outbox.Model.{Entry, Code}
use probehive.Store.Tables.{any, find_where, update_where, Holds}
use probehive.Store.Distinct.{Apart, any-Absent, Apart-update, Apart-delete}
use probehive.Store.Queue.{
  Db, may_claim, candidates, buries, held_by, is_among, claimed_by, retried_row, claim, succeed,
  dead_letter, fail, enqueue,
}
use probehive.Store.Queue.Histories.{Call, claims, succeeds, fails, queues, Reach, here, next}
use probehive.Store.Queue.Accounted.{
  SameMessage, IsAccounted, same_id, updated_queued, succeeded-IsAccounted, buried-IsAccounted,
}

module _ (db t : Db) (e : Entry) (sound : Apart same_id db.entries) where
  -- The step keeps the identifiers apart and the entry accounted for.
  abbrev Kept : Type 0
  Kept = Apart same_id t.entries × IsAccounted e t

  kept_same : IsAccounted e db → db ≡ t → Kept
  kept_same before s = subst (λ u. Apart same_id u.entries × IsAccounted e u) s (sound, before)

  kept_update :
      (p : Entry → Bool) (f : Entry → Entry)
      → ((r : Entry) → SameMessage r (f r))
      → ((a b : Entry) → same_id a (f b) ≡ same_id a b)
      → ((a b : Entry) → same_id (f a) b ≡ same_id a b)
      → IsAccounted e db
      → record db { entries = update_where p f db.entries } ≡ t
      → Kept
  kept_update p f keeps right left before s =
      subst (λ u. Apart same_id u.entries × IsAccounted e u) s
        (
          Apart-update same_id p f db.entries right left sound,
          elim before [
            | inl (row, (held, same)) ↦ inl (updated_queued e row p f db.entries keeps held same)
            | inr (inl known) ↦ inr (inl known)
            | inr (inr buried) ↦ inr (inr buried)
          ],
        )

  succeed_keeps :
      (available : Bool) (entry : Entry) (holder : String) (now : Time)
      → IsAccounted e db
      → (succeed available db entry holder now).1 ≡ t
      → Kept
  unfolding succeed
  succeed_keeps available entry holder now before s = elim (Bool-cases (not available)) [
    | inl a ↦ kept_same before (rw a at s)
    | inr a ↦ elim (Option-cases (find_where (held_by entry holder) db.entries)) [
      | inl f ↦ kept_same before (rw (a, f) at s)
      | inr (row, f) ↦
          subst (λ u. Apart same_id u.entries × IsAccounted e u) (rw (a, f) at s)
            (
              Apart-delete same_id (held_by entry holder) db.entries sound,
              succeeded-IsAccounted db e entry row holder now sound f before,
            )
    ]
  ]

  dead_letter_keeps :
      (entry : Entry) (holder : String) (code : Code) (now : Time)
      → IsAccounted e db
      → (dead_letter db entry holder code now).1 ≡ t
      → Kept
  unfolding dead_letter
  dead_letter_keeps entry holder code now before s =
      elim (Option-cases (find_where (held_by entry holder) db.entries)) [
        | inl f ↦ kept_same before (rw (dead_letter, f) at s)
        | inr (row, f) ↦ elim (Bool-cases (any (buries row) db.dead)) [
          | inl b ↦ kept_same before (rw (dead_letter, f, b) at s)
          | inr b ↦
              subst (λ u. Apart same_id u.entries × IsAccounted e u) (rw (dead_letter, f, b) at s)
                (
                  Apart-delete same_id (held_by entry holder) db.entries sound,
                  buried-IsAccounted db e entry row holder now sound f code before,
                )
        ]
      ]

  fail_keeps :
      (available : Bool) (entry : Entry) (holder : String) (code : Code) (later now : Time)
      (dead : Bool)
      → IsAccounted e db
      → (fail available db entry holder code later now dead).1 ≡ t
      → Kept
  unfolding fail
  fail_keeps available entry holder code later now dead before s =
      elim (Bool-cases (not available)) [
        | inl a ↦ kept_same before (rw a at s)
        | inr a ↦ elim (Bool-cases dead) [
          | inl d ↦ dead_letter_keeps entry holder code now before (rw (a, d) at s)
          | inr d ↦ elim (Bool-cases (any (held_by entry holder) db.entries)) [
            | inr h ↦ kept_same before (rw (a, d, h) at s)
            | inl h ↦
                kept_update (held_by entry holder) (retried_row code later now)
                  (λ r. (refl, refl, refl, refl)) (λ a b. refl) (λ a b. refl) before
                  (rw (a, d, h) at s)
          ]
        ]
      ]

  claim_keeps :
      (available : Bool) (locked : Entry → Bool) (id_before : String → String → Bool)
      (holder : String) (now expires_at : Time) (limit : ℕ)
      → IsAccounted e db
      → (claim available locked id_before db holder now expires_at limit).1 ≡ t
      → Kept
  unfolding claim
  claim_keeps available locked id_before holder now expires_at limit before s =
      elim (Bool-cases (not (may_claim holder now expires_at limit) || not available)) [
        | inl a ↦ kept_same before (rw a at s)
        | inr a ↦
            kept_update (is_among (candidates locked id_before db now limit))
              (claimed_by holder expires_at) (λ r. (refl, refl, refl, refl)) (λ a b. refl)
              (λ a b. refl) before (rw a at s)
      ]

  enqueue_keeps : (entry : Entry) → IsAccounted e db → enqueue db entry ≡ t → Kept
  unfolding enqueue
  enqueue_keeps entry before s =
      elim (Bool-cases (any (λ (r : Entry). str_eq entry.id r.id) db.entries)) [
        | inl k ↦ kept_same before (rw k at s)
        | inr k ↦
            subst (λ u. Apart same_id u.entries × IsAccounted e u) (rw k at s)
              (
                (any-Absent same_id entry db.entries k, sound),
                elim before [
                  | inl (row, (held, same)) ↦ inl (row, (inr held, same))
                  | inr (inl known) ↦ inr (inl known)
                  | inr (inr buried) ↦ inr (inr buried)
                ],
              )
      ]

  Call-IsAccounted : Call db t → IsAccounted e db → Kept
  Call-IsAccounted (claims available locked id_before holder now expires_at limit s) before =
      claim_keeps available locked id_before holder now expires_at limit before s
  Call-IsAccounted (succeeds available entry holder now s) before =
      succeed_keeps available entry holder now before s
  Call-IsAccounted (fails available entry holder code later now dead s) before =
      fail_keeps available entry holder code later now dead before s
  Call-IsAccounted (queues entry s) before = enqueue_keeps entry before s

Reach-keeps :
    {s t : Db} (e : Entry)
    → Apart same_id s.entries
    → IsAccounted e s
    → Reach s t
    → Apart same_id t.entries × IsAccounted e t
Reach-keeps e sound before here = (sound, before)
Reach-keeps e sound before (next {t = t} {u = u} history call) =
    let (kept, accounted) = Reach-keeps e sound before history in
    Call-IsAccounted t u e kept call accounted

-- No entry of the outbox is lost: where identifiers differ at the start, after any history of
-- claims, completions, failures and new entries, by any number of dispatchers, whatever the
-- database refuses and as long as no cleanup runs, an entry that was queued is still queued with
-- its topic and payload, or is recorded as processed, or is a dead letter with its topic and
-- payload.
pub Reach-IsAccounted :
    {s t : Db} (e : Entry)
    → Apart same_id s.entries
    → Holds e s.entries
    → Reach s t
    → IsAccounted e t
Reach-IsAccounted e sound held history =
    (Reach-keeps e sound (inl (e, (held, (refl, refl, refl, refl)))) history).1

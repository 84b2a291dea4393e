-- ===== src/Store/Queue/Dispatching.antt =====
-- The dispatcher of internal/outbox/outbox.go on the rows of internal/postgres/outbox.go: what
-- handling an entry leaves of it.
use probehive.Base.{
  String, Bool, true, false, Option, some, List, [], ◌∷◌, Result, ok, ◌≡◌, ◌⊎◌, inl, inr, refl, sym,
  ◌∙◌, ap, subst, Bool-cases, Option-cases,
}
use probehive.Base.Time.{Time}
use probehive.Outbox.Model.{Entry, Code, Handled, StoreAnswer, StoreCall}
use probehive.Outbox.Model as Model
use probehive.Outbox.Dispatch.{handle, failure_of, is_no_failure, is_dead, next_attempt}
use probehive.Run.Scheduler.{StoreError}
use probehive.Store.Tables.{any, find_where, delete_where, Holds, any-Holds}
use probehive.Store.Distinct.{
  Apart, find-any, find-any-some, Apart_unique, Holds-updated, Holds-Absent, any-Absent,
}
use probehive.Store.Queue.{
  Db, marks, buries, dead_letter_of, held_by, retried_row, succeed, dead_letter, fail,
}
use probehive.Store.Queue.Accounted.{
  SameMessage, same_id, same_id_comm, mark_marks, Buried, found_row,
}

-- The call that ends the handling, carried out by the database.
abbrev carried : Db → Entry → String → Time → StoreCall → Result StoreError (Unit {0}) × Db
carried db entry holder now Model.succeeds = succeed true db entry holder now
carried db entry holder now (Model.fails code later dead) =
    fail true db entry holder code later now dead

-- `handle` on a claimed entry, with what its handler returns.
unfoldable pub dispatch :
    Db → Entry → String → Option Handled → Bool → Time → Result StoreError (Unit {0}) × Db
dispatch db entry holder handler stopped now =
    carried db entry holder now
      (handle entry
        (record {
          handler = handler;
          stopped = stopped;
          succeed = StoreAnswer.stored;
          fail = StoreAnswer.stored;
        })
        now).0

-- The entry is in the queue again, free and due at the instant.
abbrev pub Requeued : Entry → Time → Db → Type 0
Requeued entry later t =
    (row : Entry) × (Holds row t.entries
      × SameMessage entry row
      × (row.attempts ≡ entry.attempts)
      × (row.lease_holder ≡ "")
      × (row.available_at.instant ≡ later.instant))

-- What handling the entry leaves, by what the handler returned.
abbrev pub Ends : Entry → Time → Db → Result StoreError (Unit {0}) → Code → Bool → Type 0
Ends entry now t r code permanent =
    (r ≡ ok tt)
    × (((is_no_failure code ≡ true)
          × (any (marks entry) t.processed ≡ true)
          × (any (same_id entry) t.entries ≡ false))
        ⊎ ((is_no_failure code ≡ false)
            × (is_dead entry code permanent now ≡ true)
            × Buried entry t
            × (any (same_id entry) t.entries ≡ false))
        ⊎ ((is_no_failure code ≡ false)
            × (is_dead entry code permanent now ≡ false)
            × Requeued entry (next_attempt entry code false now) t))

deleted-Holds :
    (p : Entry → Bool) (rows : List Entry) (x : Entry)
    → Holds x (delete_where p rows)
    → Holds x rows × (p x ≡ false)
deleted-Holds p [] x h = absurd h
deleted-Holds p (y ∷ ys) x h = elim (Bool-cases (p y)) [
  | inl t ↦ let (held, n) = deleted-Holds p ys x (rw t at h) in (inr held, n)
  | inr n ↦ elim (rw n at h) [
    | inl s ↦ (inl s, ap p s ∙ n)
    | inr rest ↦ let (held, m) = deleted-Holds p ys x rest in (inr held, m)
  ]
]

module _ (db : Db) (entry : Entry) (holder : String) (now : Time) (sound : Apart same_id db.entries)
    (held : Holds entry db.entries) (mine : held_by entry holder entry ≡ true) where
  -- The deletion takes the entry out of the queue.
  is_gone : any (same_id entry) (delete_where (held_by entry holder) db.entries) ≡ false
  is_gone =
      elim (Bool-cases (any (same_id entry) (delete_where (held_by entry holder) db.entries))) [
        | inr f ↦ f
        | inl t ↦
            let (x, (there, hits)) = any-Holds (same_id entry) _ t in
            let (before, kept) = deleted-Holds (held_by entry holder) db.entries x there in
            let one = Apart_unique same_id entry x db.entries same_id_comm sound held before hits in
            absurd (cc (sym (subst (λ r. held_by entry holder r ≡ false) (sym one) kept) ∙ mine))
      ]

  found_entry : find_where (held_by entry holder) db.entries ≡ some entry
  found_entry = elim (Option-cases (find_where (held_by entry holder) db.entries)) [
    | inl f ↦
        let miss =
          Holds-Absent (λ a b. held_by entry holder b) entry entry db.entries
            (any-Absent (λ a b. held_by entry holder b) entry db.entries
              (find-any (held_by entry holder) db.entries f))
            held in
        absurd (cc (sym miss ∙ mine))
    | inr (row, f) ↦
        f ∙ ap some (sym (found_row entry row entry holder db.entries sound f held mine))
  ]

  succeed_ends :
      ((succeed true db entry holder now).0 ≡ ok tt)
      × (any (marks entry) (succeed true db entry holder now).1.processed ≡ true)
      × (any (same_id entry) (succeed true db entry holder now).1.entries ≡ false)
  unfolding succeed
  succeed_ends = rw found_entry (refl, mark_marks entry entry now db.processed refl refl, is_gone)

  dead_letter_ends :
      (code : Code) (later : Time)
      → any (buries entry) db.dead ≡ false
      → ((fail true db entry holder code later now true).0 ≡ ok tt)
        × Buried entry (fail true db entry holder code later now true).1
        × (any (same_id entry) (fail true db entry holder code later now true).1.entries ≡ false)
  unfolding fail dead_letter
  dead_letter_ends code later fresh =
      rw (dead_letter, found_entry, fresh)
        (refl, (dead_letter_of entry code now, (inl refl, (refl, refl, refl, refl))), is_gone)

  retry_ends :
      (code : Code) (later : Time)
      → ((fail true db entry holder code later now false).0 ≡ ok tt)
        × Requeued entry later (fail true db entry holder code later now false).1
  unfolding fail
  retry_ends code later = rw (find-any-some (held_by entry holder) db.entries entry found_entry) (
    refl,
    (
      retried_row code later now entry,
      (
        Holds-updated (held_by entry holder) (retried_row code later now) entry db.entries mine
            held,
        (refl, refl, refl, refl),
        refl,
        refl,
        refl,
      ),
    ),
  )

  -- Handling an entry whose row the dispatcher holds, where identifiers differ, no dead letter has
  -- its identifier and the database carries the call out, ends without an error in one of three
  -- ways: without a failure the entry is recorded as processed and leaves the queue; with a
  -- failure that is final it becomes a dead letter and leaves the queue; with any other failure it
  -- stays queued with its message and its attempts, free, and due at its next attempt.
  pub dispatch-Ends :
      (handler : Option Handled) (stopped : Bool)
      → any (buries entry) db.dead ≡ false
      → Ends entry now
          (dispatch db entry holder handler stopped now).1
          (dispatch db entry holder handler stopped now).0
          (failure_of handler stopped).0
          (failure_of handler stopped).1
  unfolding dispatch handle
  dispatch-Ends handler stopped fresh =
      let code = (failure_of handler stopped).0 in
      let permanent = (failure_of handler stopped).1 in
      elim (Bool-cases (is_no_failure code)) [
        | inl n ↦ let (done, marks, gone) = succeed_ends in rw n (done, inl (refl, marks, gone))
        | inr n ↦ elim (Bool-cases (is_dead entry code permanent now)) [
          | inl d ↦
              let (done, buried, gone) =
                dead_letter_ends code (next_attempt entry code true now) fresh in
              rw (n, d) (done, inr (inl (refl, refl, buried, gone)))
          | inr d ↦
              let (done, queued) = retry_ends code (next_attempt entry code false now) in
              rw (n, d) (done, inr (inr (refl, refl, queued)))
        ]
      ]

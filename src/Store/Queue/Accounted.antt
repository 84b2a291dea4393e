-- ===== src/Store/Queue/Accounted.antt =====
-- Where an entry of the outbox can be, and what the statements make of that.
use probehive.Base.{
  String, Bool, true, some, List, [], ◌∷◌, ◌≡◌, ◌⊎◌, inl, inr, refl, ◌∙◌, arith, ap, subst,
  Bool-cases, str_eq, str_eq_iff, str_eq_refl,
}
use probehive.Base.Time.{Time}
use probehive.Outbox.Model.{Entry, Code}
use probehive.Store.Tables.{any, find_where, update_where, delete_where, Holds}
use probehive.Store.Distinct.{Apart, find_holds, Apart_unique, Holds-delete}
use probehive.Store.Queue.{Marker, DeadLetter, Db, marks, marked, dead_letter_of, held_by}

-- The same message, whatever its lease, its attempts and its next instant are.
abbrev pub SameMessage : Entry → Entry → Type 0
SameMessage a b =
    (a.id ≡ b.id)
    × (a.organization_id ≡ b.organization_id)
    × (a.topic ≡ b.topic)
    × (a.payload ≡ b.payload)

-- The entry is still queued, or is recorded as processed, or is a dead letter with its payload.
abbrev pub Queued : Entry → Db → Type 0
Queued e t = (row : Entry) × (Holds row t.entries × SameMessage e row)

abbrev pub Buried : Entry → Db → Type 0
Buried e t =
    (letter : DeadLetter) × (Holds letter t.dead
      × ((e.id ≡ letter.id)
          × (e.organization_id ≡ letter.organization_id)
          × (e.topic ≡ letter.topic)
          × (e.payload ≡ letter.payload)))

abbrev pub IsAccounted : Entry → Db → Type 0
IsAccounted e t = Queued e t ⊎ (any (marks e) t.processed ≡ true) ⊎ Buried e t

abbrev pub same_id : Entry → Entry → Bool
same_id a b = str_eq a.id b.id

pub same_id_comm : (a b : Entry) → same_id a b ≡ same_id b a
same_id_comm a b = ground (arith, str_eq_iff a.id b.id, str_eq_iff b.id a.id)

pub updated_queued :
    (e row : Entry) (p : Entry → Bool) (f : Entry → Entry) (rows : List Entry)
    → ((r : Entry) → SameMessage r (f r))
    → Holds row rows
    → SameMessage e row
    → (new : Entry) × (Holds new (update_where p f rows) × SameMessage e new)
updated_queued e row p f [] keeps h m = absurd h
updated_queued e row p f (x ∷ xs) keeps (inl s) m = elim (Bool-cases (p x)) [
  | inl t ↦ (f x, (inl (rw t refl), ground (arith, keeps x, s)))
  | inr n ↦ (x, (inl (rw n refl), ground (arith, s)))
]
updated_queued e row p f (x ∷ xs) keeps (inr h) m =
    let (new, (held, same)) = updated_queued e row p f xs keeps h m in (new, (inr held, same))

any_marks :
    (e row : Entry) (markers : List Marker)
    → e.id ≡ row.id
    → e.organization_id ≡ row.organization_id
    → any (marks e) markers ≡ any (marks row) markers
any_marks e row [] i o = refl
any_marks e row (m ∷ ms) i o = rw (i, o, any_marks e row ms i o) refl

pub mark_marks :
    (e row : Entry) (now : Time) (markers : List Marker)
    → e.id ≡ row.id
    → e.organization_id ≡ row.organization_id
    → any (marks e) (marked row now markers) ≡ true
mark_marks e row now markers i o = elim (Bool-cases (any (marks row) markers)) [
  | inl h ↦ rw h (any_marks e row markers i o ∙ h)
  | inr h ↦ rw (h, i, o, str_eq_refl row.id, str_eq_refl row.organization_id) refl
]

mark_keeps :
    (e row : Entry) (now : Time) (markers : List Marker)
    → any (marks e) markers ≡ true
    → any (marks e) (marked row now markers) ≡ true
mark_keeps e row now markers h = ground arith

-- A deletion leaves an entry in the queue unless its row is deleted.
deleted_queued :
    (e : Entry) (p : Entry → Bool) (rows : List Entry) (row : Entry)
    → Holds row rows
    → SameMessage e row
    → ((new : Entry) × (Holds new (delete_where p rows) × SameMessage e new)) ⊎ (p row ≡ true)
deleted_queued e p rows row held same = elim (Bool-cases (p row)) [
  | inl t ↦ inr t
  | inr n ↦ inl (row, (Holds-delete p row rows n held, same))
]

-- The row that a call finds is the only one with its identifier.
pub found_row :
    (entry found row : Entry) (holder : String) (rows : List Entry)
    → Apart same_id rows
    → find_where (held_by entry holder) rows ≡ some found
    → Holds row rows
    → held_by entry holder row ≡ true
    → row ≡ found
found_row entry found row holder rows sound f held hit =
    let (there, hits) = find_holds (held_by entry holder) rows found f in
    Apart_unique same_id row found rows same_id_comm sound held there (
      ground (
        arith,
        str_eq_iff entry.id row.id,
        str_eq_iff entry.id found.id,
        str_eq_iff row.id found.id,
      ))

module _ (db : Db) (e entry found : Entry) (holder : String) (now : Time)
    (sound : Apart same_id db.entries)
    (f : find_where (held_by entry holder) db.entries ≡ some found) where
  abbrev pub left : List Entry
  left = delete_where (held_by entry holder) db.entries

  pub succeeded-IsAccounted :
      IsAccounted e db
      → IsAccounted e (record db { entries = left; processed = marked found now db.processed })
  succeeded-IsAccounted (inl (row, (held, same))) =
      elim (deleted_queued e (held_by entry holder) db.entries row held same) [
        | inl queued ↦ inl queued
        | inr hit ↦
            let one = found_row entry found row holder db.entries sound f held hit in
            inr (
              inl (
                mark_marks e found now db.processed (same.0 ∙ ap (λ (r : Entry). r.id) one)
                  (same.1 ∙ ap (λ (r : Entry). r.organization_id) one)))
      ]
  succeeded-IsAccounted (inr (inl known)) = inr (inl (mark_keeps e found now db.processed known))
  succeeded-IsAccounted (inr (inr buried)) = inr (inr buried)

  pub buried-IsAccounted :
      (code : Code)
      → IsAccounted e db
      → IsAccounted e (record db { entries = left; dead = dead_letter_of found code now ∷ db.dead })
  buried-IsAccounted code (inl (row, (held, same))) =
      elim (deleted_queued e (held_by entry holder) db.entries row held same) [
        | inl queued ↦ inl queued
        | inr hit ↦
            let one = found_row entry found row holder db.entries sound f held hit in
            inr (inr (dead_letter_of found code now, (inl refl, subst (SameMessage e) one same)))
      ]
  buried-IsAccounted code (inr (inl known)) = inr (inl known)
  buried-IsAccounted code (inr (inr (letter, (held, same)))) = inr (inr (letter, (inr held, same)))

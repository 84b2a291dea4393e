-- ===== src/Store/Queue.antt =====
-- internal/postgres/outbox.go: the statements of `OutboxStore` on the rows of the outbox. `available`
-- says whether the database carries a call out; the rows that other transactions hold locked, which
-- a claim skips, and the order of identifiers are arguments. The column of the last failure code,
-- which is only written, is left out.
pub mod Histories
pub mod Accounted
pub mod Conservation
pub mod Dispatching
pub mod Claims
mod Examples
use probehive.Base.{
  ℕ, zero, suc, String, Bool, true, false, ◌&&◌, ◌||◌, not, Option, none, some, List, [], ◌∷◌,
  Result, ok, err, if◌then◌else◌, is_empty, str_eq, map, ltb,
}
use probehive.Base.Int.{ℤ, pos, ◌+ℤ◌, leb_ℤ, ltb_ℤ}
use probehive.Base.Time.{Time, to_utc, zero_time, is_zero, after, same_instant, has_zero_offset}
use probehive.Outbox.Model.{Entry, Code}
use probehive.Outbox.Dispatch.{is_gap}
use probehive.Run.Scheduler.{StoreError, lease_lost, failed}
use probehive.Store.Tables.{any, find_where, update_where, delete_where}

-- A row of processed_outbox_events.
pub record Marker : Type 0 where
  pub id : String
  pub organization_id : String
  pub topic : String
  pub processed_at : Time

-- A row of dead_letter_outbox_entries; of the entry, the columns that are kept.
pub record DeadLetter : Type 0 where
  pub id : String
  pub organization_id : String
  pub topic : String
  pub payload : List ℕ
  pub attempts : ℤ
  pub created_at : Time
  pub final_failure_code : Code
  pub dead_lettered_at : Time

pub record Db : Type 0 where
  pub entries : List Entry
  pub processed : List Marker
  pub dead : List DeadLetter

-- `isUTCInstant`.
abbrev pub is_utc_instant : Time → Bool
is_utc_instant value = has_zero_offset value

-- `WHERE available_at <= $1 AND (lease_expires_at IS NULL OR lease_expires_at <= $1)`.
abbrev pub is_due : Time → Entry → Bool
is_due now row =
    leb_ℤ row.available_at.instant now.instant
    && (is_empty row.lease_holder || leb_ℤ row.lease_expires_at.instant now.instant)

-- `ORDER BY available_at, id`.
abbrev pub comes_before : (String → String → Bool) → Entry → Entry → Bool
comes_before id_before a b =
    ltb_ℤ a.available_at.instant b.available_at.instant
    || same_instant a.available_at b.available_at && id_before a.id b.id

abbrev pub insert_row : (String → String → Bool) → Entry → List Entry → List Entry
insert_row id_before row [] = row ∷ []
insert_row id_before row (x ∷ xs) =
    let rest = insert_row id_before row xs in
    if comes_before id_before x row then x ∷ rest else row ∷ x ∷ xs

abbrev pub take : ℕ → List Entry → List Entry
take zero rows = []
take (suc n) [] = []
take (suc n) (x ∷ xs) = x ∷ take n xs

-- The rows that are due and not locked, in their order.
abbrev pub due_rows : (Entry → Bool) → (String → String → Bool) → Time → List Entry → List Entry
due_rows locked id_before now [] = []
due_rows locked id_before now (x ∷ xs) =
    let rest = due_rows locked id_before now xs in
    if is_due now x && not (locked x) then insert_row id_before x rest else rest

abbrev pub claimed_by : String → Time → Entry → Entry
claimed_by holder expires_at row = record row {
  lease_holder = holder;
  lease_expires_at = to_utc expires_at;
  attempts = row.attempts +ℤ pos 1;
}

abbrev pub is_among : List Entry → Entry → Bool
is_among rows row = any (λ (r : Entry). str_eq r.id row.id) rows

abbrev pub default_batch_size : ℕ
default_batch_size = 32

abbrev pub may_claim : String → Time → Time → ℕ → Bool
may_claim holder now expires_at limit =
    not (is_empty holder)
    && is_utc_instant now
    && is_utc_instant expires_at
    && after expires_at now
    && not (ltb limit 1 || ltb default_batch_size limit)

abbrev pub candidates : (Entry → Bool) → (String → String → Bool) → Db → Time → ℕ → List Entry
candidates locked id_before db now limit = take limit (due_rows locked id_before now db.entries)

unfoldable pub claim :
    Bool
    → (Entry → Bool)
    → (String → String → Bool)
    → Db
    → String
    → Time
    → Time
    → ℕ
    → Result StoreError (List Entry) × Db
claim available locked id_before db holder now expires_at limit =
    if not (may_claim holder now expires_at limit) || not available then (err failed, db) else (
      ok (map (claimed_by holder expires_at) (candidates locked id_before db now limit)),
      record db {
        entries =
            update_where (is_among (candidates locked id_before db now limit))
              (claimed_by holder expires_at) db.entries;
      },
    )

-- `WHERE id = … AND organization_id = … AND lease_holder = …`; no holder equals a NULL.
abbrev pub held_by : Entry → String → Entry → Bool
held_by entry holder row =
    str_eq entry.id row.id
    && str_eq entry.organization_id row.organization_id
    && not (is_empty row.lease_holder)
    && str_eq holder row.lease_holder

abbrev pub marks : Entry → Marker → Bool
marks row marker = str_eq row.id marker.id && str_eq row.organization_id marker.organization_id

abbrev pub marker_of : Entry → Time → Marker
marker_of row now = record {
  id = row.id;
  organization_id = row.organization_id;
  topic = row.topic;
  processed_at = to_utc now;
}

-- `ON CONFLICT (organization_id, id) DO NOTHING`.
abbrev pub marked : Entry → Time → List Marker → List Marker
marked row now markers = if any (marks row) markers then markers else marker_of row now ∷ markers

unfoldable pub succeed : Bool → Db → Entry → String → Time → Result StoreError (Unit {0}) × Db
succeed available db entry holder now =
    if not available
    then (err failed, db)
    else elim (find_where (held_by entry holder) db.entries) [
      | none ↦ (err lease_lost, db)
      | some row ↦ (
        ok tt,
        record db {
          entries = delete_where (held_by entry holder) db.entries;
          processed = marked row now db.processed;
        },
      )
    ]

-- `COALESCE(gap_first_seen_at, now)` for a version gap, else NULL.
abbrev pub gap_seen : Code → Time → Time → Time
gap_seen code first now =
    if is_gap code then (if is_zero first then to_utc now else first) else zero_time

abbrev pub retried_row : Code → Time → Time → Entry → Entry
retried_row code next now row = record row {
  available_at = to_utc next;
  lease_holder = "";
  lease_expires_at = zero_time;
  gap_first_seen_at = gap_seen code row.gap_first_seen_at now;
}

abbrev pub buries : Entry → DeadLetter → Bool
buries row letter = str_eq row.id letter.id && str_eq row.organization_id letter.organization_id

abbrev pub dead_letter_of : Entry → Code → Time → DeadLetter
dead_letter_of row code now = record {
  id = row.id;
  organization_id = row.organization_id;
  topic = row.topic;
  payload = row.payload;
  attempts = row.attempts;
  created_at = row.created_at;
  final_failure_code = code;
  dead_lettered_at = to_utc now;
}

-- `deadLetter`, which the database carries out.
unfoldable pub dead_letter : Db → Entry → String → Code → Time → Result StoreError (Unit {0}) × Db
dead_letter db entry holder code now = elim (find_where (held_by entry holder) db.entries) [
  | none ↦ (err lease_lost, db)
  | some row ↦ if any (buries row) db.dead then (err lease_lost, db) else (
    ok tt,
    record db {
      entries = delete_where (held_by entry holder) db.entries;
      dead = dead_letter_of row code now ∷ db.dead;
    },
  )
]

unfoldable pub fail :
    Bool → Db → Entry → String → Code → Time → Time → Bool → Result StoreError (Unit {0}) × Db
fail available db entry holder code next now dead =
    if not available
    then (err failed, db)
    else if dead
    then dead_letter db entry holder code now
    else if any (held_by entry holder) db.entries
    then (
      ok tt,
      record db {
        entries = update_where (held_by entry holder) (retried_row code next now) db.entries;
      },
    )
    else (err lease_lost, db)

unfoldable pub cleanup : Bool → Db → Time → Result StoreError (Unit {0}) × Db
cleanup available db before = if not available then (err failed, db) else (
  ok tt,
  record db {
    processed = delete_where (λ m. ltb_ℤ m.processed_at.instant before.instant) db.processed;
    dead = delete_where (λ d. ltb_ℤ d.dead_lettered_at.instant before.instant) db.dead;
  },
)

-- A new row of outbox_entries, by any of the transactions that queue one; a known identifier is
-- refused.
unfoldable pub enqueue : Db → Entry → Db
enqueue db entry =
    if any (λ (r : Entry). str_eq entry.id r.id) db.entries
    then db
    else record db { entries = entry ∷ db.entries }

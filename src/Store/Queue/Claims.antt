-- ===== src/Store/Queue/Claims.antt =====
-- Two claims of outbox entries, one after the other.
use probehive.Base.{
  ℕ, zero, suc, String, Bool, true, false, not, ◌||◌, ◌&&◌, List, [], ◌∷◌, map, Result, ok, ◌≡◌,
  ◌≢◌, ◌⊎◌, inl, inr, refl, sym, ◌∙◌, arith, ap, subst, Bool-cases, is_empty, str_eq, str_eq_refl,
}
use probehive.Base.Int.{ltb_ℤ}
use probehive.Base.Time.{Time}
use probehive.Outbox.Model.{Entry}
use probehive.Run.Scheduler.{StoreError}
use probehive.Store.Tables.{update_where, Holds}
use probehive.Store.Distinct.{Holds-any}
use probehive.Store.Queue.{
  Db, is_due, comes_before, insert_row, take, due_rows, claimed_by, is_among, may_claim, candidates,
  claim,
}

take-Holds : (n : ℕ) (rows : List Entry) (x : Entry) → Holds x (take n rows) → Holds x rows
take-Holds zero rows x h = absurd h
take-Holds (suc n) [] x h = absurd h
take-Holds (suc n) (y ∷ ys) x (inl e) = inl e
take-Holds (suc n) (y ∷ ys) x (inr h) = inr (take-Holds n ys x h)

insert_row-Holds :
    (id_before : String → String → Bool) (row x : Entry) (rows : List Entry)
    → Holds x (insert_row id_before row rows)
    → (x ≡ row) ⊎ Holds x rows
insert_row-Holds id_before row x [] (inl e) = inl e
insert_row-Holds id_before row x [] (inr h) = absurd h
insert_row-Holds id_before row x (y ∷ ys) h = elim (Bool-cases (comes_before id_before y row)) [
  | inr n ↦ elim (rw n at h) [ inl e ↦ inl e | inr k ↦ inr k ]
  | inl t ↦ elim (rw t at h) [
    | inl e ↦ inr (inl e)
    | inr k ↦ elim (insert_row-Holds id_before row x ys k) [ inl e ↦ inl e | inr m ↦ inr (inr m) ]
  ]
]

due_rows-Holds :
    (locked : Entry → Bool) (id_before : String → String → Bool) (now : Time) (rows : List Entry)
    (x : Entry)
    → Holds x (due_rows locked id_before now rows)
    → Holds x rows × (is_due now x ≡ true)
due_rows-Holds locked id_before now [] x h = absurd h
due_rows-Holds locked id_before now (y ∷ ys) x h =
    elim (Bool-cases (is_due now y && not (locked y))) [
      | inr n ↦
          let (held, due) = due_rows-Holds locked id_before now ys x (rw n at h) in (inr held, due)
      | inl t ↦
          elim (insert_row-Holds id_before y x (due_rows locked id_before now ys) (rw t at h)) [
            | inl e ↦ (inl e, subst (λ r. is_due now r ≡ true) (sym e) (ground arith))
            | inr k ↦
                let (held, due) = due_rows-Holds locked id_before now ys x k in (inr held, due)
          ]
    ]

map-Holds :
    (f : Entry → Entry) (rows : List Entry) (y : Entry)
    → Holds y (map f rows)
    → (x : Entry) × (Holds x rows × (y ≡ f x))
map-Holds f [] y h = absurd h
map-Holds f (x ∷ xs) y (inl e) = (x, (inl refl, e))
map-Holds f (x ∷ xs) y (inr h) = let (z, (held, e)) = map-Holds f xs y h in (z, (inr held, e))

updated-Holds :
    (p : Entry → Bool) (f : Entry → Entry) (rows : List Entry) (y : Entry)
    → Holds y (update_where p f rows)
    → (x : Entry) × (((p x ≡ true) × (y ≡ f x)) ⊎ ((p x ≡ false) × (y ≡ x)))
updated-Holds p f [] y h = absurd h
updated-Holds p f (x ∷ xs) y (inl e) = elim (Bool-cases (p x)) [
  | inl t ↦ (x, inl (t, rw t at e))
  | inr n ↦ (x, inr (n, rw n at e))
]
updated-Holds p f (x ∷ xs) y (inr h) = updated-Holds p f xs y h

ok_same : {x y : List Entry} → ◌≡◌ {A = Result StoreError (List Entry)} (ok x) (ok y) → x ≡ y
ok_same e = cc

module _ (available : Bool) (locked : Entry → Bool) (id_before : String → String → Bool) (db t : Db)
    (holder : String) (now expires_at : Time) (limit : ℕ) (rows : List Entry)
    (done : claim available locked id_before db holder now expires_at limit ≡ (ok rows, t)) where
  claim_inv :
      (may_claim holder now expires_at limit ≡ true)
      × (rows ≡ map (claimed_by holder expires_at) (candidates locked id_before db now limit))
      × (t ≡ record db {
        entries =
            update_where
              (is_among (candidates locked id_before db now limit))
              (claimed_by holder expires_at)
              db.entries;
      })
  unfolding claim
  claim_inv = elim (Bool-cases (not (may_claim holder now expires_at limit) || not available)) [
    | inl a ↦ absurd (cc (rw a at done))
    | inr a ↦ (
      ground arith,
      sym (ok_same (ap (λ p. p.0) (rw a at done))),
      sym (ap (λ p. p.1) (rw a at done)),
    )
  ]

-- A row that a claim took is not due before its lease has run out.
leased_not_due :
    (d r : Entry) (holder : String) (expires_at later : Time)
    → d ≡ claimed_by holder expires_at r
    → is_empty holder ≡ false
    → ltb_ℤ later.instant expires_at.instant ≡ true
    → is_due later d ≢ true
leased_not_due d r holder expires_at later e named early due =
    let leased = subst (λ v. is_due later v ≡ true) e due in absurd (ground arith)

among_none :
    (c d : Entry) (rows : List Entry) → Holds c rows → c.id ≡ d.id → is_among rows d ≢ false
among_none c d rows held same n = absurd (
    cc (
      sym n
      ∙ Holds-any (λ (r : Entry). str_eq r.id d.id) c rows held
          (ap (λ i. str_eq i d.id) same ∙ str_eq_refl d.id)))

-- No entry is with two dispatchers: a second claim, on the rows that the first leaves and before
-- the lease of the first has run out, takes none of the entries that the first took.
pub claims_disjoint :
    (available again : Bool) (locked locked' : Entry → Bool) (id_before : String → String → Bool)
    (db t u : Db) (holder other : String) (now expires_at later expires_later : Time)
    (limit limit' : ℕ) (rows rows' : List Entry) (x y : Entry)
    → claim available locked id_before db holder now expires_at limit ≡ (ok rows, t)
    → claim again locked' id_before t other later expires_later limit' ≡ (ok rows', u)
    → ltb_ℤ later.instant expires_at.instant ≡ true
    → Holds x rows
    → Holds y rows'
    → x.id ≢ y.id
claims_disjoint available again locked locked' id_before db t u holder other now expires_at later
      expires_later limit limit' rows rows' x y first second early hx hy same =
    let (may, made, left) =
      claim_inv available locked id_before db t holder now expires_at limit rows first in
    let (_, made', _) =
      claim_inv again locked' id_before t u other later expires_later limit' rows' second in
    let (c, (chosen, is_c)) =
      map-Holds (claimed_by holder expires_at) (candidates locked id_before db now limit) x
        (subst (Holds x) made hx) in
    let (d, (chosen', is_d)) =
      map-Holds (claimed_by other expires_later) (candidates locked' id_before t later limit') y
        (subst (Holds y) made' hy) in
    let (held, due) =
      due_rows-Holds locked' id_before later t.entries d
        (take-Holds limit' (due_rows locked' id_before later t.entries) d chosen') in
    let (r, came) =
      updated-Holds (is_among (candidates locked id_before db now limit))
        (claimed_by holder expires_at) db.entries d
        (subst (λ (v : Db). Holds d v.entries) left held) in
    absurd (elim came [
      | inl (_, e) ↦ leased_not_due d r holder expires_at later e (ground arith) early due
      | inr (n, e) ↦
          among_none c d (candidates locked id_before db now limit) chosen
            (ap (λ (v : Entry). v.id) (sym is_c) ∙ same ∙ ap (λ (v : Entry). v.id) is_d)
            (subst (λ v. is_among (candidates locked id_before db now limit) v ≡ false) (sym e) n)
    ])

-- ===== src/Run/Walked.antt =====
-- How `recordMissed` of internal/run/scheduler.go walks the missed slots, whatever the collaborators
-- answer.
use probehive.Base.{
  ℕ, zero, suc, String, true, false, none, some, List, [], ◌∷◌, ok, err, ◌≡◌, ◌⊎◌, inl, inr, refl,
  sym, subst, arith, Option-cases, Bool-cases, Result-cases,
}
use probehive.Base.Int.{ℤ, pos, pos_part, ◌<ℤ◌, ◌-ℤ◌, quot, +ℤ_parts, -ℤ_parts}
use probehive.Base.Time.{Time, Duration, add, to_utc}
use probehive.Run.Model.{Kind, Outcome, Error, Run}
use probehive.Run.Lifecycle.{skip}
use probehive.Run.Schedule.{Schedulable, missed_from, missed_slots, whole_seconds}
use probehive.Run.Events.{Json, EntryError, new_run_recorded_entry}
use probehive.Run.Scheduler.{
  Config, StoreError, StoreCall, claims, releases, completes, records_skipped, slot_of, NewRunError,
  new_scheduled_run, new_run_for,
}
use probehive.Run.Backfill.{MissedAnswers, skip_call, record_each}

-- The instants lie before the given one, newest first.
abbrev pub Descending : Time → List Time → Type 0
Descending later [] = Unit {0}
Descending later (t ∷ ts) = (t.instant <ℤ later.instant) × Descending t ts

back-earlier : (t : Time) (d : Duration) → pos 0 <ℤ d → (add t (pos 0 -ℤ d)).instant <ℤ t.instant
unfolding add
back-earlier t d p = omega (arith, p, -ℤ_parts (pos 0) d, +ℤ_parts t.instant (pos 0 -ℤ d))

missed_from-Descending :
    (room : ℕ) (interval : Duration) (candidate later bound : Time)
    → pos 0 <ℤ interval
    → candidate.instant <ℤ later.instant
    → Descending later (missed_from room interval candidate bound)
unfolding missed_from
missed_from-Descending zero interval candidate later bound p c = tt
missed_from-Descending (suc room) interval candidate later bound p c =
    let earlier = add candidate (pos 0 -ℤ interval) in
    ground (
      arith,
      missed_from-Descending room interval earlier candidate bound p
          (back-earlier candidate interval p),
    )

missed_slots_cases :
    (monitor_id : String) (interval : Duration) (current bound : Time) (limit : ℤ)
    (missed : List Time)
    → missed_slots monitor_id interval current bound limit ≡ ok missed
    → (missed ≡ [])
      ⊎ ((pos 0 <ℤ interval)
          × (missed
              ≡ missed_from (pos_part limit) interval (add current (pos 0 -ℤ interval)) bound))
unfolding missed_slots whole_seconds quot
missed_slots_cases monitor_id interval current bound limit missed e = ground arith

pub missed_slots-Descending :
    (monitor_id : String) (interval : Duration) (current bound : Time) (limit : ℤ)
    (missed : List Time)
    → missed_slots monitor_id interval current bound limit ≡ ok missed
    → Descending current missed
missed_slots-Descending monitor_id interval current bound limit missed e =
    elim (missed_slots_cases monitor_id interval current bound limit missed e) [
      | inl none_missed ↦ subst (Descending current) (sym none_missed) tt
      | inr (positive, same) ↦ subst (Descending current) (sym same) (
          missed_from-Descending (pos_part limit) interval (add current (pos 0 -ℤ interval)) current
            bound positive (back-earlier current interval positive))
    ]

module _ (json : Json) (config : Config) (schedulable : Schedulable) (now : Time) where
  -- The call records a skipped scheduled Run of exactly this slot.
  abbrev pub Skips : Time → StoreCall → Type 0
  Skips t (records_skipped r entries) =
      (r.outcome ≡ Outcome.skipped)
      × (r.kind ≡ Kind.scheduled)
      × (r.slot ≡ slot_of config schedulable t)
  Skips t (claims r) = ⊥
  Skips t (releases r) = ⊥
  Skips t (completes r holder o entries) = ⊥

  -- The Run of the slot, its skip, the identifier of its event or the event cannot be made.
  abbrev pub Unbuildable : Time → MissedAnswers → Type 0
  Unbuildable t a =
      ((e : NewRunError) × (new_scheduled_run config schedulable t "" now a.run_id ≡ err e))
      ⊎ ((v : Run) × ((new_scheduled_run config schedulable t "" now a.run_id ≡ ok v)
            × (((e : Error) × (skip v.id v.slot Kind.scheduled ≡ err e))
                ⊎ ((r : Run) × ((skip v.id v.slot Kind.scheduled ≡ ok r)
                      × ((a.event_id ≡ none)
                          ⊎ ((id : String) × ((e : EntryError) × (new_run_recorded_entry json id r
                                    (to_utc now)
                                  ≡ err e)))))))))

  -- Slot after slot, a call is made unless the scheduler stops or the record cannot be built, and the
  -- walk goes on exactly if the store accepts; the accepted calls are counted.
  abbrev pub Walks : List (Time × MissedAnswers) → List StoreCall × ℕ → Type 0
  Walks [] (calls, recorded) = (calls ≡ []) × (recorded ≡ 0)
  Walks ((t, a) ∷ rest) ([], recorded) = (recorded ≡ 0) × ((a.stopped ≡ true) ⊎ Unbuildable t a)
  Walks ((t, a) ∷ rest) (call ∷ calls, recorded) =
      (a.stopped ≡ false)
      × Skips t call
      × (((a.record_skipped ≡ ok tt) × ((n : ℕ) × ((recorded ≡ suc n) × Walks rest (calls, n))))
          ⊎ (((e : StoreError) × (a.record_skipped ≡ err e)) × (calls ≡ []) × (recorded ≡ 0)))

  skip_call-Skips :
      (a : MissedAnswers) (t : Time) (call : StoreCall)
      → skip_call json config schedulable now a t ≡ some call
      → Skips t call
  unfolding skip_call skip new_scheduled_run new_run_for
  skip_call-Skips a t (records_skipped r entries) e = ground arith
  skip_call-Skips a t (claims r) e = ground arith
  skip_call-Skips a t (releases r) e = ground arith
  skip_call-Skips a t (completes r holder o entries) e = ground arith

  skip_call-Unbuildable :
      (a : MissedAnswers) (t : Time)
      → skip_call json config schedulable now a t ≡ none
      → Unbuildable t a
  unfolding skip_call
  skip_call-Unbuildable a t e =
      elim (Result-cases (new_scheduled_run config schedulable t "" now a.run_id)) [
        | inr (x, n) ↦ inl (x, n)
        | inl (v, n) ↦ elim (Result-cases (skip v.id v.slot Kind.scheduled)) [
          | inr (x, k) ↦ inr (v, (n, inl (x, k)))
          | inl (r, k) ↦ elim (Option-cases a.event_id) [
            | inl i ↦ inr (v, (n, inr (r, (k, inl i))))
            | inr (id, i) ↦ elim (Result-cases (new_run_recorded_entry json id r (to_utc now))) [
              | inr (x, m) ↦ inr (v, (n, inr (r, (k, inr (id, (x, m))))))
              | inl (entry, m) ↦ absurd (cc (rw (skip_call, n, k, i, m) at e))
            ]
          ]
        ]
      ]

  abbrev recording : List (Time × MissedAnswers) → List StoreCall × ℕ
  recording slots = record_each json config schedulable now slots

  -- The first slot, where the store is called.
  recorded-Walks :
      (t : Time) (a : MissedAnswers) (rest : List (Time × MissedAnswers)) (call : StoreCall)
      → a.stopped ≡ false
      → skip_call json config schedulable now a t ≡ some call
      → Walks rest (recording rest)
      → Walks ((t, a) ∷ rest) (recording ((t, a) ∷ rest))
  unfolding record_each
  recorded-Walks t a rest call s c ih =
      let skips = skip_call-Skips a t call c in
      elim (Result-cases a.record_skipped) [
        | inl (u, r) ↦
            let same : recording ((t, a) ∷ rest)
                ≡ (call ∷ (recording rest).0, suc (recording rest).1) =
              simp (record_each, s, c, r) refl in
            subst (Walks ((t, a) ∷ rest)) (sym same)
              (s, skips, inl (r, ((recording rest).1, (refl, ih))))
        | inr (e, r) ↦
            let same : recording ((t, a) ∷ rest) ≡ (call ∷ [], 0) =
              simp (record_each, s, c, r) refl in
            subst (Walks ((t, a) ∷ rest)) (sym same) (s, skips, inr ((e, r), refl, refl))
      ]

  pub record_each-Walks : (slots : List (Time × MissedAnswers)) → Walks slots (recording slots)
  unfolding record_each
  record_each-Walks [] = (refl, refl)
  record_each-Walks ((t, a) ∷ rest) =
      let ih = record_each-Walks rest in
      elim (Bool-cases a.stopped) [
        | inl s ↦
            let same : recording ((t, a) ∷ rest) ≡ ([], 0) = simp (record_each, s) refl in
            subst (Walks ((t, a) ∷ rest)) (sym same) (refl, inl s)
        | inr s ↦ elim (Option-cases (skip_call json config schedulable now a t)) [
          | inl c ↦
              let same : recording ((t, a) ∷ rest) ≡ ([], 0) = simp (record_each, s, c) refl in
              subst (Walks ((t, a) ∷ rest)) (sym same) (refl, inr (skip_call-Unbuildable a t c))
          | inr (call, c) ↦ recorded-Walks t a rest call s c ih
        ]
      ]

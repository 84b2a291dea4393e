-- ===== src/Run/Missed.antt =====
-- The slots that `MissedSlots` of internal/run/schedule.go reports.
use probehive.Base.{
  ℕ, zero, suc, String, ◌*◌, ◌<◌, true, false, ◌≡◌, ◌⊎◌, refl, ap, ◌∙◌, arith, ok, List, some,
  length, get_elem?,
}
use probehive.Base.Int.{
  ℤ, pos, pos_part, neg_part, ◌+ℤ◌, ◌-ℤ◌, ◌≤ℤ◌, ◌<ℤ◌, +ℤ_parts, -ℤ_parts, eq_of_parts,
}
use probehive.Base.Time.{Time, Duration, seconds, add, is_zero}
use probehive.Run.Schedule.{missed_from, missed_slots}
use probehive.Run.Slots.{whole_seconds-seconds, rem-seconds}

-- One interval earlier.
back : (t : Time) (k : ℕ) → (add t (pos 0 -ℤ seconds k)).instant +ℤ seconds k ≡ t.instant
unfolding add
back t k = omega (
  arith,
  eq_of_parts (t.instant +ℤ (pos 0 -ℤ seconds k) +ℤ seconds k) t.instant,
  -ℤ_parts (pos 0) (seconds k),
  +ℤ_parts t.instant (pos 0 -ℤ seconds k),
  +ℤ_parts (t.instant +ℤ (pos 0 -ℤ seconds k)) (seconds k),
)

back-location : (t : Time) (d : Duration) → (add t d).location ≡ t.location
unfolding add
back-location t d = refl

regroup :
    (a b c : ℤ) (j k : ℕ)
    → a +ℤ seconds (j * k) ≡ b
    → b +ℤ seconds k ≡ c
    → a +ℤ seconds (suc j * k) ≡ c
regroup a b c j k p q = omega (
  arith,
  eq_of_parts (a +ℤ seconds (suc j * k)) c,
  +ℤ_parts a (seconds (suc j * k)),
  +ℤ_parts a (seconds (j * k)),
  +ℤ_parts b (seconds k),
  ap pos_part p,
  ap neg_part p,
  ap pos_part q,
  ap neg_part q,
)

module _ (k : ℕ) (bound : Time) where
  missed_from-elem :
      (room j : ℕ) (candidate t : Time)
      → get_elem? (missed_from room (seconds k) candidate bound) j ≡ some t
      → (j < room)
        × (t.instant +ℤ seconds (j * k) ≡ candidate.instant)
        × (t.location ≡ candidate.location)
        × ((is_zero bound ≡ true) ⊎ (bound.instant <ℤ t.instant))
  unfolding missed_from
  missed_from-elem zero j candidate t e = cc
  missed_from-elem (suc room) zero candidate t e = ground (
    arith,
    eq_of_parts (t.instant +ℤ seconds (0 * k)) candidate.instant,
    +ℤ_parts t.instant (seconds (0 * k)),
  )
  missed_from-elem (suc room) (suc j) candidate t e =
      let earlier = add candidate (pos 0 -ℤ seconds k) in
      ground (
        arith,
        missed_from-elem room j earlier t,
        regroup t.instant earlier.instant candidate.instant j k,
        back candidate k,
        back-location candidate (pos 0 -ℤ seconds k),
      )

  missed_from_complete :
      (room : ℕ) (candidate : Time)
      → length (missed_from room (seconds k) candidate bound) < room
      → (is_zero bound ≡ false)
        × (candidate.instant
            ≤ℤ bound.instant +ℤ seconds (length (missed_from room (seconds k) candidate bound) * k))
  unfolding missed_from
  missed_from_complete zero candidate h = elim h [ ]
  missed_from_complete (suc room) candidate h =
      let earlier = add candidate (pos 0 -ℤ seconds k) in
      let rest = length (missed_from room (seconds k) earlier bound) in
      ground (
        arith,
        missed_from_complete room earlier,
        back candidate k,
        ap pos_part (back candidate k),
        ap neg_part (back candidate k),
        +ℤ_parts earlier.instant (seconds k),
        +ℤ_parts bound.instant (seconds (rest * k)),
        +ℤ_parts bound.instant (seconds (suc rest * k)),
        +ℤ_parts bound.instant (seconds (0 * k)),
      )

module _ (monitor_id : String) (k limit : ℕ) (current bound : Time) (positive : 0 < k)
    {missed : List Time}
    (reported : missed_slots monitor_id (seconds k) current bound (pos (suc limit))
      ≡ ok missed) where
  missed_by_loop :
      missed_from (suc limit) (seconds k) (add current (pos 0 -ℤ seconds k)) bound ≡ missed
  unfolding missed_slots
  missed_by_loop = ground (arith, whole_seconds-seconds k, rem-seconds k)

  -- The missed slots are reported newest first and without a gap: the one at place j lies j + 1
  -- intervals before the current slot, in its location, after the bound unless that is zero, and
  -- there are no more of them than the limit.
  pub missed_slots-elem :
      (j : ℕ) (t : Time)
      → get_elem? missed j ≡ some t
      → (j < suc limit)
        × (t.instant +ℤ seconds (suc j * k) ≡ current.instant)
        × (t.location ≡ current.location)
        × ((is_zero bound ≡ true) ⊎ (bound.instant <ℤ t.instant))
  missed_slots-elem j t e =
      let earlier = add current (pos 0 -ℤ seconds k) in
      let (room, lies, located, late) =
        missed_from-elem k bound (suc limit) j earlier t (rw missed_by_loop e) in
      (
        room,
        regroup t.instant earlier.instant current.instant j k lies (back current k),
        located ∙ back-location current (pos 0 -ℤ seconds k),
        late,
      )

  -- No missed slot is left out below the limit: where fewer slots are reported than the limit, there
  -- is a bound, and the next slot to report would not lie after it.
  pub missed_slots_complete :
      length missed < suc limit
      → (is_zero bound ≡ false)
        × (current.instant ≤ℤ bound.instant +ℤ seconds (suc (length missed) * k))
  missed_slots_complete short =
      let earlier = add current (pos 0 -ℤ seconds k) in
      let (some_bound, reached) =
        missed_from_complete k bound (suc limit) earlier (rw missed_by_loop short) in
      (
        some_bound,
        omega (
          arith,
          reached,
          ap (λ (xs : List Time). length xs * k) missed_by_loop,
          ap pos_part (back current k),
          ap neg_part (back current k),
          +ℤ_parts earlier.instant (seconds k),
          +ℤ_parts bound.instant (seconds (length missed * k)),
          +ℤ_parts bound.instant (seconds (suc (length missed) * k)),
          +ℤ_parts bound.instant
              (seconds (length (missed_from (suc limit) (seconds k) earlier bound) * k)),
        ),
      )

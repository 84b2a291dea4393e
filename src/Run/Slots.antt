-- ===== src/Run/Slots.antt =====
-- The slot series of internal/run/schedule.go, and which slot of it is current.
use probehive.Base.{ℕ, String, ◌*◌, ◌%◌, ◌<◌, false, ◌≡◌, ap, ◌∙◌, arith, ok}
use probehive.Base.Int.{
  ℤ, pos, pos_part, neg_part, ◌+ℤ◌, ◌-ℤ◌, ◌*ℤ◌, ◌≤ℤ◌, ◌<ℤ◌, quot, rem, leb_ℤ, +ℤ_parts, -ℤ_parts,
  eq_of_parts,
}
use probehive.Base.Time.{Time, Duration, second, seconds, second_duration, unix_epoch, to_utc}
use native.Mathlib.Nat.{mod-lt}
use probehive.Base.Hash.{fnv64a}
use probehive.Run.FloorDiv.{floor_div_bounds, floor_div_unique, mul_parts}
use probehive.Run.Schedule.{floor_div, unix, from_unix, whole_seconds, slot_offset, slot_for}

pub whole_seconds-seconds : (k : ℕ) → whole_seconds (seconds k) ≡ pos k
unfolding whole_seconds quot
whole_seconds-seconds k = ap pos (omega arith)

pub rem-seconds : (k : ℕ) → rem (seconds k) second_duration ≡ pos 0
unfolding rem
rem-seconds k = ap pos (omega arith)

pub positive_test : (k : ℕ) → 0 < k → leb_ℤ (pos k) (pos 0) ≡ false
positive_test k h = ground arith

-- The offset of a Monitor with a positive interval of whole seconds is a whole number of seconds and
-- lies within the interval, zero included.
pub slot_offset_bounds :
    (m : String) (k : ℕ)
    → 0 < k
    → (pos 0 ≤ℤ slot_offset m (seconds k))
      × (slot_offset m (seconds k) <ℤ seconds k)
      × (rem (slot_offset m (seconds k)) second_duration ≡ pos 0)
unfolding slot_offset
slot_offset_bounds m k h =
    rw (whole_seconds-seconds, positive_test k h)
      (
        omega (arith, mod-lt (fnv64a m) h),
        omega (arith, mod-lt (fnv64a m) h),
        rem-seconds (fnv64a m % k),
      )

-- The offset of a Monitor's series in whole seconds.
abbrev pub offset_seconds : String → Duration → ℤ
offset_seconds m interval = quot (slot_offset m interval) second_duration

-- The slot of a Monitor with the index, counted from the Unix epoch.
abbrev pub series : String → ℕ → ℤ → Time
series m k i = from_unix (i *ℤ pos k +ℤ offset_seconds m (seconds k))

abbrev pub index_at : String → ℕ → Time → ℤ
index_at m k now = floor_div (unix now -ℤ offset_seconds m (seconds k)) (pos k)

slot_for-series :
    (m : String) (k : ℕ) (now : Time)
    → 0 < k
    → slot_for m (seconds k) now ≡ ok (series m k (index_at m k (to_utc now)))
unfolding slot_for
slot_for-series m k now h = rw (whole_seconds-seconds, rem-seconds, positive_test k h)

unix_bounds :
    (t : Time)
    → (unix t *ℤ second_duration ≤ℤ t.instant -ℤ pos unix_epoch)
      × (t.instant -ℤ pos unix_epoch <ℤ unix t *ℤ second_duration +ℤ second_duration)
unfolding unix
unix_bounds t = floor_div_bounds (t.instant -ℤ pos unix_epoch) second (omega arith)

-- Whole seconds and instants have one order.
from_unix-le : (s : ℤ) (t : Time) → s ≤ℤ unix t → (from_unix s).instant ≤ℤ t.instant
unfolding from_unix
from_unix-le s t h = omega (
  arith,
  unix_bounds t,
  mul_parts s second,
  mul_parts (unix t) second,
  +ℤ_parts (s *ℤ second_duration) (pos unix_epoch),
  -ℤ_parts t.instant (pos unix_epoch),
)

lt-from_unix : (s : ℤ) (t : Time) → unix t <ℤ s → t.instant <ℤ (from_unix s).instant
unfolding from_unix
lt-from_unix s t h = omega (
  arith,
  unix_bounds t,
  mul_parts s second,
  mul_parts (unix t) second,
  +ℤ_parts (s *ℤ second_duration) (pos unix_epoch),
  +ℤ_parts (unix t *ℤ second_duration) second_duration,
  -ℤ_parts t.instant (pos unix_epoch),
)

le-unix : (s : ℤ) (t : Time) → (from_unix s).instant ≤ℤ t.instant → s ≤ℤ unix t
unfolding from_unix
le-unix s t h = omega (
  arith,
  unix_bounds t,
  mul_parts s second,
  mul_parts (unix t) second,
  +ℤ_parts (s *ℤ second_duration) (pos unix_epoch),
  +ℤ_parts (unix t *ℤ second_duration) second_duration,
  -ℤ_parts t.instant (pos unix_epoch),
)

unix-lt : (s : ℤ) (t : Time) → t.instant <ℤ (from_unix s).instant → unix t <ℤ s
unfolding from_unix
unix-lt s t h = omega (
  arith,
  unix_bounds t,
  mul_parts s second,
  mul_parts (unix t) second,
  +ℤ_parts (s *ℤ second_duration) (pos unix_epoch),
  -ℤ_parts t.instant (pos unix_epoch),
)

next_multiple : (i : ℤ) (k : ℕ) → (i +ℤ pos 1) *ℤ pos k ≡ i *ℤ pos k +ℤ pos k
next_multiple i k = omega (
  arith,
  eq_of_parts ((i +ℤ pos 1) *ℤ pos k) (i *ℤ pos k +ℤ pos k),
  mul_parts i k,
  mul_parts (i +ℤ pos 1) k,
  +ℤ_parts (i *ℤ pos k) (pos k),
  ap (λ (n : ℕ). n * k) (+ℤ_parts i (pos 1)),
)

module _ (m : String) (k : ℕ) (h : 0 < k) where
  index_bounds :
      (t : Time)
      → (index_at m k t *ℤ pos k +ℤ offset_seconds m (seconds k) ≤ℤ unix t)
        × (unix t <ℤ (index_at m k t +ℤ pos 1) *ℤ pos k +ℤ offset_seconds m (seconds k))
  index_bounds t = rw (next_multiple (index_at m k t) k) (
      omega (
        arith,
        floor_div_bounds (unix t -ℤ offset_seconds m (seconds k)) k h,
        +ℤ_parts (index_at m k t *ℤ pos k) (pos k),
        +ℤ_parts (index_at m k t *ℤ pos k) (offset_seconds m (seconds k)),
        +ℤ_parts (index_at m k t *ℤ pos k +ℤ pos k) (offset_seconds m (seconds k)),
        -ℤ_parts (unix t) (offset_seconds m (seconds k)),
      ))

  index_unique :
      (i : ℤ) (t : Time)
      → i *ℤ pos k +ℤ offset_seconds m (seconds k) ≤ℤ unix t
      → unix t <ℤ (i +ℤ pos 1) *ℤ pos k +ℤ offset_seconds m (seconds k)
      → index_at m k t ≡ i
  index_unique i t lo hi =
      floor_div_unique (unix t -ℤ offset_seconds m (seconds k)) i k
        (omega (
          arith,
          +ℤ_parts (i *ℤ pos k) (offset_seconds m (seconds k)),
          -ℤ_parts (unix t) (offset_seconds m (seconds k)),
        ))
        (omega (
          arith,
          ap pos_part (next_multiple i k),
          ap neg_part (next_multiple i k),
          +ℤ_parts (i *ℤ pos k) (pos k),
          +ℤ_parts ((i +ℤ pos 1) *ℤ pos k) (offset_seconds m (seconds k)),
          -ℤ_parts (unix t) (offset_seconds m (seconds k)),
        ))
        h

  -- The current slot of a Monitor with a positive interval of whole seconds is on its series, has
  -- arrived, and is the last that has: the next slot of the series is still to come.
  pub slot_for-current :
      (now : Time)
      → (i : ℤ) × ((slot_for m (seconds k) now ≡ ok (series m k i))
          × ((series m k i).instant ≤ℤ now.instant)
          × (now.instant <ℤ (series m k (i +ℤ pos 1)).instant))
  slot_for-current now =
      let at = to_utc now in
      let i = index_at m k at in
      (
        i,
        (
          slot_for-series m k now h,
          from_unix-le (i *ℤ pos k +ℤ offset_seconds m (seconds k)) at (index_bounds at).0,
          lt-from_unix ((i +ℤ pos 1) *ℤ pos k +ℤ offset_seconds m (seconds k)) at
              (index_bounds at).1,
        ),
      )

  -- Two workers whose clocks read instants between one slot of the series and the next derive that
  -- same slot, wherever their clocks are located.
  pub slot_for_unique :
      (i : ℤ) (now : Time)
      → (series m k i).instant ≤ℤ now.instant
      → now.instant <ℤ (series m k (i +ℤ pos 1)).instant
      → slot_for m (seconds k) now ≡ ok (series m k i)
  slot_for_unique i now lo hi =
      slot_for-series m k now h
      ∙ ap (λ (j : ℤ). ok (series m k j))
          (index_unique i (to_utc now)
            (le-unix (i *ℤ pos k +ℤ offset_seconds m (seconds k)) (to_utc now) lo)
            (unix-lt ((i +ℤ pos 1) *ℤ pos k +ℤ offset_seconds m (seconds k)) (to_utc now) hi))

-- Neighbours of a series are one interval apart.
pub series_step :
    (m : String) (k : ℕ) (i : ℤ)
    → (series m k (i +ℤ pos 1)).instant ≡ (series m k i).instant +ℤ seconds k
unfolding from_unix
series_step m k i =
    let offset = offset_seconds m (seconds k) in
    let there = (i +ℤ pos 1) *ℤ pos k +ℤ offset in
    let here = i *ℤ pos k +ℤ offset in
    omega (
      arith,
      eq_of_parts (there *ℤ second_duration +ℤ pos unix_epoch)
          (here *ℤ second_duration +ℤ pos unix_epoch +ℤ seconds k),
      ap pos_part (next_multiple i k),
      ap neg_part (next_multiple i k),
      +ℤ_parts (i *ℤ pos k) (pos k),
      +ℤ_parts ((i +ℤ pos 1) *ℤ pos k) offset,
      +ℤ_parts (i *ℤ pos k) offset,
      mul_parts there second,
      mul_parts here second,
      +ℤ_parts (there *ℤ second_duration) (pos unix_epoch),
      +ℤ_parts (here *ℤ second_duration) (pos unix_epoch),
      +ℤ_parts (here *ℤ second_duration +ℤ pos unix_epoch) (seconds k),
    )

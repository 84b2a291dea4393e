-- ===== src/Base/Time.antt =====
-- time.Time and time.Duration of Go's standard library, as far as the program reads them.
use probehive.Base.Tests.{if◌then◌else◌}
use probehive.Base.Int.{ℤ, pos, negsuc, ◌+ℤ◌, ◌-ℤ◌, ltb_ℤ, leb_ℤ, eqb_ℤ}
use Prim.Native.Nat.{ℕ, ◌*◌, ◌-◌, ◌^◌}
use mathlib.Core.Bool.{Bool, true, false, not, ◌&&◌}

-- `utc` is `time.UTC`; any other location shows the offset, in seconds, in force at the instant.
pub data Location : Type 0 where
  utc : Location
  zone : ℤ → Location

-- The instant counts nanoseconds from 0001-01-01T00:00:00Z, the zero `Time`.
pub record Time : Type 0 where
  pub instant : ℤ
  pub location : Location

-- A `Duration` is an int64 of nanoseconds.
abbrev pub Duration : Type 0
Duration = ℤ

abbrev pub second : ℕ
second = 1_000_000_000

abbrev pub seconds : ℕ → Duration
seconds n = pos (n * second)

abbrev pub minutes : ℕ → Duration
minutes n = pos (n * 60 * second)

abbrev pub zero_time : Time
zero_time = record { instant = pos 0; location = utc }

abbrev pub is_zero : Time → Bool
is_zero t = eqb_ℤ t.instant (pos 0)

abbrev pub before : Time → Time → Bool
before a b = ltb_ℤ a.instant b.instant

abbrev pub after : Time → Time → Bool
after a b = ltb_ℤ b.instant a.instant

abbrev pub same_instant : Time → Time → Bool
same_instant a b = eqb_ℤ a.instant b.instant

abbrev pub to_utc : Time → Time
to_utc t = record t { location = utc }

abbrev pub in_utc : Location → Bool
in_utc utc = true
in_utc (zone offset) = false

abbrev pub zone_offset : Location → ℤ
zone_offset utc = pos 0
zone_offset (zone offset) = offset

-- `t.Add(d)`. The range of `Time` is some 292 billion years, so the sum is not wrapped.
unfoldable pub add : Time → Duration → Time
add t d = record t { instant = t.instant +ℤ d }

-- `a.Sub(b)`, which saturates at the ends of int64.
unfoldable pub sub : Time → Time → Duration
sub a b =
    let d = a.instant -ℤ b.instant in
    if leb_ℤ (pos (2 ^ 63)) d
    then pos (2 ^ 63 - 1)
    else if leb_ℤ d (negsuc (2 ^ 63 - 1))
    then negsuc (2 ^ 63 - 1)
    else d

-- `!t.IsZero()` and a zone offset of zero, as several packages test for UTC.
abbrev pub has_zero_offset : Time → Bool
has_zero_offset t = not (is_zero t) && eqb_ℤ (zone_offset t.location) (pos 0)

-- `!t.IsZero() && t.Location() == time.UTC`.
abbrev pub is_utc_time : Time → Bool
is_utc_time t = not (is_zero t) && in_utc t.location

-- Nanoseconds from the zero `Time` to the Unix epoch.
abbrev pub unix_epoch : ℕ
unix_epoch = 62135596800 * second

abbrev pub second_duration : Duration
second_duration = pos second

-- ===== src/Run/Lease.antt =====
-- internal/run/run.go: `Misfired` and `LeaseDuration`.
use probehive.Base.{Bool, false, if◌then◌else◌}
use probehive.Base.Int.{pos, ◌+ℤ◌, wrap64, ltb_ℤ, leb_ℤ}
use probehive.Base.Time.{Time, Duration, seconds, minutes, sub}

unfoldable pub misfired : Time → Time → Duration → Bool
misfired scheduled_for now interval =
    if leb_ℤ interval (pos 0) then false else ltb_ℤ interval (sub now scheduled_for)

abbrev pub lease_margin : Duration
lease_margin = seconds 30

abbrev pub max_lease_duration : Duration
max_lease_duration = minutes 15

unfoldable pub lease_duration : Duration → Duration
lease_duration execution_ceiling =
    let ceiling = if ltb_ℤ execution_ceiling (pos 0) then pos 0 else execution_ceiling in
    let duration = wrap64 (ceiling +ℤ lease_margin) in
    if ltb_ℤ max_lease_duration duration then max_lease_duration else duration

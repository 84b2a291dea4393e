-- ===== src/Run/Leases.antt =====
-- A Run's lease and outcome over time: internal/run/run.go's transitions in sequence.
use probehive.Base.{ℕ, true, ok, err, ◌≡◌, ◌↔◌, arith, ◌<◌, ◌+◌, ◌-◌, ◌*◌, ◌^◌, min}
use probehive.Base.Int.{pos, pos_part, ◌+ℤ◌, ◌<ℤ◌, +ℤ_parts, -ℤ_parts, wrap64}
use probehive.Base.Time.{Time, Duration, sub, add, second}
use probehive.Run.Model.{Outcome, Error, Run}
use probehive.Run.Lifecycle.{renew_lease, complete}
use probehive.Run.Lease.{misfired, lease_duration}

-- Once an outcome is recorded, no completion and no renewal is accepted any more.
pub complete_final :
    (r s : Run) (outcome later : Outcome) (started finished from to expires : Time)
    → complete r outcome started finished ≡ ok s
    → (complete s later from to ≡ err Error.outcome_already_recorded)
      × (renew_lease s expires ≡ err Error.lease_already_released)
unfolding complete renew_lease
complete_final r s outcome later started finished from to expires eq = ground arith

-- A due instant counts as misfired exactly if more than the interval has passed, for a positive
-- interval below the largest Duration.
pub misfired_iff :
    (scheduled_for now : Time) (interval : Duration)
    → pos 0 <ℤ interval
    → interval <ℤ pos (2 ^ 63 - 1)
    → (misfired scheduled_for now interval ≡ true)
      ↔ (add scheduled_for interval).instant <ℤ now.instant
unfolding misfired sub add
misfired_iff scheduled_for now interval p b = (
  λ h.
      ground (
        arith,
        +ℤ_parts scheduled_for.instant interval,
        -ℤ_parts now.instant scheduled_for.instant,
      ),
  λ h.
      ground (
        arith,
        +ℤ_parts scheduled_for.instant interval,
        -ℤ_parts now.instant scheduled_for.instant,
      ),
)

-- Where the sum fits int64, the lease is the execution ceiling and thirty seconds, but never more
-- than fifteen minutes; a negative ceiling counts as zero.
pub lease_duration_lem :
    (ceiling : Duration)
    → pos_part ceiling + 30 * second < 2 ^ 63
    → lease_duration ceiling ≡ pos (min (pos_part ceiling + 30 * second) (15 * 60 * second))
unfolding lease_duration ◌+ℤ◌ wrap64
lease_duration_lem ceiling b = ground arith

-- For an execution ceiling above fifteen minutes the lease is shorter than the execution that it is
-- to protect.
pub lease_may_lapse :
    (ceiling : ℕ)
    → 15 * 60 * second < ceiling
    → ceiling + 30 * second < 2 ^ 63
    → lease_duration (pos ceiling) <ℤ pos ceiling
lease_may_lapse ceiling h b = ground (arith, lease_duration_lem (pos ceiling) b)

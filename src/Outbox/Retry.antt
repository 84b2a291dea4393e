-- ===== src/Outbox/Retry.antt =====
-- internal/outbox/outbox.go: `RetryDelay`. All durations lie between zero and five minutes, so they
-- are numbers of nanoseconds and nothing wraps.
use probehive.Base.{
  ℕ, zero, suc, ◌+◌, ◌-◌, ◌*◌, ◌/◌, ◌%◌, ◌==◌, String, ◌∷◌, ◌++◌, ltb, leb, bytes, if◌then◌else◌,
}
use probehive.Base.Int.{ℤ, pos, pos_part, ltb_ℤ}
use probehive.Base.Time.{second}
use probehive.Base.Hash.{fnv_write, offset_basis}
use probehive.Base.Decimal.{decimal}

abbrev pub retry_base : ℕ
retry_base = second

abbrev pub retry_cap : ℕ
retry_cap = 300 * second

-- The rounds of the loop that are left, and `delay`.
unfoldable pub double : ℕ → ℕ → ℕ
double zero delay = delay
double (suc rounds) delay =
    let more = double rounds (delay * 2) in
    if ltb delay retry_cap then (if ltb (retry_cap / 2) delay then retry_cap else more) else delay

-- The sum of the hash of the identifier and the attempt, as the format `%s:%d` prints them.
unfoldable pub jitter_hash : String → ℤ → ℕ
jitter_hash id attempt = fnv_write offset_basis (bytes id ++ b':' ∷ decimal attempt)

unfoldable pub jittered : ℕ → ℕ → ℕ
jittered delay hash =
    if leb retry_cap delay
    then retry_cap
    else let room = retry_cap - delay in
      let bound = if ltb room (delay / 5) then room else delay / 5 in
      if bound == 0 then delay else delay + hash % (bound + 1)

unfoldable pub first_attempt : ℤ → ℤ
first_attempt attempt = if ltb_ℤ attempt (pos 1) then pos 1 else attempt

unfoldable pub retry_delay : String → ℤ → ℕ
retry_delay id attempt =
    let counted = first_attempt attempt in
    jittered (double (pos_part counted - 1) retry_base) (jitter_hash id counted)

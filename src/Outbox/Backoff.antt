-- ===== src/Outbox/Backoff.antt =====
-- How long `RetryDelay` of internal/outbox/outbox.go waits.
use probehive.Base.{
  ℕ, zero, suc, ◌+◌, ◌-◌, ◌*◌, ◌/◌, ◌^◌, ◌≤◌, ◌≡◌, refl, String, ltb, if◌then◌else◌, arith,
}
use probehive.Base.Int.{ℤ, pos, negsuc, pos_part}
use probehive.Base.Time.{second}
use probehive.Outbox.Retry.{
  retry_base, retry_cap, double, jittered, jitter_hash, first_attempt, retry_delay,
}

-- The delay before the jitter, by the number of attempts before this one: 1, 2, 4, … 256 seconds,
-- then five minutes.
abbrev pub nominal : ℕ → ℕ
nominal n = if ltb n 9 then 2 ^ n * second else retry_cap

double_lem : (n : ℕ) → double n retry_base ≡ nominal n
unfolding double
double_lem zero = refl
double_lem (suc zero) = refl
double_lem (suc (suc zero)) = refl
double_lem (suc (suc (suc zero))) = refl
double_lem (suc (suc (suc (suc zero)))) = refl
double_lem (suc (suc (suc (suc (suc zero))))) = refl
double_lem (suc (suc (suc (suc (suc (suc zero)))))) = refl
double_lem (suc (suc (suc (suc (suc (suc (suc zero))))))) = refl
double_lem (suc (suc (suc (suc (suc (suc (suc (suc zero)))))))) = refl
double_lem (suc (suc (suc (suc (suc (suc (suc (suc (suc n))))))))) = ground arith

jittered_bounds :
    (delay hash : ℕ)
    → delay ≤ retry_cap
    → (delay ≤ jittered delay hash)
      × (jittered delay hash ≤ retry_cap)
      × (jittered delay hash ≤ delay + delay / 5)
unfolding jittered
jittered_bounds delay hash h = ground arith

nominal_bounds : (n : ℕ) → (second ≤ nominal n) × (nominal n ≤ retry_cap)
nominal_bounds zero = omega arith
nominal_bounds (suc zero) = omega arith
nominal_bounds (suc (suc zero)) = omega arith
nominal_bounds (suc (suc (suc zero))) = omega arith
nominal_bounds (suc (suc (suc (suc zero)))) = omega arith
nominal_bounds (suc (suc (suc (suc (suc zero))))) = omega arith
nominal_bounds (suc (suc (suc (suc (suc (suc zero)))))) = omega arith
nominal_bounds (suc (suc (suc (suc (suc (suc (suc zero))))))) = omega arith
nominal_bounds (suc (suc (suc (suc (suc (suc (suc (suc zero)))))))) = omega arith
nominal_bounds (suc (suc (suc (suc (suc (suc (suc (suc (suc n))))))))) = ground arith

-- The attempts before this one; an attempt below 1 counts as the first.
abbrev pub attempts_before : ℤ → ℕ
attempts_before attempt = pos_part attempt - 1

counted_lem : (attempt : ℤ) → pos_part (first_attempt attempt) - 1 ≡ attempts_before attempt
unfolding first_attempt
counted_lem (pos n) = ground arith
counted_lem (negsuc n) = ground arith

-- A retry waits at least a second and at most five minutes: the doubled delay of its attempt, and
-- at most a fifth of that on top. The delay is 1, 2, 4, … 256 seconds for the first nine attempts,
-- and five minutes from the tenth on.
pub retry_delay_bounds :
    (id : String) (attempt : ℤ)
    → (second ≤ retry_delay id attempt)
      × (retry_delay id attempt ≤ retry_cap)
      × (nominal (attempts_before attempt) ≤ retry_delay id attempt)
      × (retry_delay id attempt
          ≤ nominal (attempts_before attempt) + nominal (attempts_before attempt) / 5)
unfolding retry_delay
retry_delay_bounds id attempt =
    let n = attempts_before attempt in
    let hash = jitter_hash id (first_attempt attempt) in
    let b = nominal_bounds n in
    let j = jittered_bounds (nominal n) hash b.1 in
    rw (counted_lem attempt, double_lem n) (omega (arith, b.0, j.0), j.1, j.0, j.2)

-- ===== src/Run/FloorDiv.antt =====
-- Division towards negative infinity: `floorDiv` of internal/run/schedule.go.
use probehive.Base.{ℕ, suc, ◌+◌, ◌*◌, ◌/◌, ◌%◌, ◌<◌, ◌≡◌, ◌⊎◌, inl, inr, ap, arith}
use probehive.Base.Int.{
  ℤ, pos, negsuc, pos_part, neg_part, ◌+ℤ◌, ◌-ℤ◌, ◌*ℤ◌, ◌≤ℤ◌, ◌<ℤ◌, quot, rem, +ℤ_parts,
}
use native.Mathlib.Decide.{dec_lt}
use native.Mathlib.Nat.{div-add-mod', mod-lt, div-eq_of_lt-le}
use probehive.Run.Schedule.{floor_div}

-- The quotient of a negative number, from one below its magnitude.
div_succ :
    (n d : ℕ)
    → 0 < d
    → ((suc n % d ≡ 0) × (suc n / d ≡ suc (n / d))) ⊎ ((0 < suc n % d) × (suc n / d ≡ n / d))
div_succ n d h = elim (dec_lt (n % d + 1) d) [
  | yes more ↦
      let e =
        div-eq_of_lt-le {k = n / d} d {m = suc n} (omega (arith, div-add-mod' n d))
          (omega (arith, div-add-mod' n d)) in
      inr (omega (arith, div-add-mod' n d, div-add-mod' (suc n) d, e, ap (λ (q : ℕ). q * d) e), e)
  | no full ↦
      let e =
        div-eq_of_lt-le {k = suc (n / d)} d {m = suc n}
          (omega (arith, div-add-mod' n d, mod-lt n h))
          (omega (arith, div-add-mod' n d, mod-lt n h)) in
      inl (
        omega
            (arith, div-add-mod' n d, mod-lt n h, div-add-mod' (suc n) d, ap (λ (q : ℕ). q * d) e),
        e,
      )
]

pub floor_div_pos : (n d : ℕ) → 0 < d → floor_div (pos n) (pos d) ≡ pos (n / d)
unfolding floor_div quot rem
floor_div_pos n d h = ground arith

pub floor_div_negsuc : (n d : ℕ) → 0 < d → floor_div (negsuc n) (pos d) ≡ negsuc (n / d)
unfolding floor_div quot rem ◌-ℤ◌
floor_div_negsuc n d h = ground (arith, div_succ n d h)

pub mul_parts :
    (a : ℤ) (d : ℕ)
    → (pos_part (a *ℤ pos d) + neg_part a * d ≡ neg_part (a *ℤ pos d) + pos_part a * d)
unfolding ◌*ℤ◌
mul_parts a d = ground arith

-- The quotient times the divisor is the last multiple that is not above the dividend.
pub floor_div_bounds :
    (x : ℤ) (k : ℕ)
    → 0 < k
    → (floor_div x (pos k) *ℤ pos k ≤ℤ x) × (x <ℤ floor_div x (pos k) *ℤ pos k +ℤ pos k)
floor_div_bounds (pos n) k h = rw (floor_div_pos n k h) (
    omega (
      arith,
      mul_parts (pos (n / k)) k,
      +ℤ_parts (pos (n / k) *ℤ pos k) (pos k),
      div-add-mod' n k,
      mod-lt n h,
    ))
floor_div_bounds (negsuc n) k h = rw (floor_div_negsuc n k h) (
    omega (
      arith,
      mul_parts (negsuc (n / k)) k,
      +ℤ_parts (negsuc (n / k) *ℤ pos k) (pos k),
      div-add-mod' n k,
      mod-lt n h,
    ))

-- It is the only one.
pub floor_div_unique :
    (x q : ℤ) (k : ℕ) → q *ℤ pos k ≤ℤ x → x <ℤ q *ℤ pos k +ℤ pos k → 0 < k → floor_div x (pos k) ≡ q
floor_div_unique (pos n) (pos m) k lo hi h = rw (floor_div_pos n k h) (
    ap pos (
      div-eq_of_lt-le {k = m} k {m = n} (omega (arith, mul_parts (pos m) k))
        (omega (arith, mul_parts (pos m) k, +ℤ_parts (pos m *ℤ pos k) (pos k)))))
floor_div_unique (pos n) (negsuc m) k lo hi h =
    absurd (omega (arith, mul_parts (negsuc m) k, +ℤ_parts (negsuc m *ℤ pos k) (pos k)))
floor_div_unique (negsuc n) (pos m) k lo hi h = absurd (omega (arith, mul_parts (pos m) k))
floor_div_unique (negsuc n) (negsuc m) k lo hi h = rw (floor_div_negsuc n k h) (
    ap negsuc (
      div-eq_of_lt-le {k = m} k {m = n}
        (omega (arith, mul_parts (negsuc m) k, +ℤ_parts (negsuc m *ℤ pos k) (pos k)))
        (omega (arith, mul_parts (negsuc m) k))))

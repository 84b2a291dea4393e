-- ===== src/Base/Decimal.antt =====
-- fmt's `%d` of Go's standard library, as bytes.
use probehive.Base.Tests.{ltb, if◌then◌else◌}
use probehive.Base.Int.{ℤ, pos, negsuc}
use Prim.Native.Nat.{ℕ, zero, suc, ◌+◌, ◌/◌, ◌%◌}
use mathlib.Core.List.{List, [], ◌∷◌, ◌++◌}

-- The digits of a number below 10 to the power of the fuel.
digits_within : ℕ → ℕ → List ℕ
digits_within zero n = []
digits_within (suc fuel) n =
    let more = digits_within fuel (n / 10) in
    (if ltb n 10 then [] else more) ++ (b'0' + n % 10) ∷ []

-- Twenty digits are enough for an int64.
unfoldable pub decimal : ℤ → List ℕ
unfolding digits_within
decimal (pos n) = digits_within 20 n
decimal (negsuc n) = b'-' ∷ digits_within 20 (suc n)

-- ===== src/Base/Hash.antt =====
-- hash/fnv of Go's standard library: the 64-bit FNV-1a hash.
use probehive.Base.Texts.{bytes}
use Prim.Native.Nat.{ℕ, ◌*◌, ◌%◌, ◌^◌, bit_xor}
use Prim.Native.String.{String}
use mathlib.Core.List.{List, [], ◌∷◌}

-- `Write`, one byte after another.
unfoldable pub fnv_write : ℕ → List ℕ → ℕ
fnv_write hash [] = hash
fnv_write hash (byte ∷ rest) = fnv_write (bit_xor hash byte * 1099511628211 % 2 ^ 64) rest

abbrev pub offset_basis : ℕ
offset_basis = 14695981039346656037

-- `New64a`, the bytes of a text, `Sum64`.
unfoldable pub fnv64a : String → ℕ
unfolding fnv_write bytes
fnv64a text = fnv_write offset_basis (bytes text)

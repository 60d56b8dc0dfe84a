-- ===== src/Base/Words.antt =====
-- encoding/binary of the Go library: little-endian words over byte slices.
-- A word is its value below 2 ^ 32 or 2 ^ 64; an int64 is its bit pattern.
use Prim.Native.Nat.{ℕ, ◌+◌, ◌*◌, ◌/◌, ◌%◌, ◌^◌, ◌<◌}
use mathlib.Core.Path.{◌≡◌}
use mathlib.Core.List.{[], ◌∷◌, ◌++◌}
use native.Mathlib.Omega.{arith}
use droidmole.Base.Lists.{take, drop}
use droidmole.Base.Text.{Bytes}

abbrev pub IsByte : ℕ → Type 0
IsByte b = b < 256

abbrev pub IsU32 : ℕ → Type 0
IsU32 n = n < 2 ^ 32

abbrev pub IsU64 : ℕ → Type 0
IsU64 n = n < 2 ^ 64

-- uint32(n)
abbrev pub u32 : ℕ → ℕ
u32 n = n % 2 ^ 32

-- binary.LittleEndian.PutUint32 and PutUint64
abbrev pub put_u32 : ℕ → Bytes
put_u32 n = (n % 256) ∷ (n / 2 ^ 8 % 256) ∷ (n / 2 ^ 16 % 256) ∷ (n / 2 ^ 24 % 256) ∷ []

abbrev pub put_u64 : ℕ → Bytes
put_u64 n = put_u32 n ++ put_u32 (n / 2 ^ 32)

-- binary.LittleEndian.Uint32 and Uint64; the callers slice enough bytes
abbrev pub get_u32 : Bytes → ℕ
get_u32 (a ∷ b ∷ c ∷ d ∷ rest) = a + b * 2 ^ 8 + c * 2 ^ 16 + d * 2 ^ 24
get_u32 _ = 0

abbrev pub get_u64 : Bytes → ℕ
get_u64 p = get_u32 (take 4 p) + get_u32 (drop 4 p) * 2 ^ 32

-- p[lo:hi], given as the offset and the number of bytes
abbrev pub slice : ℕ → ℕ → Bytes → Bytes
slice lo n p = take n (drop lo p)

pub get_u32-put_u32 : (n : ℕ) (rest : Bytes) → get_u32 (put_u32 n ++ rest) ≡ u32 n
get_u32-put_u32 n rest = omega arith

pub get_u64-put_u64 : (n : ℕ) → IsU64 n → get_u64 (put_u64 n) ≡ n
get_u64-put_u64 n h = omega arith

-- ===== src/Display/Yuv.antt =====
-- `RgbToYuv` of agent/util/vpx/vpx.go: a frame of three bytes a pixel as planes of luma and chroma.
pub mod Planes
pub mod Frames
use droidmole.Base.{
  ℕ, zero, suc, ◌+◌, ◌-◌, ◌*◌, ◌/◌, ◌%◌, ◌^◌, ◌==◌, ltb, leb, Bool, true, false, ◌||◌, ◌&&◌,
  if◌then◌else◌, Option, none, some, List, [], ◌∷◌, ◌++◌, map, get_elem?, length, Bytes,
}
use droidmole.Go.{Error, Result, ok, err, panic, Exec, pure, lift, continue, ◌>>=◌, ◌>>◌}

-- A number to the nearest multiple of `unit`, ties to the even multiple.
round_unit : ℕ → ℕ → ℕ
round_unit unit n =
    let q = n / unit in
    let r = n % unit in
    if ltb unit (2 * r) || (2 * r == unit && q % 2 == 1) then (q + 1) * unit else q * unit

-- To the 24 bits of a float32; forty doublings of the unit reach every number below 2 ^ 64.
round_from : ℕ → ℕ → ℕ → ℕ
unfolding round_unit
round_from zero unit n = n
round_from (suc more) unit n =
    let rest = round_from more (2 * unit) n in
    if ltb n (2 ^ 24 * unit) then round_unit unit n else rest

unfoldable pub float32 : ℕ → ℕ
unfolding round_from
float32 n = round_from 41 1 n

-- int(float32(w*h) * 1.5): the product in halves, rounded, and cut.
unfoldable pub yuv_size : ℕ → ℕ → ℕ
yuv_size w h = float32 (3 * float32 ((w * h) % 2 ^ 32)) / 2

-- The byte of a signed sum shifted right by 8 and moved up, for bytes `r`, `g` and `b`: with the
-- offset under the shift no difference is negative, so that its quotient is the arithmetic shift.
unfoldable pub luma : ℕ → ℕ → ℕ → ℕ
luma r g b = ((66 * r + 129 * g + 25 * b) / 256 + 16) % 256

unfoldable pub chroma_u : ℕ → ℕ → ℕ → ℕ
chroma_u r g b = ((128 * 256 + 112 * b - (38 * r + 74 * g)) / 256) % 256

unfoldable pub chroma_v : ℕ → ℕ → ℕ → ℕ
chroma_v r g b = ((128 * 256 + 112 * r - (94 * g + 18 * b)) / 256) % 256

-- rgba[i], which panics out of range.
byte_at : Bytes → ℕ → Result ℕ
byte_at xs i = found (get_elem? xs i)
  where
    found : Option ℕ → Result ℕ
    found none = panic
    found (some x) = ok x

from_bytes : (ℕ → ℕ → ℕ → ℕ) → Result ℕ → Result ℕ → Result ℕ → Result ℕ
from_bytes f (ok r) (ok g) (ok b) = ok (f r g b)
from_bytes f _ _ _ = panic

-- The byte for the pixel of index `i`; the index arithmetic is that of uint32.
unfoldable pub pixel : Bytes → (ℕ → ℕ → ℕ → ℕ) → ℕ → Result ℕ
unfolding byte_at from_bytes
pixel rgba f i =
    let at = (3 * i) % 2 ^ 32 in
    from_bytes f (byte_at rgba at) (byte_at rgba ((at + 1) % 2 ^ 32))
      (byte_at rgba ((at + 2) % 2 ^ 32))

-- The values of a loop variable that counts by `step` from `n` to below `bound`.
counting : ℕ → ℕ → ℕ → ℕ → List ℕ
counting zero step n bound = []
counting (suc more) step n bound =
    let rest = counting more step (n + step) bound in if ltb n bound then n ∷ rest else []

unfoldable pub below : ℕ → ℕ → List ℕ
unfolding counting
below step bound = counting bound step 0 bound

-- The indices of a plane's pixels, row by row.
rows : List ℕ → List ℕ → ℕ → List ℕ
rows [] xs w = []
rows (y ∷ ys) xs w = map (λ x. (y * w + x) % 2 ^ 32) xs ++ rows ys xs w

unfoldable pub indices : ℕ → ℕ → ℕ → List ℕ
unfolding rows
indices step w h = rows (below step h) (below step w) w

-- `yuv[pos] = ...; pos++` for a slice of `size` bytes, of which the state has those that were written.
unfoldable pub put : ℕ → Result ℕ → Exec Bytes (Unit {0})
put size (ok b) ys = if ltb (length ys) size then (ok tt, ys ++ b ∷ []) else (panic, ys)
put size (err e) ys = (err e, ys)
put size panic ys = (panic, ys)

unfoldable pub put_all : ℕ → List (Result ℕ) → Exec Bytes (Unit {0})
put_all size [] = pure tt
put_all size (b ∷ bs) = do put size b; put_all size bs

unfoldable pub write_planes : ℕ → Bytes → ℕ → ℕ → Exec Bytes (Unit {0})
write_planes size rgba w h = do
  put_all size (map (pixel rgba luma) (indices 1 w h))
  put_all size (map (pixel rgba chroma_u) (indices 2 w h))
  put_all size (map (pixel rgba chroma_v) (indices 2 w h))

zeros : ℕ → Bytes
zeros zero = []
zeros (suc n) = 0 ∷ zeros n

-- The slice at the end: what was written, and zeros up to its size.
filled : ℕ → Result (Unit {0}) × Bytes → Result Bytes
unfolding zeros
filled size (ok t, ys) = ok (ys ++ zeros (size - length ys))
filled size (err e, ys) = err e
filled size (panic, ys) = panic

unfoldable pub rgb_to_yuv : Bytes → ℕ → ℕ → Result Bytes
unfolding filled
rgb_to_yuv rgba w h = let size = yuv_size w h in filled size (write_planes size rgba w h [])

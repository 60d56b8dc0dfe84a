-- ===== src/Display/Yuv/Frames.antt =====
-- Whole frames through `RgbToYuv` of agent/util/vpx/vpx.go.
use droidmole.Base.{
  ℕ, zero, suc, ◌+◌, ◌-◌, ◌*◌, ◌/◌, ◌%◌, ◌^◌, ◌≤◌, ◌<◌, ◌≡◌, refl, sym, ap, ◌∙◌, arith, some, ◌⊎◌,
  inl, inr, List, [], ◌∷◌, ◌++◌, map, append-nil, get_elem?, length, All, All-append, Bytes,
}
use droidmole.Go.{Result, ok, err, panic}
use droidmole.Display.Yuv.{
  yuv_size, luma, chroma_u, chroma_v, byte_at, from_bytes, pixel, counting, below, rows, indices,
  zeros, filled, rgb_to_yuv,
}
use droidmole.Display.Yuv.Planes.{
  float32-small, all_planes, oks, IsNoError, write_planes-all, put_all-fits, put_all-overflows,
  length-planes, length-map, four,
}

abbrev pub nth : Bytes → ℕ → ℕ
nth [] i = 0
nth (x ∷ xs) zero = x
nth (x ∷ xs) (suc i) = nth xs i

-- The conversion of the pixel of index `i`.
abbrev pub at_pixel : Bytes → (ℕ → ℕ → ℕ → ℕ) → ℕ → ℕ
at_pixel rgba f i = f (nth rgba (3 * i)) (nth rgba (3 * i + 1)) (nth rgba (3 * i + 2))

get_elem?-nth : (xs : Bytes) (i : ℕ) → i < length xs → get_elem? xs i ≡ some (nth xs i)
get_elem?-nth [] i l = absurd (omega arith)
get_elem?-nth (x ∷ xs) zero l = refl
get_elem?-nth (x ∷ xs) (suc i) l = get_elem?-nth xs i (omega arith)

byte_at-nth : (xs : Bytes) (i : ℕ) → i < length xs → byte_at xs i ≡ ok (nth xs i)
unfolding byte_at
byte_at-nth xs i l = rw (get_elem?-nth xs i l) refl

module _ (rgba : Bytes) where
  pixel-at_pixel :
      (f : ℕ → ℕ → ℕ → ℕ) (i : ℕ)
      → 3 * i + 2 < length rgba
      → length rgba < 2 ^ 32
      → pixel rgba f i ≡ ok (at_pixel rgba f i)
  unfolding pixel
  pixel-at_pixel f i l s = rw (small (3 * i) (omega arith)) (
      rw (small (3 * i + 1) (omega arith)) (
        rw (small (3 * i + 2) (omega arith)) (
          rw (byte_at-nth rgba (3 * i) (omega arith)) (
            rw (byte_at-nth rgba (3 * i + 1) (omega arith))
              (rw (byte_at-nth rgba (3 * i + 2) (omega arith)) refl)))))
    where
      small : (n : ℕ) → n < 2 ^ 32 → n % 2 ^ 32 ≡ n
      small n h = omega arith

  pixel-IsNoError : (f : ℕ → ℕ → ℕ → ℕ) (i : ℕ) → IsNoError (pixel rgba f i)
  unfolding pixel
  pixel-IsNoError f i = go _ _ _
    where
      go : (r g b : Result ℕ) → IsNoError (from_bytes f r g b)
      go r g b = unfold from_bytes in ground arith

  map-pixel :
      (f : ℕ → ℕ → ℕ → ℕ) (n : ℕ) (is : List ℕ)
      → 3 * n ≤ length rgba
      → length rgba < 2 ^ 32
      → All (λ i. i < n) is
      → map (pixel rgba f) is ≡ oks (map (at_pixel rgba f) is)
  map-pixel f n [] l s h = refl
  map-pixel f n (i ∷ is) l s h =
      rw (pixel-at_pixel f i (omega (arith, h.0)) s) (rw (map-pixel f n is l s h.1) refl)

  map-IsNoError : (f : ℕ → ℕ → ℕ → ℕ) (is : List ℕ) → All IsNoError (map (pixel rgba f) is)
  map-IsNoError f [] = tt
  map-IsNoError f (i ∷ is) = (pixel-IsNoError f i, map-IsNoError f is)

counting-below : (more step n bound : ℕ) → All (λ i. i < bound) (counting more step n bound)
unfolding counting
counting-below zero step n bound = tt
counting-below (suc more) step n bound = ground (arith, counting-below more step (n + step) bound)

mul_le : (a b c : ℕ) → a ≤ b → a * c ≤ b * c
mul_le zero b c l = omega arith
mul_le (suc a) zero c l = absurd (omega arith)
mul_le (suc a) (suc b) c l = omega (arith, mul_le a b c (omega arith))

row-below :
    (y w h : ℕ) (xs : List ℕ)
    → y < h
    → All (λ x. x < w) xs
    → All (λ i. i < w * h) (map (λ x. (y * w + x) % 2 ^ 32) xs)
row-below y w h [] l hx = tt
row-below y w h (x ∷ xs) l hx =
    (omega (arith, hx.0, mul_le (y + 1) h w (omega arith)), row-below y w h xs l hx.1)

rows-below :
    (ys xs : List ℕ) (w h : ℕ)
    → All (λ y. y < h) ys
    → All (λ x. x < w) xs
    → All (λ i. i < w * h) (rows ys xs w)
unfolding rows
rows-below [] xs w h hy hx = tt
rows-below (y ∷ ys) xs w h hy hx =
    All-append (λ i. i < w * h) (map (λ x. (y * w + x) % 2 ^ 32) xs) (rows ys xs w)
      (row-below y w h xs hy.0 hx) (rows-below ys xs w h hy.1 hx)

indices-below : (step w h : ℕ) → All (λ i. i < w * h) (indices step w h)
unfolding indices below
indices-below step w h =
    rows-below (below step h) (below step w) w h (counting-below h step 0 h)
      (counting-below w step 0 w)

yuv_size-small : (w h : ℕ) → 3 * (w * h) < 2 ^ 24 → yuv_size w h ≡ 3 * (w * h) / 2
unfolding yuv_size
yuv_size-small w h s =
    rw (small (w * h) (omega arith))
      (rw (float32-small (w * h) (omega arith)) (rw (float32-small (3 * (w * h)) s) refl))
  where
    small : (n : ℕ) → n < 2 ^ 32 → n % 2 ^ 32 ≡ n
    small n l = omega arith

-- The planes of a frame.
abbrev pub planes : Bytes → ℕ → ℕ → Bytes
planes rgba w h =
    map (at_pixel rgba luma) (indices 1 w h)
    ++ (map (at_pixel rgba chroma_u) (indices 2 w h)
        ++ map (at_pixel rgba chroma_v) (indices 2 w h))

oks-append : (xs ys : Bytes) → oks (xs ++ ys) ≡ oks xs ++ oks ys
oks-append [] ys = refl
oks-append (x ∷ xs) ys = ap (λ rs. ok x ∷ rs) (oks-append xs ys)

all_planes-planes :
    (rgba : Bytes) (w h : ℕ)
    → 3 * (w * h) ≤ length rgba
    → length rgba < 2 ^ 32
    → all_planes rgba w h ≡ oks (planes rgba w h)
all_planes-planes rgba w h l s =
    rw (map-pixel rgba luma (w * h) (indices 1 w h) l s (indices-below 1 w h)) (
      rw (map-pixel rgba chroma_u (w * h) (indices 2 w h) l s (indices-below 2 w h)) (
        rw (map-pixel rgba chroma_v (w * h) (indices 2 w h) l s (indices-below 2 w h)) (
          sym (
            oks-append (map (at_pixel rgba luma) (indices 1 w h)) _
            ∙ ap (λ rs. oks (map (at_pixel rgba luma) (indices 1 w h)) ++ rs)
                (oks-append (map (at_pixel rgba chroma_u) (indices 2 w h)) _)))))

filled-full : (size : ℕ) (ys : Bytes) → length ys ≡ size → filled size (ok tt, ys) ≡ ok ys
unfolding filled
filled-full size ys e = rw (nothing (omega arith)) (rw append-nil refl)
  where
    nothing : size - length ys ≡ 0 → zeros (size - length ys) ≡ []
    nothing z = rw z (unfold zeros in refl)

-- A frame of even sizes of up to 2 ^ 24 / 3 pixels, with three bytes for each, is converted whole: a
-- byte of luma for each pixel, row by row, and then a byte of each chroma for each second pixel of
-- each second row, and the planes fill the slice exactly.
pub rgb_to_yuv-even :
    (rgba : Bytes) (a b : ℕ)
    → let w = 2 * a in
      let h = 2 * b in
      3 * (w * h) < 2 ^ 24 → length rgba ≡ 3 * (w * h) → rgb_to_yuv rgba w h ≡ ok (planes rgba w h)
unfolding rgb_to_yuv
rgb_to_yuv-even rgba a b s l =
    let w = 2 * a in
    let h = 2 * b in
    let e = all_planes-planes rgba w h (omega arith) (omega arith) in
    let n : length (planes rgba w h) ≡ 3 * (w * h) / 2 = omega (
      arith,
      length-map (λ x. ok x) (planes rgba w h),
      ap length e,
      length-planes rgba w h,
      four a b,
      ap (λ m. m * a) (half b),
      ap (λ m. (2 * b + 1) / 2 * m) (half a),
    ) in
    rw (yuv_size-small w h s) (
      rw (write_planes-all (3 * (w * h) / 2) rgba w h []) (
        rw e (
          rw (put_all-fits (3 * (w * h) / 2) (planes rgba w h) [] (omega (arith, n)))
            (filled-full (3 * (w * h) / 2) (planes rgba w h) n))))
  where
    half : (n : ℕ) → (2 * n + 1) / 2 ≡ n
    half n = omega arith

-- The planes of a frame with an odd side are longer than the slice.
too_long :
    (w h : ℕ)
    → 0 < w
    → 0 < h
    → (w % 2 ≡ 1) ⊎ (h % 2 ≡ 1)
    → w * h < 4 * ((h + 1) / 2 * ((w + 1) / 2))
too_long w h pw ph (inl odd) =
    let dw = (w + 1) / 2 in
    let dh = (h + 1) / 2 in
    let even : 2 * dw ≡ w + 1 = omega (arith, odd) in
    omega (arith, mul_le h (2 * dh) (w + 1) (omega arith), ap (λ n. 2 * dh * n) even)
too_long w h pw ph (inr odd) =
    let dw = (w + 1) / 2 in
    let dh = (h + 1) / 2 in
    let even : 2 * dh ≡ h + 1 = omega (arith, odd) in
    omega (arith, mul_le w (2 * dw) (h + 1) (omega arith), ap (λ n. 2 * dw * n) even)

filled-panic : (size : ℕ) (r : Result (Unit {0}) × Bytes) → r.0 ≡ panic → filled size r ≡ panic
unfolding filled
filled-panic size (ok t, ys) e = absurd (cc e)
filled-panic size (err x, ys) e = absurd (cc e)
filled-panic size (panic, ys) e = refl

all_planes-IsNoError : (rgba : Bytes) (w h : ℕ) → All IsNoError (all_planes rgba w h)
all_planes-IsNoError rgba w h =
    All-append IsNoError (map (pixel rgba luma) (indices 1 w h)) _
      (map-IsNoError rgba luma (indices 1 w h))
      (All-append IsNoError (map (pixel rgba chroma_u) (indices 2 w h)) _
        (map-IsNoError rgba chroma_u (indices 2 w h)) (map-IsNoError rgba chroma_v (indices 2 w h)))

-- A frame with a side of odd length does not fit: the conversion panics, whatever the frame holds.
pub rgb_to_yuv-odd :
    (rgba : Bytes) (w h : ℕ)
    → 3 * (w * h) < 2 ^ 24
    → 0 < w
    → 0 < h
    → (w % 2 ≡ 1) ⊎ (h % 2 ≡ 1)
    → rgb_to_yuv rgba w h ≡ panic
unfolding rgb_to_yuv
rgb_to_yuv-odd rgba w h s pw ph odd = rw (yuv_size-small w h s) (
    rw (write_planes-all (3 * (w * h) / 2) rgba w h []) (
      filled-panic (3 * (w * h) / 2) _ (
        put_all-overflows (3 * (w * h) / 2) (all_planes rgba w h) [] (all_planes-IsNoError rgba w h)
          (omega arith) (omega (arith, length-planes rgba w h, too_long w h pw ph odd)))))

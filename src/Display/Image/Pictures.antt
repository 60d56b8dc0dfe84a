-- ===== src/Display/Image/Pictures.antt =====
-- A converted frame in the image that the encoder of agent/util/vpx/vpx.go reads.
use droidmole.Base.{
  zero, suc, refl, ℕ, ◌+◌, ◌-◌, ◌*◌, ◌/◌, ◌^◌, ◌≤◌, ◌<◌, ◌≡◌, sym, ap, ◌∙◌, subst, Bool, true,
  false, [], ◌∷◌, ◌++◌, map, length, length-append, length-drop, take, drop, take-length,
  drop-length, take_add, drop_add, Bytes, arith,
}
use droidmole.Go.{ok, pure, continue, bind-ok}
use droidmole.Display.Yuv.{luma, chroma_u, chroma_v, pixel, indices, rgb_to_yuv}
use droidmole.Display.Yuv.Planes.{length-map, length-planes}
use droidmole.Display.Yuv.Frames.{at_pixel, planes, rgb_to_yuv-even}
use droidmole.Display.Image.{
  Plane, Image, plane_side, plane_width, plane_height, read_rows, read_plane, img_read, read,
}
use droidmole.Display.Image.Reads.{rows_of, read_rows-rows_of}

-- The rows do not overlap, and the memory has room for them.
abbrev pub Room : Bool → Image → Plane → Type 0
Room chroma i p =
    (plane_width chroma i ≤ p.stride) × (plane_height chroma i * p.stride ≤ length p.memory)

abbrev plane_size : Bool → Image → ℕ
plane_size chroma i = plane_height chroma i * plane_width chroma i

-- The samples of a plane.
abbrev pub samples : Bool → Image → Plane → Bytes
samples chroma i p = rows_of (plane_height chroma i) (plane_width chroma i) p.stride p.memory

-- All samples, which are what the encoder reads.
abbrev pub picture : Image → Bytes
picture i = samples false i i.plane_y ++ (samples true i i.plane_u ++ samples true i i.plane_v)

read_plane-samples :
    (chroma : Bool) (i : Image) (p : Plane) (blob : Bytes)
    → Room chroma i p
    → plane_size chroma i ≤ length blob
    → (q : Plane) × (read_plane chroma i p blob ≡ (ok q, drop (plane_size chroma i) blob))
      × (samples chroma i q ≡ take (plane_size chroma i) blob)
unfolding read_plane
read_plane-samples chroma i p blob (wide, room) size =
    let h = plane_height chroma i in
    let w = plane_width chroma i in
    let e : w + (p.stride - w) ≡ p.stride = omega (arith, wide) in
    let (after, r, v) =
      read_rows-rows_of h w (p.stride - w) p.memory blob
        (subst (λ s. h * s ≤ length p.memory) (sym e) room) size in
    (
      record p { memory = after },
      ap (λ x. continue x.0 (λ m. pure (record p { memory = m })) x.1)
          (ap (λ s. read_rows h w s p.memory blob) (sym e) ∙ r),
      ap (λ s. rows_of h w s after) (sym e) ∙ v,
    )

abbrev size_of : Image → ℕ
size_of i = plane_size false i + (plane_size true i + plane_size true i)

img_read-picture :
    (i : Image) (blob : Bytes)
    → Room false i i.plane_y
    → Room true i i.plane_u
    → Room true i i.plane_v
    → size_of i ≤ length blob
    → (j : Image) × (img_read i blob ≡ (ok j, drop (size_of i) blob))
      × (picture j ≡ take (size_of i) blob)
unfolding img_read
img_read-picture i blob room_y room_u room_v size =
    let m = plane_size false i in
    let n = plane_size true i in
    let (y, ry, vy) = read_plane-samples false i i.plane_y blob room_y (omega arith) in
    let (u, ru, vu) =
      read_plane-samples true i i.plane_u (drop m blob) room_u
        (omega (arith, length-drop m blob)) in
    let (v, rv, vv) =
      read_plane-samples true i i.plane_v (drop n (drop m blob)) room_v
        (omega (arith, length-drop n (drop m blob), length-drop m blob)) in
    (
      record i { plane_y = y; plane_u = u; plane_v = v },
      bind-ok (read_plane false i i.plane_y) _ blob (drop m blob) y ry
          ∙ bind-ok (read_plane true i i.plane_u) _ (drop m blob) (drop n (drop m blob)) u ru
          ∙ bind-ok (read_plane true i i.plane_v) _ (drop n (drop m blob))
              (drop n (drop n (drop m blob))) v rv
          ∙ ap (λ l. (ok (record i { plane_y = y; plane_u = u; plane_v = v }), l))
              (sym (drop_add m (n + n) blob ∙ drop_add n n (drop m blob))),
      ap (λ l. l ++ (samples true i u ++ samples true i v)) vy
          ∙ ap (λ l. take m blob ++ l)
              (ap (λ l. l ++ samples true i v) vu
                ∙ ap (λ l. take n (drop m blob) ++ l) vv
                ∙ sym (take_add n n (drop m blob)))
          ∙ sym (take_add m (n + n) blob),
    )

planes_fill :
    (rgba : Bytes) (w h : ℕ) → length (planes rgba w h) ≡ h * w + 2 * ((h + 1) / 2 * ((w + 1) / 2))
planes_fill rgba w h = omega (
  arith,
  length-planes rgba w h,
  length-append (map (pixel rgba luma) (indices 1 w h))
      (map (pixel rgba chroma_u) (indices 2 w h) ++ map (pixel rgba chroma_v) (indices 2 w h)),
  length-append (map (pixel rgba chroma_u) (indices 2 w h))
      (map (pixel rgba chroma_v) (indices 2 w h)),
  length-append (map (at_pixel rgba luma) (indices 1 w h)) (
      map (at_pixel rgba chroma_u) (indices 2 w h) ++ map (at_pixel rgba chroma_v) (indices 2 w h)),
  length-append (map (at_pixel rgba chroma_u) (indices 2 w h))
      (map (at_pixel rgba chroma_v) (indices 2 w h)),
  length-map (pixel rgba luma) (indices 1 w h),
  length-map (pixel rgba chroma_u) (indices 2 w h),
  length-map (pixel rgba chroma_v) (indices 2 w h),
  length-map (at_pixel rgba luma) (indices 1 w h),
  length-map (at_pixel rgba chroma_u) (indices 2 w h),
  length-map (at_pixel rgba chroma_v) (indices 2 w h),
)

-- The image is one of format I420.
abbrev pub IsI420 : ℕ → ℕ → Image → Type 0
IsI420 w h i =
    (i.d_w ≡ w) × (i.d_h ≡ h) × (i.x_chroma_shift ≡ 1) × (i.y_chroma_shift ≡ 1) × (i.high ≡ false)

size_of-I420 :
    (w h : ℕ) (i : Image) → IsI420 w h i → size_of i ≡ h * w + 2 * ((h + 1) / 2 * ((w + 1) / 2))
unfolding plane_width plane_height plane_side
size_of-I420 w h i (a, b, c, d, e) = rw (a, b, c, d, e) (omega arith)

-- Read, of at least one byte, is vpx_img_read.
read-img_read : (i : Image) (blob : Bytes) → 0 < length blob → read i blob ≡ img_read i blob
unfolding read
read-img_read i [] h = absurd (omega arith)
read-img_read i (x ∷ xs) h = refl

-- A frame of even sides other than 0 and up to 2 ^ 24 / 3 pixels, three bytes each, and an image of
-- format I420 of its size, whose rows do not overlap and fit into its memory. RgbToYuv converts the
-- frame, and Read takes the converted frame into the image, each byte of it and none past its end; the
-- samples in the image are then the luma of each pixel and the chroma of each second pixel of each
-- second row, in order.
pub read_converted :
    (rgba : Bytes) (a b : ℕ) (i : Image)
    → 0 < a
    → 0 < b
    → 3 * (2 * a * (2 * b)) < 2 ^ 24
    → length rgba ≡ 3 * (2 * a * (2 * b))
    → IsI420 (2 * a) (2 * b) i
    → Room false i i.plane_y
    → Room true i i.plane_u
    → Room true i i.plane_v
    → (yuv : Bytes) × (j : Image) × (rgb_to_yuv rgba (2 * a) (2 * b) ≡ ok yuv)
      × (read i yuv ≡ (ok j, []))
      × (picture j ≡ planes rgba (2 * a) (2 * b))
read_converted rgba a b i wide tall small l kind room_y room_u room_v =
    let yuv = planes rgba (2 * a) (2 * b) in
    let e : length yuv ≡ size_of i =
      planes_fill rgba (2 * a) (2 * b) ∙ sym (size_of-I420 (2 * a) (2 * b) i kind) in
    let (j, r, p) = img_read-picture i yuv room_y room_u room_v (omega (arith, e)) in
    (
      yuv,
      j,
      rgb_to_yuv-even rgba a b small l,
      read-img_read i yuv (positive a b wide tall (planes_fill rgba (2 * a) (2 * b)))
          ∙ r
          ∙ ap (λ l. (ok j, l)) (subst (λ n. drop n yuv ≡ []) e (drop-length yuv)),
      p ∙ subst (λ n. take n yuv ≡ yuv) e (take-length yuv),
    )
  where
    positive :
        (a b : ℕ)
        → 0 < a
        → 0 < b
        → {n : ℕ} → n ≡ 2 * b * (2 * a) + 2 * ((2 * b + 1) / 2 * ((2 * a + 1) / 2))
        → 0 < n
    positive (suc a) (suc b) p q e = omega (arith, e)
    positive zero b p q e = absurd (omega arith)
    positive (suc a) zero p q e = absurd (omega arith)

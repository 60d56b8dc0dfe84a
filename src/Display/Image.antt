-- ===== src/Display/Image.antt =====
-- `Read` of an image, and the C functions vpx_img_plane_width, vpx_img_plane_height and vpx_img_read of
-- agent/util/vpx/vpx.go: a frame of planes goes to the image's memory row by row.
pub mod Reads
pub mod Pictures
use droidmole.Base.{
  ℕ, zero, suc, ◌+◌, ◌-◌, ◌*◌, ◌/◌, ◌^◌, [], ◌∷◌, ltb, Bool, true, false, ◌&&◌, ◌||◌, if◌then◌else◌,
  ◌++◌, length, take, drop, Bytes,
}
use droidmole.Go.{Result, ok, err, panic, Exec, pure, continue, ◌>>=◌}

-- The memory from the plane's first byte on, and the distance of its rows.
pub record Plane : Type 0 where
  pub memory : Bytes
  pub stride : ℕ

-- Of vpx_image_t; `high` is the flag of sixteen bits a sample.
pub record Image : Type 0 where
  pub d_w : ℕ
  pub d_h : ℕ
  pub x_chroma_shift : ℕ
  pub y_chroma_shift : ℕ
  pub high : Bool
  pub plane_y : Plane
  pub plane_u : Plane
  pub plane_v : Plane

-- Whether the plane is one of chroma, the side of the image and its shift.
unfoldable pub plane_side : Bool → ℕ → ℕ → ℕ
plane_side chroma side shift = if chroma && ltb 0 shift then (side + 1) / 2 ^ shift else side

unfoldable pub plane_width : Bool → Image → ℕ
unfolding plane_side
plane_width chroma i = plane_side chroma i.d_w i.x_chroma_shift * (if i.high then 2 else 1)

unfoldable pub plane_height : Bool → Image → ℕ
unfolding plane_side
plane_height chroma i = plane_side chroma i.d_h i.y_chroma_shift

row_before : Bytes → Result Bytes × Bytes → Result Bytes × Bytes
row_before row (ok memory, blob) = (ok (row ++ memory), blob)
row_before row (err e, blob) = (err e, blob)
row_before row (panic, blob) = (panic, blob)

-- memcpy of `h` rows of `w` bytes from the blob, of which the state has what is left; to read or write
-- past the end of the memory is a panic. The memory afterwards.
unfoldable pub read_rows : ℕ → ℕ → ℕ → Bytes → Exec Bytes Bytes
unfolding row_before
read_rows zero w stride memory blob = (ok memory, blob)
read_rows (suc h) w stride memory blob =
    let written = take w blob ++ drop w memory in
    let rest =
      row_before (take stride written) (read_rows h w stride (drop stride written) (drop w blob)) in
    if ltb (length memory) w || ltb (length blob) w then (panic, blob) else rest

unfoldable pub read_plane : Bool → Image → Plane → Exec Bytes Plane
unfolding read_rows plane_width plane_height
read_plane chroma i p = do
  memory ← read_rows (plane_height chroma i) (plane_width chroma i) p.stride p.memory
  pure (record p { memory = memory })

-- vpx_img_read
unfoldable pub img_read : Image → Exec Bytes Image
unfolding read_plane
img_read i = do
  y ← read_plane false i i.plane_y
  u ← read_plane true i i.plane_u
  v ← read_plane true i i.plane_v
  pure (record i { plane_y = y; plane_u = u; plane_v = v })

-- Read(data): the address of the first byte of no bytes is a panic.
unfoldable pub read : Image → Exec Bytes Image
read i [] = (panic, [])
read i (x ∷ xs) = img_read i (x ∷ xs)

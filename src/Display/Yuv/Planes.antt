-- ===== src/Display/Yuv/Planes.antt =====
-- The planes that `RgbToYuv` of agent/util/vpx/vpx.go writes, and whether the slice that it allocates
-- holds them.
use droidmole.Base.{
  ℕ, zero, suc, ◌+◌, ◌-◌, ◌*◌, ◌/◌, ◌%◌, ◌^◌, ◌≤◌, ◌<◌, ◌≡◌, ◌≢◌, refl, sym, ap, ◌∙◌, arith, ltb,
  lt→ltb, ltb→lt, Bool-cases, inl, inr, List, [], ◌∷◌, ◌++◌, map, append_assoc, append-nil, length,
  length-append, All, Bytes, IsByte,
}
use droidmole.Go.{Error, Result, ok, err, panic, continue, ◌>>=◌}
use droidmole.Display.Yuv.{
  float32, round_unit, round_from, luma, chroma_u, chroma_v, pixel, counting, below, rows, indices,
  put, put_all, write_planes,
}

-- The conversions stay in the ranges of video levels: no byte wraps.
pub ranges :
    (r g b : ℕ)
    → IsByte r
    → IsByte g
    → IsByte b
    → ((16 ≤ luma r g b) × (luma r g b ≤ 235))
      × ((16 ≤ chroma_u r g b) × (chroma_u r g b ≤ 240))
      × ((16 ≤ chroma_v r g b) × (chroma_v r g b ≤ 240))
unfolding luma chroma_u chroma_v
ranges r g b hr hg hb =
    ((omega arith, omega arith), (omega arith, omega arith), (omega arith, omega arith))

round_unit-one : (n : ℕ) → round_unit 1 n ≡ n
unfolding round_unit
round_unit-one n = ground arith

round_from-small : (more n : ℕ) → n < 2 ^ 24 → round_from (suc more) 1 n ≡ n
unfolding round_from
round_from-small more n h = rw (lt→ltb n (2 ^ 24) h) (round_unit-one n)

pub float32-small : (n : ℕ) → n < 2 ^ 24 → float32 n ≡ n
unfolding float32
float32-small n h = round_from-small 40 n h

length-counting_one :
    (more n bound : ℕ) → bound ≤ n + more → length (counting more 1 n bound) ≡ bound - n
unfolding counting
length-counting_one zero n bound h = omega arith
length-counting_one (suc more) n bound h =
    ground (arith, length-counting_one more (n + 1) bound (omega arith))

length-counting_two :
    (more n bound : ℕ) → bound ≤ n + more → length (counting more 2 n bound) ≡ (bound - n + 1) / 2
unfolding counting
length-counting_two zero n bound h = omega arith
length-counting_two (suc more) n bound h =
    ground (arith, length-counting_two more (n + 2) bound (omega arith))

pub length-map : {A B : Type 0} (f : A → B) (xs : List A) → length (map f xs) ≡ length xs
length-map f [] = refl
length-map f (x ∷ xs) = ap suc (length-map f xs)

length-rows : (ys xs : List ℕ) (w : ℕ) → length (rows ys xs w) ≡ length ys * length xs
unfolding rows
length-rows [] xs w = omega arith
length-rows (y ∷ ys) xs w = omega (
  arith,
  length-append (map (λ x. (y * w + x) % 2 ^ 32) xs) (rows ys xs w),
  length-map (λ x. (y * w + x) % 2 ^ 32) xs,
  length-rows ys xs w,
)

pub four : (a b : ℕ) → 2 * a * (2 * b) ≡ 4 * (b * a)
four a b = omega arith

length-below_one : (n : ℕ) → length (below 1 n) ≡ n
unfolding below
length-below_one n = omega (arith, length-counting_one n 0 n (omega arith))

length-below_two : (n : ℕ) → length (below 2 n) ≡ (n + 1) / 2
unfolding below
length-below_two n = omega (arith, length-counting_two n 0 n (omega arith))

abbrev pub oks : Bytes → List (Result ℕ)
oks bs = map (λ b. ok b) bs

-- Bytes for which there is room are appended.
pub put_all-fits :
    (size : ℕ) (bs ys : Bytes)
    → length ys + length bs ≤ size
    → put_all size (oks bs) ys ≡ (ok tt, ys ++ bs)
unfolding put_all put
put_all-fits size [] ys h = rw append-nil refl
put_all-fits size (b ∷ bs) ys h = rw (lt→ltb (length ys) size (omega arith)) (
    rw (put_all-fits size bs (ys ++ b ∷ []) (omega (arith, length-append ys (b ∷ []))))
      (rw append_assoc refl))

-- No pixel comes to an error, only to a byte or to a panic.
abbrev pub IsNoError : Result ℕ → Type 0
IsNoError r = (e : Error) → r ≢ err e

-- More bytes than there is room for come to a panic.
pub put_all-overflows :
    (size : ℕ) (rs : List (Result ℕ)) (ys : Bytes)
    → All IsNoError rs
    → length ys ≤ size
    → size < length ys + length rs
    → (put_all size rs ys).0 ≡ panic
unfolding put_all put
put_all-overflows size [] ys h l o = absurd (omega arith)
put_all-overflows size (ok b ∷ rs) ys h l o = elim (Bool-cases (ltb (length ys) size)) [
  | inl room ↦ rw room (
      put_all-overflows size rs (ys ++ b ∷ []) h.1
        (omega (arith, length-append ys (b ∷ []), ltb→lt (length ys) size room))
        (omega (arith, length-append ys (b ∷ []))))
  | inr full ↦ rw full refl
]
put_all-overflows size (err e ∷ rs) ys h l o = absurd (h.0 e refl)
put_all-overflows size (panic ∷ rs) ys h l o = refl

put_all-append :
    (size : ℕ) (rs qs : List (Result ℕ)) (ys : Bytes)
    → put_all size (rs ++ qs) ys ≡ (put_all size rs >>= λ _. put_all size qs) ys
unfolding put_all put
put_all-append size [] qs ys = refl
put_all-append size (ok b ∷ rs) qs ys = elim (Bool-cases (ltb (length ys) size)) [
  | inl room ↦ rw room (put_all-append size rs qs (ys ++ b ∷ []))
  | inr full ↦ rw full refl
]
put_all-append size (err e ∷ rs) qs ys = refl
put_all-append size (panic ∷ rs) qs ys = refl

-- The results of the three loops in one list.
abbrev pub all_planes : Bytes → ℕ → ℕ → List (Result ℕ)
all_planes rgba w h =
    map (pixel rgba luma) (indices 1 w h)
    ++ (map (pixel rgba chroma_u) (indices 2 w h) ++ map (pixel rgba chroma_v) (indices 2 w h))

pub write_planes-all :
    (size : ℕ) (rgba : Bytes) (w h : ℕ) (ys : Bytes)
    → write_planes size rgba w h ys ≡ put_all size (all_planes rgba w h) ys
unfolding write_planes
write_planes-all size rgba w h ys = sym (
    put_all-append size (map (pixel rgba luma) (indices 1 w h)) _ ys ∙ (λ i.
      continue (put_all size (map (pixel rgba luma) (indices 1 w h)) ys).0
        (λ _ zs.
          put_all-append size (map (pixel rgba chroma_u) (indices 2 w h))
            (map (pixel rgba chroma_v) (indices 2 w h)) zs i)
        (put_all size (map (pixel rgba luma) (indices 1 w h)) ys).1))

pub length-planes :
    (rgba : Bytes) (w h : ℕ)
    → length (all_planes rgba w h) ≡ h * w + 2 * ((h + 1) / 2 * ((w + 1) / 2))
unfolding indices
length-planes rgba w h = omega (
  arith,
  length-append (map (pixel rgba luma) (indices 1 w h))
      (map (pixel rgba chroma_u) (indices 2 w h) ++ map (pixel rgba chroma_v) (indices 2 w h)),
  length-append (map (pixel rgba chroma_u) (indices 2 w h))
      (map (pixel rgba chroma_v) (indices 2 w h)),
  length-map (pixel rgba luma) (indices 1 w h),
  length-map (pixel rgba chroma_u) (indices 2 w h),
  length-map (pixel rgba chroma_v) (indices 2 w h),
  length-rows (below 1 h) (below 1 w) w,
  length-rows (below 2 h) (below 2 w) w,
  ap (λ n. n * length (below 1 w)) (length-below_one h),
  ap (λ n. h * n) (length-below_one w),
  ap (λ n. n * length (below 2 w)) (length-below_two h),
  ap (λ n. (h + 1) / 2 * n) (length-below_two w),
)

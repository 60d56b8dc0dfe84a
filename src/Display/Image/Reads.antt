-- ===== src/Display/Image/Reads.antt =====
-- The rows that vpx_img_read of agent/util/vpx/vpx.go leaves in an image.
use droidmole.Base.{
  ℕ, zero, suc, ◌+◌, ◌*◌, ◌≤◌, ◌≡◌, refl, sym, ap, ◌∙◌, subst, ltb, false, [], ◌∷◌, ◌++◌,
  append_assoc, length, length-append, length-take, length-drop, zero_add, suc_add, take_add,
  drop_add, take, drop, take-append_self, drop-append_self, Bytes, arith,
}
use droidmole.Go.{ok}
use droidmole.Display.Image.{row_before, read_rows}

-- The first `w` bytes of each of `h` rows.
abbrev pub rows_of : ℕ → ℕ → ℕ → Bytes → Bytes
rows_of zero w stride memory = []
rows_of (suc h) w stride memory = take w memory ++ rows_of h w stride (drop stride memory)

take-over : (n k : ℕ) (a b : Bytes) → length a ≡ n → take (n + k) (a ++ b) ≡ a ++ take k b
take-over zero k [] b e = rw (zero_add k) refl
take-over zero k (x ∷ a) b e = absurd (omega (arith, e))
take-over (suc n) k [] b e = absurd (omega (arith, e))
take-over (suc n) k (x ∷ a) b e =
    rw (suc_add n k) (ap (λ l. x ∷ l) (take-over n k a b (omega (arith, e))))

drop-over : (n k : ℕ) (a b : Bytes) → length a ≡ n → drop (n + k) (a ++ b) ≡ drop k b
drop-over zero k [] b e = rw (zero_add k) refl
drop-over zero k (x ∷ a) b e = absurd (omega (arith, e))
drop-over (suc n) k [] b e = absurd (omega (arith, e))
drop-over (suc n) k (x ∷ a) b e = rw (suc_add n k) (drop-over n k a b (omega (arith, e)))

-- The row of the blob, and what follows it in the memory.
read_rows-suc :
    (h w k : ℕ) (memory blob : Bytes)
    → w + k ≤ length memory
    → w ≤ length blob
    → read_rows (suc h) w (w + k) memory blob
      ≡ row_before
          (take w blob ++ take k (drop w memory))
          (read_rows h w (w + k) (drop k (drop w memory)) (drop w blob))
unfolding read_rows
read_rows-suc h w k memory blob m b =
    let n : length (take w blob) ≡ w = omega (arith, length-take w blob) in
    rw
      (
        not_less (length memory) w (omega arith),
        not_less (length blob) w b,
        take-over w k (take w blob) (drop w memory) n,
        drop-over w k (take w blob) (drop w memory) n,
      )
      refl
  where
    not_less : (x y : ℕ) → y ≤ x → ltb x y ≡ false
    not_less x y l = ground arith

-- Rows that do not overlap, in memory that has room for them: all are read, and those of the memory are
-- those of the blob.
pub read_rows-rows_of :
    (h w k : ℕ) (memory blob : Bytes)
    → h * (w + k) ≤ length memory
    → h * w ≤ length blob
    → (after : Bytes) × (read_rows h w (w + k) memory blob ≡ (ok after, drop (h * w) blob))
      × (rows_of h w (w + k) after ≡ take (h * w) blob)
unfolding read_rows row_before
read_rows-rows_of zero w k memory blob m b = (memory, rw (zero_mul w) refl, rw (zero_mul w) refl)
  where
    zero_mul : (w : ℕ) → 0 * w ≡ 0
    zero_mul w = omega arith
read_rows-rows_of (suc h) w k memory blob m b =
    let one : suc h * w ≡ w + h * w = omega arith in
    let two : suc h * (w + k) ≡ w + k + h * (w + k) = omega arith in
    let (after, e, v) =
      read_rows-rows_of h w k (drop k (drop w memory)) (drop w blob)
        (omega (arith, length-drop k (drop w memory), length-drop w memory))
        (omega (arith, length-drop w blob)) in
    let n : length (take w blob) ≡ w = omega (arith, length-take w blob) in
    let t : length (take k (drop w memory)) ≡ k =
      omega (arith, length-take k (drop w memory), length-drop w memory) in
    let row = take w blob ++ take k (drop w memory) in
    let size : length row ≡ w + k =
      omega (arith, length-append (take w blob) (take k (drop w memory))) in
    let front : take w (row ++ after) ≡ take w blob =
      ap (take w) (append_assoc (take w blob) (take k (drop w memory)) after)
      ∙ subst (λ s. take s (take w blob ++ (take k (drop w memory) ++ after)) ≡ take w blob) n
          (take-append_self (take w blob) (take k (drop w memory) ++ after)) in
    (
      row ++ after,
      read_rows-suc h w k memory blob (omega arith) (omega arith)
          ∙ ap (row_before row) e
          ∙ ap (λ l. (ok (row ++ after), l))
              (sym (drop_add w (h * w) blob) ∙ ap (λ z. drop z blob) (sym one)),
      (λ i.
            front i
            ++ rows_of h w (w + k)
                (subst (λ s. drop s (row ++ after) ≡ after) size (drop-append_self row after) i))
          ∙ ap (λ l. take w blob ++ l) v
          ∙ sym (take_add w (h * w) blob)
          ∙ ap (λ z. take z blob) (sym one),
    )

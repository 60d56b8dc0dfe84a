-- ===== src/Adb/Raw/Arrivals.antt =====
-- What ReadLine of agent/server/adb/raw.go returns for a line that arrives in pieces, and what it takes.
use droidmole.Base.{
  ltb, lt→ltb, ◌≤◌, length-take, drop-length, Bool-cases, zero_add, drop_add, ℕ, zero, suc, ◌+◌,
  ◌-◌, ◌<◌, min, ◌≡◌, refl, sym, ap, subst, ◌∙◌, ◌≢◌, leb, false, if◌then◌else◌, none, some, ◌⊎◌,
  inl, inr, [], ◌∷◌, ◌++◌, append_assoc, length, length-append, length-drop, take, drop,
  take-append-drop, lt→leb_false, All, Bytes, arith,
}
use droidmole.Go.{ok}
use droidmole.Net.{Conn}
use droidmole.Net.Laws.{arriving}
use droidmole.Adb.Raw.Line.{line_in, drop_cr, on_line, grow, scan, read_line}

abbrev pub NoNewline : Bytes → Type 0
NoNewline s = All (λ c. c ≢ 10) s

line_in-none : (s : Bytes) → NoNewline s → line_in s ≡ none
unfolding line_in
line_in-none [] h = refl
line_in-none (c ∷ s) h = ground (arith, line_in-none s h.1)

line_in-some : (s rest : Bytes) → NoNewline s → line_in (s ++ 10 ∷ rest) ≡ some s
unfolding line_in
line_in-some [] rest h = refl
line_in-some (c ∷ s) rest h = ground (arith, line_in-some s rest h.1)

-- A piece ends before the newline or behind it.
abbrev Cut : Bytes → Bytes → Bytes → Bytes → Type 0
Cut ys rest piece left =
    ((front : Bytes) × (back : Bytes) × (ys ≡ front ++ back)
      × (piece ≡ front)
      × (left ≡ back ++ 10 ∷ rest))
    ⊎ ((lost : Bytes) × (rest ≡ lost ++ left) × (piece ≡ ys ++ 10 ∷ lost))

Cut-at :
    (n : ℕ) (ys rest : Bytes) → Cut ys rest (take n (ys ++ 10 ∷ rest)) (drop n (ys ++ 10 ∷ rest))
Cut-at zero ys rest = inl ([], ys, refl, refl, refl)
Cut-at (suc n) [] rest = inr (take n rest, sym (take-append-drop n rest), refl)
Cut-at (suc n) (y ∷ ys) rest = elim (Cut-at n ys rest) [
  | inl (front, back, e, p, l) ↦ inl (y ∷ front, back, ap (λ s. y ∷ s) e, ap (λ s. y ∷ s) p, l)
  | inr (lost, e, p) ↦ inr (lost, e, ap (λ s. y ∷ s) p)
]

-- How many more bytes come in, with `m` that are in and `n` to come, until more than `target` are in: a
-- read takes a piece of what is to come that fits the room that is left.
unfoldable pub taken_in : (sizes : ℕ → ℕ) → ℕ → ℕ → ℕ → ℕ → ℕ
taken_in sizes zero m n target = 0
taken_in sizes (suc fuel) m n target =
    let k = min (min (suc (sizes fuel)) (65536 - m)) n in
    let rest = taken_in sizes fuel (m + k) (n - k) target in if ltb target m then 0 else k + rest

drop-min : (n : ℕ) (xs : Bytes) → drop (min n (length xs)) xs ≡ drop n xs
drop-min n xs = elim (Bool-cases (leb n (length xs))) [
  | inl h ↦ ap (λ m. drop m xs) (ground arith)
  | inr h ↦ ap (λ m. drop m xs) (ground arith) ∙ drop-length xs ∙ sym (past n xs (ground arith))
]
  where
    past : (n : ℕ) (xs : Bytes) → length xs ≤ n → drop n xs ≡ []
    past zero [] h = refl
    past zero (x ∷ xs) h = absurd (omega arith)
    past (suc n) [] h = refl
    past (suc n) (x ∷ xs) h = past n xs (omega arith)

-- What is known while the line is read: the buffer and what is to come.
abbrev Reading : Bytes → Bytes → Bytes → Bytes → Type 0
Reading xs rest buf left =
    ((ys : Bytes) × (xs ≡ buf ++ ys) × (left ≡ ys ++ 10 ∷ rest))
    ⊎ ((lost : Bytes) × (rest ≡ lost ++ left) × (buf ≡ xs ++ 10 ∷ lost))

Reading-Cut :
    (xs rest buf ys piece left : Bytes)
    → xs ≡ buf ++ ys
    → Cut ys rest piece left
    → Reading xs rest (buf ++ piece) left
Reading-Cut xs rest buf ys piece left e (inl (front, back, f, p, l)) = inl (
  back,
  e ∙ ap (λ s. buf ++ s) f ∙ sym (append_assoc buf front back) ∙ ap (λ s. buf ++ s ++ back) (sym p),
  l,
)
Reading-Cut xs rest buf ys piece left e (inr (lost, f, p)) = inr (
  lost,
  f,
  ap (λ s. buf ++ s) p ∙ sym (append_assoc buf ys (10 ∷ lost)) ∙ ap (λ s. s ++ 10 ∷ lost) (sym e),
)

NoNewline-front : (front back : Bytes) → NoNewline (front ++ back) → NoNewline front
NoNewline-front [] back h = tt
NoNewline-front (c ∷ front) back h = (h.0, NoNewline-front front back h.1)

module _ (sizes : ℕ → ℕ) (xs rest : Bytes) (one : NoNewline xs) (short : length xs < 65536)
    (conn : Conn) (on : conn.closed ≡ false) where
  taken : ℕ → Bytes → Bytes → ℕ
  taken fuel buf left = taken_in sizes fuel (length buf) (length left) (length xs)

  -- The line is found when the byte behind it is in.
  abbrev Found : ℕ → Bytes → Bytes → Type 0
  Found fuel buf left =
      (length xs < length buf + taken fuel buf left)
      × (scan sizes fuel buf (arriving left conn)
          ≡ (ok (some (some (drop_cr xs))), arriving (drop (taken fuel buf left) left) conn))

  size_of : ℕ → Bytes → ℕ
  size_of fuel buf = min (suc (sizes fuel)) (65536 - length buf)

  scan-refill :
      (fuel : ℕ) (buf : Bytes) (b : ℕ) (left : Bytes)
      → length buf < 65536
      → line_in buf ≡ none
      → let n = size_of fuel buf in
        scan sizes (suc fuel) buf (arriving (b ∷ left) conn)
        ≡ scan sizes fuel (buf ++ take n (b ∷ left)) (arriving (drop n (b ∷ left)) conn)
  unfolding scan size_of
  scan-refill fuel buf b left small e = rw (e, lt→leb_false 65536 (length buf) small, on) refl

  fewer :
      (fuel : ℕ) (buf : Bytes) (b : ℕ) (left : Bytes)
      → length buf < 65536
      → length (b ∷ left) + 1 < suc fuel
      → length (drop (size_of fuel buf) (b ∷ left)) + 1 < fuel
  unfolding size_of
  fewer fuel buf b left small h =
      omega (arith, length-drop (min (suc (sizes fuel)) (65536 - length buf)) (b ∷ left))

  taken-suc :
      (fuel : ℕ) (buf left : Bytes)
      → length buf ≤ length xs
      → let n = size_of fuel buf in
        taken (suc fuel) buf left
        ≡ min n (length left) + taken fuel (buf ++ take n left) (drop n left)
  unfolding taken taken_in size_of
  taken-suc fuel buf left m =
      let n = min (suc (sizes fuel)) (65536 - length buf) in
      let grows : length (buf ++ take n left) ≡ length buf + min n (length left) =
        omega (arith, length-append buf (take n left), length-take n left) in
      let shrinks : length (drop n left) ≡ length left - min n (length left) =
        omega (arith, length-drop n left) in
      rw (not_more (length xs) (length buf) m, grows, shrinks) refl
    where
      not_more : (x y : ℕ) → y ≤ x → ltb x y ≡ false
      not_more x y l = ground arith

  scan-Found :
      (fuel : ℕ) (buf left : Bytes)
      → length left + 1 < fuel
      → Reading xs rest buf left
      → Found fuel buf left
  unfolding scan taken taken_in
  scan-Found zero buf left h r = absurd (omega arith)
  scan-Found (suc fuel) buf left h (inr (lost, e, b)) =
      let more : length xs < length buf =
        omega (arith, ap length b, length-append xs (10 ∷ lost)) in
      rw (lt→ltb (length xs) (length buf) more) (
        omega arith,
        ap (λ l. on_line l (grow (sizes fuel) buf (scan sizes fuel)) (arriving left conn))
            (ap line_in b ∙ line_in-some xs lost one),
      )
  scan-Found (suc fuel) buf left h (inl (ys, e, l)) =
      let small : length buf < 65536 = omega (arith, short, ap length e, length-append buf ys) in
      let none_yet = line_in-none buf (NoNewline-front buf ys (subst NoNewline e one)) in
      let some_left : 0 < length left = omega (arith, ap length l, length-append ys (10 ∷ rest)) in
      let n = size_of fuel buf in
      go left h (omega (arith, ap length e, length-append buf ys)) some_left small none_yet (λ d.
        scan-Found fuel (buf ++ take n left) (drop n left) d (
          Reading-Cut xs rest buf ys (take n left) (drop n left) e
            (subst (λ s. Cut ys rest (take n s) (drop n s)) (sym l) (Cut-at n ys rest))))
    where
      go :
          (left : Bytes)
          → length left + 1 < suc fuel
          → length buf ≤ length xs
          → 0 < length left
          → length buf < 65536
          → line_in buf ≡ none
          → let n = size_of fuel buf in
            (length (drop n left) + 1 < fuel → Found fuel (buf ++ take n left) (drop n left))
            → Found (suc fuel) buf left
      go [] h m p small n ih = absurd (omega arith)
      go (b ∷ left) h m p small none_yet ih =
          let n = size_of fuel buf in
          let (more, r) = ih (fewer fuel buf b left small h) in
          let t = taken-suc fuel buf (b ∷ left) m in
          (
            omega (arith, more, t, length-append buf (take n (b ∷ left)), length-take n (b ∷ left)),
            scan-refill fuel buf b left small none_yet
                ∙ r
                ∙ ap (λ l. (ok (some (some (drop_cr xs))), arriving l conn))
                    (ap (drop (taken fuel (buf ++ take n (b ∷ left)) (drop n (b ∷ left))))
                        (sym (drop-min n (b ∷ left)))
                      ∙ sym (drop_add (min n (length (b ∷ left))) _ (b ∷ left))
                      ∙ ap (λ k. drop k (b ∷ left)) (sym t)),
          )

-- A line without a newline in it, shorter than 65536 bytes, is on its way over an open connection, with
-- its newline and more bytes behind it; the network gives it in pieces of any sizes. Then ReadLine
-- returns the line less one carriage return at its end, and has taken exactly the pieces up to the one
-- that brings the newline: the bytes of that piece behind the newline are lost, and the pieces behind it
-- are still to be read.
pub read_line_arrives :
    (sizes : ℕ → ℕ) (xs rest : Bytes) (conn : Conn)
    → NoNewline xs
    → length xs < 65536
    → conn.closed ≡ false
    → let stream = xs ++ 10 ∷ rest in
      let taken = taken_in sizes (length stream + 2) 0 (length stream) (length xs) in
      (length xs < taken)
      × (read_line sizes (arriving stream conn)
          ≡ (ok (some (some (drop_cr xs))), arriving (drop taken stream) conn))
unfolding read_line taken
read_line_arrives sizes xs rest conn one short on =
    let stream = xs ++ 10 ∷ rest in
    let two : length stream + 2 ≡ suc (suc (length stream)) = omega arith in
    let (more, r) =
      scan-Found sizes xs rest one short conn on (suc (suc (length stream))) [] stream (omega arith)
        (inl (xs, refl, refl)) in
    rw two (subst (λ k. length xs < k) (zero_add _) more, r)

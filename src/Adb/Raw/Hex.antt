-- ===== src/Adb/Raw/Hex.antt =====
-- The hexadecimal lengths of the adb protocol: `%04x` of fmt and `strconv.ParseInt(s, 16, 64)`,
-- as agent/server/adb/raw.go calls them.
use droidmole.Base.{
  ℕ, zero, suc, ◌+◌, ◌-◌, ◌*◌, ◌/◌, ◌%◌, ◌^◌, ◌≤◌, ◌<◌, ◌≡◌, refl, ap, ◌∙◌, inl, inr, Bool, true,
  false, ◌&&◌, Option, none, some, [], ◌∷◌, ◌++◌, arith, ltb, leb, ◌==◌, if◌then◌else◌, Bool-cases,
  length, replicate, Bytes,
}

hex_digit : ℕ → ℕ
hex_digit d = if ltb d 10 then d + b'0' else d - 10 + b'a'

-- The digits of `n` in front of `acc`, at most `fuel` of them.
hex_loop : ℕ → ℕ → Bytes → Bytes
hex_loop zero n acc = acc
hex_loop (suc fuel) n acc =
    let more = hex_loop fuel (n / 16) (hex_digit (n % 16) ∷ acc) in
    if ltb n 16 then hex_digit n ∷ acc else more

-- `%04x` of an int. Its 64 bits make at most 16 digits.
unfoldable pub format_04x : ℕ → Bytes
unfolding hex_loop hex_digit
format_04x n = let digits = hex_loop 16 n [] in replicate (4 - length digits) b'0' ++ digits

digit_value : ℕ → Option ℕ
digit_value c =
    if leb b'0' c && leb c b'9'
    then some (c - b'0')
    else if leb b'a' c && leb c b'f'
    then some (c - b'a' + 10)
    else if leb b'A' c && leb c b'F'
    then some (c - b'A' + 10)
    else none

add_digit : ℕ → Option ℕ → Option ℕ
add_digit n none = none
add_digit n (some d) = some (n * 16 + d)

parse_digits : Option ℕ → Bytes → Option ℕ
unfolding digit_value add_digit
parse_digits none s = none
parse_digits (some n) [] = some n
parse_digits (some n) (c ∷ s) = parse_digits (add_digit n (digit_value c)) s

parse_unsigned : Bytes → Option ℕ
unfolding parse_digits
parse_unsigned [] = none
parse_unsigned (c ∷ s) = parse_digits (some 0) (c ∷ s)

with_sign : Bool → Option ℕ → Option (Bool × ℕ)
with_sign neg none = none
with_sign neg (some n) = some (neg, n)

-- Whether the number is negative, and its size. No range error arises on four bytes.
unfoldable pub parse_int : Bytes → Option (Bool × ℕ)
unfolding parse_unsigned with_sign
parse_int [] = none
parse_int (c ∷ s) =
    if c == b'+'
    then with_sign false (parse_unsigned s)
    else if c == b'-'
    then with_sign true (parse_unsigned s)
    else with_sign false (parse_unsigned (c ∷ s))

-- Four digits of a number below 2 ^ 16.
abbrev four_digits : ℕ → Bytes
four_digits n =
    hex_digit (n / 4096)
    ∷ hex_digit (n / 256 % 16)
    ∷ hex_digit (n / 16 % 16)
    ∷ hex_digit (n % 16)
    ∷ []

hex_digit_zero : hex_digit 0 ≡ b'0'
unfolding hex_digit
hex_digit_zero = refl

hex_digit_bounds : (d : ℕ) → b'0' ≤ hex_digit d
unfolding hex_digit
hex_digit_bounds d = ground arith

abbrev padded : Bytes → Bytes
padded digits = replicate (4 - length digits) b'0' ++ digits

-- With four rounds of fuel at least, the padded digits of a number below 2 ^ 16 are four.
padded-hex_loop :
    (f n : ℕ) → n < 2 ^ 16 → padded (hex_loop (suc (suc (suc (suc f)))) n []) ≡ four_digits n
unfolding hex_loop
padded-hex_loop f n h = elim (Bool-cases (ltb n 16)) [
  | inl a ↦ rw a ground (arith, hex_digit_zero)
  | inr a ↦ rw a (elim (Bool-cases (ltb (n / 16) 16)) [
    | inl b ↦ rw b ground (arith, hex_digit_zero)
    | inr b ↦ rw b (elim (Bool-cases (ltb (n / 16 / 16) 16)) [
      | inl c ↦ rw c ground (arith, hex_digit_zero)
      | inr c ↦ rw c ground (arith, hex_digit_zero)
    ])
  ])
]

format_04x-four_digits : (n : ℕ) → n < 2 ^ 16 → format_04x n ≡ four_digits n
unfolding format_04x
format_04x-four_digits n h = padded-hex_loop 12 n h

-- A length of at most 0xffff is written in four bytes.
pub length-format_04x : (n : ℕ) → n < 2 ^ 16 → length (format_04x n) ≡ 4
length-format_04x n h = rw (format_04x-four_digits n h) refl

digit_value-hex_digit : (d : ℕ) → d < 16 → digit_value (hex_digit d) ≡ some d
unfolding digit_value hex_digit
digit_value-hex_digit d h = ground arith

parse_int-four_digits :
    (a b c d : ℕ)
    → a < 16
    → b < 16
    → c < 16
    → d < 16
    → parse_int (hex_digit a ∷ hex_digit b ∷ hex_digit c ∷ hex_digit d ∷ [])
      ≡ some (false, ((a * 16 + b) * 16 + c) * 16 + d)
unfolding parse_int
parse_int-four_digits a b c d ha hb hc hd = ground (
  arith,
  hex_digit_bounds a,
  digit_value-hex_digit a,
  digit_value-hex_digit b,
  digit_value-hex_digit c,
  digit_value-hex_digit d,
)

pub parse_int-format_04x : (n : ℕ) → n < 2 ^ 16 → parse_int (format_04x n) ≡ some (false, n)
parse_int-format_04x n h =
    ap parse_int (format_04x-four_digits n h)
    ∙ parse_int-four_digits (n / 4096) (n / 256 % 16) (n / 16 % 16) (n % 16) (omega arith)
        (omega arith) (omega arith) (omega arith)
    ∙ ap (λ k. some (false, k)) (omega arith)

-- A digit adds at most 15.
digit_value-lt : (c d : ℕ) → digit_value c ≡ some d → d < 16
unfolding digit_value
digit_value-lt c d h = ground arith

abbrev weight : Bytes → ℕ
weight [] = 1
weight (c ∷ s) = 16 * weight s

grow : (n d w r : ℕ) → d < 16 → r < (n * 16 + d + 1) * w → r < (n + 1) * (16 * w)
grow n d w r hd h = grind arith

parse_digits-lt : (s : Bytes) (n r : ℕ) → parse_digits (some n) s ≡ some r → r < (n + 1) * weight s
unfolding parse_digits
parse_digits-lt [] n r e = ground arith
parse_digits-lt (c ∷ s) n r e = go (λ m. parse_digits-lt s m r) (digit_value c) refl e
  where
    go :
        ((m : ℕ) → parse_digits (some m) s ≡ some r → r < (m + 1) * weight s)
        → (o : Option ℕ) → digit_value c ≡ o
        → parse_digits (add_digit n o) s ≡ some r
        → r < (n + 1) * (16 * weight s)
    go ih none eo e' = cc
    go ih (some d) eo e' = grow n d (weight s) r (digit_value-lt c d eo) (ih (n * 16 + d) e')

with_sign-some :
    (sign neg : Bool) (o : Option ℕ) (n : ℕ) → with_sign sign o ≡ some (neg, n) → o ≡ some n
unfolding with_sign
with_sign-some sign neg none n e = ground arith
with_sign-some sign neg (some m) n e = ground arith

parse_unsigned-lt : (s : Bytes) (n : ℕ) → parse_unsigned s ≡ some n → n < weight s
unfolding parse_unsigned
parse_unsigned-lt [] n e = ground arith
parse_unsigned-lt (c ∷ s) n e = omega (arith, parse_digits-lt (c ∷ s) 0 n e)

-- The digits that are read bound the number.
parse_int-weight : (s : Bytes) (neg : Bool) (n : ℕ) → parse_int s ≡ some (neg, n) → n < weight s
unfolding parse_int
parse_int-weight [] neg n e = ground arith
parse_int-weight (c ∷ s) neg n e = go (c == b'+') (c == b'-') e
  where
    go :
        (plus minus : Bool)
        → (if plus
            then with_sign false (parse_unsigned s)
            else if minus
            then with_sign true (parse_unsigned s)
            else with_sign false (parse_unsigned (c ∷ s)))
          ≡ some (neg, n)
        → n < weight (c ∷ s)
    go true m e' = omega (arith, parse_unsigned-lt s n (with_sign-some _ _ _ _ e'))
    go false true e' = omega (arith, parse_unsigned-lt s n (with_sign-some _ _ _ _ e'))
    go false false e' = parse_unsigned-lt (c ∷ s) n (with_sign-some _ _ _ _ e')

-- Four bytes that are read as a number make less than 2 ^ 16.
pub parse_int-lt :
    (s : Bytes) (neg : Bool) (n : ℕ) → length s ≡ 4 → parse_int s ≡ some (neg, n) → n < 2 ^ 16
parse_int-lt (a ∷ b ∷ c ∷ d ∷ []) neg n l e = parse_int-weight (a ∷ b ∷ c ∷ d ∷ []) neg n e
parse_int-lt _ neg n l e = absurd (omega arith)

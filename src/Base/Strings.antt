-- ===== src/Base/Strings.antt =====
-- The functions of packages strings and bytes that the code calls.
use Prim.Native.Nat.{ℕ, zero, suc, ◌+◌, ◌-◌, ◌≤◌, ◌<◌}
use mathlib.Core.Path.{◌≡◌, refl, ap, ◌∙◌}
use mathlib.Core.Bool.{Bool, ◌&&◌}
use mathlib.Core.Option.{Option, none, some}
use mathlib.Core.List.{List, [], ◌∷◌, ◌++◌}
use native.Mathlib.Omega.{arith}
use droidmole.Base.Tests.{leb, if◌then◌else◌}
use droidmole.Base.Lists.{length, take, drop, length-drop}
use droidmole.Base.Text.{Bytes, bytes_eq}

unfoldable pub has_prefix : Bytes → Bytes → Bool
has_prefix p s = bytes_eq (take (length p) s) p

unfoldable pub trim_prefix : Bytes → Bytes → Bytes
unfolding has_prefix
trim_prefix p s = if has_prefix p s then drop (length p) s else s

unfoldable pub has_suffix : Bytes → Bytes → Bool
has_suffix p s = leb (length p) (length s) && bytes_eq (drop (length s - length p) s) p

behind : Option ℕ → Option ℕ
behind none = none
behind (some n) = some (suc n)

-- Where `p` stands first, if it does.
unfoldable pub index : Bytes → Bytes → Option ℕ
unfolding has_prefix behind
index p [] = if has_prefix p [] then some 0 else none
index p (c ∷ s) = let rest = behind (index p s) in if has_prefix p (c ∷ s) then some 0 else rest

cut : Option ℕ → Bytes → (Bytes → List Bytes) → Bytes → List Bytes
cut none p more s = s ∷ []
cut (some n) p more s = take n s ∷ more (drop (n + length p) s)

-- The pieces between the occurrences of `p`, which is not empty: on fuel, a round for each byte.
pub split_on : ℕ → Bytes → Bytes → List Bytes
unfolding cut
split_on zero p s = s ∷ []
split_on (suc fuel) p s = cut (index p s) p (split_on fuel p) s

unfoldable pub split : Bytes → Bytes → List Bytes
unfolding split_on
split p s = split_on (length s) p s

-- The pieces with `p` between them.
abbrev pub joined : Bytes → List Bytes → Bytes
joined p [] = []
joined p (s ∷ []) = s
joined p (s ∷ t ∷ ss) = s ++ p ++ joined p (t ∷ ss)

index-none_nil : (p : Bytes) → 0 < length p → index p [] ≡ none
unfolding index
index-none_nil [] h = absurd (omega arith)
index-none_nil (c ∷ p) h = refl

-- A round takes at least one byte, so more fuel changes nothing.
split_on-suc :
    (fuel : ℕ) (p s : Bytes)
    → 0 < length p
    → length s ≤ fuel
    → split_on (suc fuel) p s ≡ split_on fuel p s
unfolding split_on
split_on-suc zero p [] h k = rw (index-none_nil p h) refl
split_on-suc zero p (c ∷ s) h k = absurd (omega arith)
split_on-suc (suc fuel) p s h k =
    go (index p s) λ n.
      split_on-suc fuel p (drop (n + length p) s) h (omega (arith, length-drop (n + length p) s))
  where
    go :
        (o : Option ℕ)
        → ((n : ℕ)
            → split_on (suc fuel) p (drop (n + length p) s)
              ≡ split_on fuel p (drop (n + length p) s))
        → cut o p (split_on (suc fuel) p) s ≡ cut o p (split_on fuel p) s
    go none ih = refl
    go (some n) ih = ap (λ l. take n s ∷ l) (ih n)

-- So the fuel of `split` is enough.
pub split-fuel :
    (more : ℕ) (p s : Bytes) → 0 < length p → split_on (more + length s) p s ≡ split p s
unfolding split
split-fuel zero p s h = let e : 0 + length s ≡ length s = omega arith in ap (λ n. split_on n p s) e
split-fuel (suc more) p s h =
    let e : suc more + length s ≡ suc (more + length s) = omega arith in
    ap (λ n. split_on n p s) e
    ∙ split_on-suc (more + length s) p s h (omega arith)
    ∙ split-fuel more p s h

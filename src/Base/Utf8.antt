-- ===== src/Base/Utf8.antt =====
-- Whether bytes are UTF-8, as utf8.Valid of the Go library has it, which a proto3 string has to be.
use Prim.Native.Nat.{ℕ}
use mathlib.Core.Bool.{Bool, true, false, ◌&&◌}
use mathlib.Core.List.{List, [], ◌∷◌}
use mathlib.Core.Option.{Option, none, some}
use droidmole.Base.Tests.{ltb, leb, if◌then◌else◌}
use droidmole.Base.Text.{Bytes}

-- The lowest and the highest byte that may stand somewhere.
abbrev Range : Type 0
Range = ℕ × ℕ

abbrev cont : Range
cont = (128, 191)

-- What has to follow a first byte; nothing does where it is no first byte.
followers : ℕ → Option (List Range)
followers c =
    if ltb c 128
    then some []
    else if ltb c 194
    then none
    else if ltb c 224
    then some (cont ∷ [])
    else if ltb c 225
    then some ((160, 191) ∷ cont ∷ [])
    else if ltb c 237
    then some (cont ∷ cont ∷ [])
    else if ltb c 238
    then some ((128, 159) ∷ cont ∷ [])
    else if ltb c 240
    then some (cont ∷ cont ∷ [])
    else if ltb c 241
    then some ((144, 191) ∷ cont ∷ cont ∷ [])
    else if ltb c 244
    then some (cont ∷ cont ∷ cont ∷ [])
    else if ltb c 245
    then some ((128, 143) ∷ cont ∷ cont ∷ [])
    else none

if_some : Option (List Range) → (List Range → Bool) → Bool
if_some none more = false
if_some (some rs) more = more rs

utf8_after : List Range → Bytes → Bool
unfolding followers if_some
utf8_after [] [] = true
utf8_after (r ∷ rs) [] = false
utf8_after [] (c ∷ s) = if_some (followers c) (λ rs. utf8_after rs s)
utf8_after ((low, high) ∷ rs) (c ∷ s) =
    let rest = utf8_after rs s in leb low c && leb c high && rest

unfoldable pub is_utf8 : Bytes → Bool
unfolding utf8_after
is_utf8 s = utf8_after [] s

abbrev pub all_utf8 : List Bytes → Bool
all_utf8 [] = true
all_utf8 (s ∷ ss) = is_utf8 s && all_utf8 ss

-- ===== src/Adb/Text.antt =====
-- The text routines that `WaitForEmulator` reads its messages with: `util.SplitLines` of
-- agent/util/util.go over bufio.ScanLines, and strings.Fields over ASCII text.
use droidmole.Base.{
  ℕ, ◌≡◌, refl, Bool, true, false, ◌&&◌, ◌||◌, List, [], ◌∷◌, ◌++◌, leb, ◌==◌, if◌then◌else◌, Bytes,
  bytes,
}

-- bufio drops one carriage return at the end of a line.
drop_cr : Bytes → Bytes
drop_cr [] = []
drop_cr (c ∷ []) = if c == 13 then [] else c ∷ []
drop_cr (c ∷ d ∷ s) = c ∷ drop_cr (d ∷ s)

-- `line` is what was read of the current line. A last line with no newline counts if it is not empty.
lines_from : Bytes → Bytes → List Bytes
unfolding drop_cr
lines_from [] [] = []
lines_from (x ∷ line) [] = drop_cr (x ∷ line) ∷ []
lines_from line (c ∷ s) = elim (c == 10) [
  | true ↦ drop_cr line ∷ lines_from [] s
  | false ↦ lines_from (line ++ c ∷ []) s
]

unfoldable pub split_lines : Bytes → List Bytes
unfolding lines_from
split_lines s = lines_from [] s

-- The ASCII spaces of strings.Fields.
is_space : ℕ → Bool
is_space c = c == 32 || (leb 9 c && leb c 13)

fields_from : Bytes → Bytes → List Bytes
unfolding is_space
fields_from [] [] = []
fields_from (x ∷ word) [] = (x ∷ word) ∷ []
fields_from [] (c ∷ s) = fields_from (if is_space c then [] else c ∷ []) s
fields_from (x ∷ word) (c ∷ s) = elim (is_space c) [
  | true ↦ (x ∷ word) ∷ fields_from [] s
  | false ↦ fields_from (x ∷ word ++ c ∷ []) s
]

unfoldable pub fields : Bytes → List Bytes
unfolding fields_from
fields s = fields_from [] s

split_lines_runs : split_lines (97 ∷ 13 ∷ 10 ∷ 10 ∷ 98 ∷ []) ≡ (97 ∷ []) ∷ [] ∷ (98 ∷ []) ∷ []
unfolding split_lines
split_lines_runs = refl

fields_runs : fields (bytes "emu  device ") ≡ bytes "emu" ∷ bytes "device" ∷ []
unfolding fields
fields_runs = refl

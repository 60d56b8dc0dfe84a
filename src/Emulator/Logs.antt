-- ===== src/Emulator/Logs.antt =====
-- The last error of the emulator's log in agent/server/emulator/emulator.go, under any order of the
-- two outputs.
use droidmole.Base.{
  ◌+◌, ◌<◌, ◌≡◌, refl, arith, Bool, true, false, some, List, [], ◌∷◌, length, Bytes,
}
use droidmole.Emulator.{
  Scan, scan_line, scan_all, process_lines, process_logs, no_error, final_text, trim_space,
}

process_lines-scan_all :
    (ts : List Bool) (outs errs : List Bytes) (s : Scan)
    → length outs + length errs < length ts
    → process_lines ts outs errs s ≡ some (scan_all errs s)
unfolding process_lines scan_all
process_lines-scan_all [] outs errs s l = absurd (omega arith)
process_lines-scan_all (false ∷ ts) [] errs s l = refl
process_lines-scan_all (false ∷ ts) (o ∷ outs) errs s l =
    process_lines-scan_all ts outs errs s (omega arith)
process_lines-scan_all (true ∷ ts) outs [] s l = refl
process_lines-scan_all (true ∷ ts) outs (e ∷ errs) s l =
    process_lines-scan_all ts outs errs (scan_line e s) (omega arith)

-- In whatever order the loop takes the lines of the two outputs, and whichever is closed first, the
-- log comes to an end, with the last error that a scan of the error output alone finds: after as many
-- turns as there are lines, and one more.
pub process_logs-order :
    (ts : List Bool) (outs errs : List Bytes)
    → length outs + length errs < length ts
    → process_logs ts outs errs ≡ some (trim_space (scan_all errs no_error).last_error)
unfolding process_logs final_text
process_logs-order ts outs errs l = rw (process_lines-scan_all ts outs errs no_error l) refl

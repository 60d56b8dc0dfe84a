-- ===== src/Emulator.antt =====
-- agent/server/emulator/emulator.go: the log of the emulator process, its exit, and the requests to it.
-- The process, its signals and the controller's calls are arguments.
pub mod Config
pub mod Controller
pub mod Life
pub mod Logs
mod Tests
use droidmole.Base.{
  ℕ, zero, suc, ◌==◌, leb, Bool, true, false, ◌&&◌, ◌||◌, if◌then◌else◌, Option, none, some, List,
  [], ◌∷◌, ◌++◌, take, drop, length, Bytes, bytes, bytes_eq, has_prefix, trim_prefix,
}
use droidmole.Go.{Error, text, status, failed_precondition, invalid_argument, Result, ok, err}

is_space : ℕ → Bool
is_space c = c == 32 || (leb 9 c && leb c 13)

-- strings.TrimSpace over ASCII text: the space in front, and the space behind.
trim_left : Bytes → Bytes
unfolding is_space
trim_left [] = []
trim_left (c ∷ s) = let rest = trim_left s in if is_space c then rest else c ∷ s

keep_space : ℕ → Bytes → Bytes
unfolding is_space
keep_space c [] = if is_space c then [] else c ∷ []
keep_space c (d ∷ s) = c ∷ d ∷ s

trim_right : Bytes → Bytes
unfolding keep_space
trim_right [] = []
trim_right (c ∷ s) = keep_space c (trim_right s)

unfoldable pub trim_space : Bytes → Bytes
unfolding trim_left trim_right
trim_space s = trim_right (trim_left s)

-- `lastError` and `inError`
pub record Scan : Type 0 where
  pub last_error : Bytes
  pub in_error : Bool

-- A line of the error output.
unfoldable pub scan_line : Bytes → Scan → Scan
unfolding has_prefix trim_prefix
scan_line line s =
    if has_prefix (bytes "ERROR   |") line
    then record { last_error = trim_prefix (bytes "ERROR   |") line; in_error = true }
    else if has_prefix (bytes "WARNING |") line || has_prefix (bytes "INFO    |") line
    then record s { in_error = false }
    else if s.in_error
    then record s { last_error = s.last_error ++ (10 ∷ line) }
    else s

-- The loop over the rest of the error output.
unfoldable pub scan_all : List Bytes → Scan → Scan
scan_all [] s = s
scan_all (line ∷ lines) s = scan_all lines (scan_line line s)

-- The first loop, which takes a line of the one output or of the other as the turns say, until one is
-- closed; then the rest of both is read. `none` when the turns run out.
unfoldable pub process_lines : List Bool → List Bytes → List Bytes → Scan → Option Scan
process_lines [] outs errs s = none
process_lines (false ∷ ts) [] errs s = some (scan_all errs s)
process_lines (false ∷ ts) (o ∷ outs) errs s = process_lines ts outs errs s
process_lines (true ∷ ts) outs [] s = some s
process_lines (true ∷ ts) outs (e ∷ errs) s = process_lines ts outs errs (scan_line e s)

abbrev pub no_error : Scan
no_error = record { last_error = []; in_error = false }

final_text : Option Scan → Option Bytes
final_text none = none
final_text (some s) = some (trim_space s.last_error)

-- What goes to `exitErr`.
unfoldable pub process_logs : List Bool → List Bytes → List Bytes → Option Bytes
unfolding final_text
process_logs ts outs errs = final_text (process_lines ts outs errs no_error)

is_kill : Option ℕ → Bool
is_kill none = false
is_kill (some signal) = signal == 9

exit_text : Option Bytes → Bytes → Option Error
exit_text none last = none
exit_text (some e) last =
    some (text (bytes "emulator exited with: " ++ (e ++ (bytes ", last error: " ++ last))))

-- What `watchEmulatorExit` reports, for the signal that ended the process and the error of Wait.
unfoldable pub exit_error : Bool → Option ℕ → Option Bytes → Bytes → Option Error
unfolding is_kill exit_text
exit_error forced signal e last = if forced && is_kill signal then none else exit_text e last

-- The answer of `Stop` while the controller is not connected.
not_ready : Result (Unit {0})
not_ready = err (status failed_precondition (bytes "emulator not ready"))

-- The answer of Kill is that of a forced stop, and `forceExitRequested` is set then.
unfoldable pub stop :
    Bool → Bool → Bool → Result (Unit {0}) → Result (Unit {0}) → Result (Unit {0}) × Bool
unfolding not_ready
stop connected true requested kill request_exit = (kill, true)
stop false false requested kill request_exit = (not_ready, requested)
stop true false requested kill request_exit = (request_exit, requested)

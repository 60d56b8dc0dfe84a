-- ===== src/Emulator/Tests.antt =====
-- The theorems about agent/server/emulator/emulator.go at concrete inputs.
use droidmole.Base.{
  if◌then◌else◌, ◌≤◌, ◌<◌, ◌≡◌, refl, Bool, true, false, some, none, List, [], ◌∷◌, ◌++◌, arith,
  Bytes, bytes,
}
use droidmole.Go.{ok}
use droidmole.Emulator.{scan_line, scan_all, no_error, trim_space, process_logs, exit_error}
use droidmole.Emulator.Config.{cpu_arch}
use droidmole.Emulator.Life.{
  started, exited, framed, begun, Step, connects, displays, exits, logs_end, tells, step, run,
}
use droidmole.Emulator.Life.Once.{starts_in, exits_in, frames_in}
use droidmole.Emulator.Life.Past.{answered, shown, ended, logged, tally, run-once}
use droidmole.Emulator.Logs.{process_logs-order}

abbrev errors : List Bytes
errors = bytes "ERROR   | no disk" ∷ bytes "left" ∷ bytes "INFO    | bye" ∷ bytes "end" ∷ []

abbrev turns : List Bool
turns = true ∷ false ∷ true ∷ true ∷ true ∷ true ∷ []

finds_last_error :
    process_logs turns (bytes "boot" ∷ []) errors ≡ some (bytes "no disk" ++ (10 ∷ bytes "left"))
unfolding process_logs droidmole.Emulator.process_lines scan_line trim_space
finds_last_error = refl

force_kill_is_no_error : exit_error true (some 9) (some (bytes "signal: killed")) [] ≡ none
unfolding exit_error
force_kill_is_no_error = refl

process_logs-order_example :
    process_logs turns (bytes "boot" ∷ []) errors
    ≡ some (trim_space (scan_all errors no_error).last_error)
process_logs-order_example = process_logs-order turns (bytes "boot" ∷ []) errors (omega arith)

-- The process ends while connect waits for adb, and adb finds the device then.
abbrev steps : List Step
steps =
    connects (ok tt)
    ∷ displays (ok [])
    ∷ displays (ok (1 ∷ 2 ∷ 3 ∷ []))
    ∷ exits none none
    ∷ logs_end (bytes "bye")
    ∷ tells
    ∷ tells
    ∷ connects (ok tt)
    ∷ connects (ok tt)
    ∷ []

starts_after_exit :
    (run steps (begun false 1 1)).reports
    ≡ framed (record { width = 1; height = 1; pixels = 1 ∷ 2 ∷ 3 ∷ [] })
      ∷ exited none
      ∷ started
      ∷ []
unfolding run step begun exit_error
starts_after_exit = refl

run-once_example :
    let reports = (run steps (begun false 1 1)).reports in
    (starts_in reports ≤ 1)
    × (exits_in reports ≤ 1)
    × (0 < starts_in reports → (if false then 5 else 2) ≤ tally answered steps)
    × (0 < exits_in reports → (0 < tally ended steps) × (0 < tally logged steps))
    × (0 < frames_in reports → (frames_in reports < tally shown steps) × (0 < tally answered steps))
run-once_example = run-once steps false 1 1

arm_arch : cpu_arch (bytes "arm64-v8a") ≡ some (bytes "arm64")
unfolding cpu_arch
arm_arch = refl

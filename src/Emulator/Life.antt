-- ===== src/Emulator/Life.antt =====
-- The goroutines of agent/server/emulator/emulator.go from the start of the process on: connect,
-- processDisplay, watchEmulatorExit and the end of processLogs, in any order of their steps, and what
-- they report to the monitor. What each waited for is the argument of its step.
pub mod Once
pub mod Past
use droidmole.Base.{
  ℕ, zero, suc, ◌+◌, ◌≤◌, ◌≡◌, refl, Bool, true, false, ◌&&◌, if◌then◌else◌, Option, none, some,
  List, [], ◌∷◌, ◌++◌, Bytes, arith, ltb, leb,
}
use droidmole.Go.{Error, Result, ok, err, panic}
use droidmole.Server.{Frame}
use droidmole.Emulator.{exit_error, stop}

pub data Report : Type 0 where
  started : Report
  exited : Option Error → Report
  framed : Frame → Report

-- Where connect is: at the dial, WaitForEmulator, OpenEmulator, the command, its answer, or over.
pub data Connecting : Type 0 where
  dialling waiting opening commanding answering over : Connecting

-- processDisplay, once connect has started it.
pub data Displaying : Type 0 where
  unstarted subscribing streaming lost : Displaying

-- watchEmulatorExit: the error of Wait and the signal that ended the process.
pub data Watching : Type 0 where
  running : Watching
  waited : Option Bytes → Option ℕ → Watching
  reported : Watching

-- Of the request: whether to root adb, and the size of the display.
pub record Emulator : Type 0 where
  pub root_adb : Bool
  pub width : ℕ
  pub height : ℕ
  pub controller : Bool
  pub connecting : Connecting
  pub displaying : Displaying
  pub watching : Watching
  -- the last error that processLogs offers
  pub log_end : Option Bytes
  pub force_exit_requested : Bool
  -- log.Fatal was called
  pub fatal : Bool
  pub reports : List Report

-- When the process was started.
unfoldable pub begun : Bool → ℕ → ℕ → Emulator
begun root width height = record {
  root_adb = root;
  width = width;
  height = height;
  controller = false;
  connecting = dialling;
  displaying = unstarted;
  watching = running;
  log_end = none;
  force_exit_requested = false;
  fatal = false;
  reports = [];
}

unfoldable pub report : Report → Emulator → Emulator
report r e = record e { reports = e.reports ++ r ∷ [] }

pub data Step : Type 0 where
  -- what the call that connect waits for returns
  connects : Result (Unit {0}) → Step
  -- what StreamDisplay or GetFrame returns
  displays : Result Bytes → Step
  exits : Option Bytes → Option ℕ → Step
  logs_end : Bytes → Step
  -- watchEmulatorExit takes the last error
  tells : Step
  -- Stop, with the answers of the kill and of the controller
  stops : Bool → Result (Unit {0}) → Result (Unit {0}) → Step

boot : Emulator → Emulator
unfolding report
boot e = report started (record e { connecting = over })

connect_on : Connecting → Emulator → Emulator
unfolding boot
connect_on dialling e = record e {
  controller = true;
  connecting = waiting;
  displaying = subscribing;
}
connect_on waiting e = if e.root_adb then record e { connecting = opening } else boot e
connect_on opening e = record e { connecting = commanding }
connect_on commanding e = record e { connecting = answering }
connect_on answering e = boot e
connect_on over e = e

is_over : Connecting → Bool
is_over over = true
is_over _ = false

unfoldable pub connect : Result (Unit {0}) → Emulator → Emulator
unfolding connect_on is_over
connect (ok t) e = connect_on e.connecting e
connect _ e = if is_over e.connecting then e else record e { fatal = true }

display_on : Displaying → Result Bytes → Emulator → Emulator
unfolding report
display_on unstarted r e = e
display_on subscribing (ok t) e = record e { displaying = streaming }
display_on streaming (ok pixels) e =
    report (framed (record { width = e.width; height = e.height; pixels = pixels })) e
display_on lost r e = e
display_on _ _ e = record e { displaying = lost }

unfoldable pub process_display : Result Bytes → Emulator → Emulator
unfolding display_on
process_display r e = display_on e.displaying r e

wait_on : Watching → Option Bytes → Option ℕ → Emulator → Emulator
wait_on running x signal e = record e { watching = waited x signal }
wait_on _ x signal e = e

tell_on : Watching → Option Bytes → Emulator → Emulator
unfolding report
tell_on (waited x signal) (some last) e =
    report (exited (exit_error e.force_exit_requested signal x last))
      (record e { watching = reported })
tell_on _ _ e = e

end_logs : Option Bytes → Bytes → Emulator → Emulator
end_logs none last e = record e { log_end = some last }
end_logs (some first) last e = e

unfoldable pub watch_emulator_exit : Emulator → Emulator
unfolding tell_on
watch_emulator_exit e = tell_on e.watching e.log_end e

unfoldable pub act : Step → Emulator → Emulator
unfolding connect process_display wait_on watch_emulator_exit end_logs
act (connects r) e = connect r e
act (displays r) e = process_display r e
act (exits x signal) e = wait_on e.watching x signal e
act (logs_end last) e = end_logs e.log_end last e
act tells e = watch_emulator_exit e
act (stops forced kill request_exit) e = record e {
  force_exit_requested = (stop e.controller forced e.force_exit_requested kill request_exit).1;
}

-- Nothing happens behind log.Fatal.
unfoldable pub step : Step → Emulator → Emulator
unfolding act
step s e = if e.fatal then e else act s e

unfoldable pub run : List Step → Emulator → Emulator
run [] e = e
run (s ∷ ss) e = run ss (step s e)

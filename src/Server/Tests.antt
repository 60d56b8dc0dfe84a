-- ===== src/Server/Tests.antt =====
-- The theorems about agent/server/server.go and controller.go at concrete inputs.
use droidmole.Base.{
  ◌≡◌, refl, ◌≢◌, true, false, none, some, List, [], ◌∷◌, ◌++◌, arith, Bytes, bytes,
}
use droidmole.Go.{Error, ok, panic}
use droidmole.Broadcaster.{received, wait_start, new_listener}
use droidmole.Server.{
  stopped, running, Server, new, heartbeat, on_emulator_exit, on_emulator_started, broadcast_state,
  agent_state, start_emulator, stop_emulator, send_input, AgentState,
}
use droidmole.Server.Run.{Event, starts, stops, inputs, exits, boots, beats, step, run, begin}
use droidmole.Server.Reports.{shown, shown_error, heartbeat_reports}
use droidmole.Server.Streams.{first_state_at_once}
use droidmole.Server.Emulators.{AllOrderly, orderly_never_panics}

abbrev message : Error → Bytes
message e = bytes "error"

-- A server whose emulator 4 runs.
abbrev busy : Server
busy = record {
  state = running;
  state_error = none;
  emu = some 4;
  state_broadcaster = record { generation = 0; value = none; closed = false };
  frame_broadcaster = record { generation = 0; value = none; closed = false };
}

abbrev session : List Event
session = starts (ok 4) ∷ boots ∷ inputs true (ok tt) ∷ stops (ok tt) ∷ exits none ∷ []

session_ends : (run message (begin message) session).state ≡ stopped
unfolding run begin step on_emulator_exit agent_state
session_ends = refl

heartbeat_reports_example :
    let s = run message (begin message) session in
    let (r, s') = heartbeat message s in
    (r ≡ ok tt)
    × (s'.state_broadcaster.value
        ≡ some (record {
          emulator_state = shown s.state;
          emulator_error = shown_error message s.state s.state_error;
        }))
heartbeat_reports_example = heartbeat_reports message session

first_state_at_once_example :
    (a : AgentState) × ((wait_start
        (run message (begin message) session).state_broadcaster
        new_listener).0
      ≡ received (some a))
first_state_at_once_example = first_state_at_once message session (omega arith)

session-AllOrderly : AllOrderly message (session ++ beats ∷ []) (begin message)
unfolding begin new step start_emulator on_emulator_started stop_emulator send_input agent_state
    broadcast_state
session-AllOrderly = (ground arith, (ground arith, (ground arith, (ground arith, (tt, (tt, tt))))))

orderly_never_panics_example : (step message beats (run message (begin message) session)).0 ≢ panic
orderly_never_panics_example = orderly_never_panics message session beats session-AllOrderly

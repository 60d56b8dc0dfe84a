-- ===== src/Server/Run.antt =====
-- The server of agent/server under any order of requests, callbacks and heartbeats.
use droidmole.Base.{ℕ, Bool, Option, List, [], ◌∷◌, Bytes}
use droidmole.Go.{Error, Result, Exec}
use droidmole.Server.{
  Frame, Server, heartbeat, on_emulator_exit, on_emulator_started, on_emulator_frame,
  start_emulator, stop_emulator, send_input, require_running, new, broadcast_state,
}

-- A request or callback, with what the emulator answers to it.
pub data Event : Type 0 where
  starts : Result ℕ → Event
  stops : Result (Unit {0}) → Event
  inputs : Bool → Result (Unit {0}) → Event
  asks : Event
  exits : Option Error → Event
  boots : Event
  frames : Frame → Event
  beats : Event

module _ (message : Error → Bytes) where
  unfoldable pub step : Event → Exec Server (Unit {0})
  step (starts answer) = start_emulator message answer
  step (stops answer) = stop_emulator answer
  step (inputs given answer) = send_input given answer
  step asks = require_running
  step (exits e) = on_emulator_exit message e
  step boots = on_emulator_started message
  step (frames f) = on_emulator_frame f
  step beats = heartbeat message

  -- The server after a sequence of events; the answer of each goes to its own caller.
  unfoldable pub run : Server → List Event → Server
  run s [] = s
  run s (e ∷ es) = run (step e s).1 es

  -- `Server.Start` sends the first state before anything is served.
  unfoldable pub begin : Server
  begin = (broadcast_state message new).1

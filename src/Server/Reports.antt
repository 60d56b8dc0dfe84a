-- ===== src/Server/Reports.antt =====
-- What the server of agent/server reports to those who stream its state and its frames.
use droidmole.Base.{◌≡◌, ap, ◌≢◌, Option, none, some, List, [], ◌∷◌, arith, Bytes}
use droidmole.Go.{Error, ok, err, panic, continue}
use droidmole.Broadcaster
use droidmole.Broadcaster.{Broadcaster, Listener, new_listener, received, waits, wait_start}
use droidmole.Server.{
  State, error, stopped, starting, running, EmulatorState, reports_error, reports_off,
  reports_starting, reports_running, Server, new, heartbeat, on_emulator_exit, on_emulator_started,
  on_emulator_frame, start_emulator, stop_emulator, send_input, require_running, broadcast_state,
  agent_state, publish,
}
use droidmole.Server.Run.{
  Event, starts, stops, inputs, asks, exits, boots, frames, beats, step, run, begin,
}

-- In the error state there is an error to report.
abbrev pub HasError : Server → Type 0
HasError s = s.state ≡ error → s.state_error ≢ none

-- What the clients are shown.
abbrev pub shown : State → EmulatorState
shown error = reports_error
shown stopped = reports_off
shown starting = reports_starting
shown running = reports_running

abbrev pub shown_error : (Error → Bytes) → State → Option Error → Option Bytes
shown_error message error (some e) = some (message e)
shown_error message _ _ = none

module _ (message : Error → Bytes) where
  agent_state-shown :
      (s : Server)
      → HasError s
      → agent_state message s.state s.state_error
        ≡ ok (record {
          emulator_state = shown s.state;
          emulator_error = shown_error message s.state s.state_error;
        })
  unfolding agent_state
  agent_state-shown s h = ground arith

  pub step-HasError : (e : Event) (s : Server) → HasError s → HasError (step message e s).1
  unfolding step broadcast_state heartbeat on_emulator_exit on_emulator_started on_emulator_frame
      start_emulator stop_emulator send_input require_running agent_state
  step-HasError (starts (ok id)) s h = ground arith
  step-HasError (starts (err e)) s h = ground arith
  step-HasError (starts panic) s h = ground arith
  step-HasError (stops answer) s h = ground arith
  step-HasError (inputs given answer) s h = ground arith
  step-HasError asks s h = ground arith
  step-HasError (exits e) s h = ground arith
  step-HasError boots s h = ground arith
  step-HasError (frames f) s h = ground arith
  step-HasError beats s h = ground arith

  run-HasError : (es : List Event) (s : Server) → HasError s → HasError (run message s es)
  unfolding run
  run-HasError [] s h = h
  run-HasError (e ∷ es) s h = run-HasError es (step message e s).1 (step-HasError e s h)

  pub begin-HasError : HasError (begin message)
  unfolding begin new broadcast_state agent_state
  begin-HasError = ground arith

  -- After any requests and callbacks, in any order, the heartbeat does not panic, and what it
  -- publishes is the present state, with the text of the error in the error state and with none in
  -- any other.
  pub heartbeat_reports :
      (es : List Event)
      → let s = run message (begin message) es in
        let (r, s') = heartbeat message s in
        (r ≡ ok tt)
        × (s'.state_broadcaster.value
            ≡ some (record {
              emulator_state = shown s.state;
              emulator_error = shown_error message s.state s.state_error;
            }))
  unfolding heartbeat broadcast_state Broadcaster.broadcast
  heartbeat_reports es =
      let s = run message (begin message) es in
      let e = agent_state-shown s (run-HasError es (begin message) begin-HasError) in
      (
        ap (λ r. (continue r publish s).0) e,
        ap (λ r. (continue r publish s).1.state_broadcaster.value) e,
      )

-- ===== src/Server/Emulators.antt =====
-- The server's handlers on every branch, and its hold on the running emulator.
use droidmole.Base.{
  ℕ, ◌≡◌, refl, ◌≢◌, ◌↔◌, true, false, none, some, List, [], ◌∷◌, ◌++◌, arith, Bytes, bytes,
}
use droidmole.Go.{failed_precondition, Error, status, Result, ok, err, panic}
use droidmole.Broadcaster
use droidmole.Broadcaster.{Broadcaster, Listener, new_listener, received, waits, wait_start}
use droidmole.Server.{
  error, stopped, starting, running, reports_starting, Server, new, heartbeat, on_emulator_exit,
  on_emulator_started, on_emulator_frame, started, start_emulator, stop_emulator, send_input,
  require_running, broadcast_state, agent_state, publish, may_start, takes_input,
}
use droidmole.Server.Reports.{HasError, step-HasError, begin-HasError}
use droidmole.Server.Run.{Event, starts, stops, inputs, exits, boots, step, run, begin}

-- The file and shell requests pass their guard exactly in the running state, and an input reaches
-- the emulator exactly in the starting and running states, if there is an emulator.
pub guards_exact :
    (s : Server) (id : ℕ) (answer : Result (Unit {0}))
    → (((require_running s).0 ≡ ok tt) ↔ (s.state ≡ running))
      × (takes_input s.state ≡ true → s.emu ≡ some id → send_input true answer s ≡ (answer, s))
      × (takes_input s.state ≡ false
          → send_input true answer s
            ≡ (err (status failed_precondition (bytes "emulator not running")), s))
unfolding require_running send_input
guards_exact s id answer = ((λ h. ground arith, λ h. ground arith), λ h k. ground arith, λ h. rw h)

module _ (message : Error → Bytes) where
  -- `start_emulator` on every branch. Where the server may start, the emulator's answer decides, and
  -- the caller is told of success either way; a failure is published by no broadcast. Where it may
  -- not, the caller gets an error and the server is as it was.
  pub start_emulator_cases :
      (s : Server) (id : ℕ) (e : Error) (answer : Result ℕ)
      → (may_start s.state ≡ true
          → let (r, t) = start_emulator message (ok id) s in
            (r ≡ ok tt)
            × (t.state ≡ starting)
            × (t.emu ≡ some id)
            × (t.state_error ≡ none)
            × (t.state_broadcaster
                ≡ Broadcaster.broadcast s.state_broadcaster
                    (some (record { emulator_state = reports_starting; emulator_error = none }))))
        × (may_start s.state ≡ true
            → start_emulator message (err e) s
              ≡ (ok tt, record s { state = error; emu = none; state_error = some e }))
        × (may_start s.state ≡ false
            → start_emulator message answer s
              ≡ (err (status failed_precondition (bytes "emulator already running")), s))
  unfolding start_emulator started broadcast_state agent_state
  start_emulator_cases s id e answer =
      (λ h. rw h (refl, refl, refl, refl, refl), λ h. rw h, λ h. rw h)

  -- An event whose caller gets an error leaves the server as it was.
  pub step_error_unchanged :
      (ev : Event) (s : Server) (e : Error)
      → (step message ev s).0 ≡ err e
      → (step message ev s).1 ≡ s
  unfolding step start_emulator started stop_emulator send_input require_running on_emulator_exit
      on_emulator_started on_emulator_frame heartbeat broadcast_state agent_state publish
  step_error_unchanged (starts (ok id)) s e h = ground arith
  step_error_unchanged (starts (err x)) s e h = ground arith
  step_error_unchanged (exits none) s e h = ground arith
  step_error_unchanged (exits (some x)) s e h = ground arith
  step_error_unchanged _ s e h = ground arith

-- A server that starts or runs an emulator holds it.
abbrev pub Holds : Server → Type 0
Holds s = takes_input s.state ≡ true → s.emu ≢ none

-- The answers of the emulator are no panics, and a boot is reported only while one is held.
abbrev pub Orderly : Event → Server → Type 0
Orderly (starts answer) s = answer ≢ panic
Orderly (stops answer) s = answer ≢ panic
Orderly (inputs given answer) s = answer ≢ panic
Orderly boots s = s.emu ≢ none
Orderly _ s = Unit

module _ (message : Error → Bytes) where
  abbrev pub AllOrderly : List Event → Server → Type 0
  AllOrderly [] s = Unit
  AllOrderly (e ∷ es) s = Orderly e s × AllOrderly es (step message e s).1

  step-Holds : (e : Event) (s : Server) → Orderly e s → Holds s → Holds (step message e s).1
  unfolding step start_emulator started stop_emulator send_input require_running on_emulator_exit
      on_emulator_started on_emulator_frame heartbeat broadcast_state agent_state publish
  step-Holds (starts (ok id)) s o h = ground arith
  step-Holds (starts (err x)) s o h = ground arith
  step-Holds (exits none) s o h = ground arith
  step-Holds (exits (some x)) s o h = ground arith
  step-Holds _ s o h = ground arith

  step-ne-panic :
      (e : Event) (s : Server) → Orderly e s → Holds s → HasError s → (step message e s).0 ≢ panic
  unfolding step start_emulator started stop_emulator send_input require_running on_emulator_exit
      on_emulator_started on_emulator_frame heartbeat broadcast_state agent_state publish
  step-ne-panic (starts (ok id)) s o h k = ground arith
  step-ne-panic (starts (err x)) s o h k = ground arith
  step-ne-panic (exits none) s o h k = ground arith
  step-ne-panic (exits (some x)) s o h k = ground arith
  step-ne-panic _ s o h k = ground arith

  run-ne-panic :
      (es : List Event) (e : Event) (s : Server)
      → AllOrderly (es ++ e ∷ []) s
      → Holds s
      → HasError s
      → (step message e (run message s es)).0 ≢ panic
  unfolding run
  run-ne-panic [] e s o h k = step-ne-panic e s o.0 h k
  run-ne-panic (x ∷ es) e s o h k =
      run-ne-panic es e (step message x s).1 o.1 (step-Holds x s o.0 h)
        (step-HasError message x s k)

  -- As long as a boot is reported only while an emulator is held and the emulator's own calls do not
  -- panic, no request, callback or heartbeat panics, whatever came before it.
  pub orderly_never_panics :
      (es : List Event) (e : Event)
      → AllOrderly (es ++ e ∷ []) (begin message)
      → (step message e (run message (begin message) es)).0 ≢ panic
  orderly_never_panics es e o =
      run-ne-panic es e (begin message) o begin-Holds (begin-HasError message)
    where
      begin-Holds : Holds (begin message)
      begin-Holds = unfold begin new broadcast_state agent_state publish in ground arith

  -- A boot that is reported after a stop has failed: the server lets go of the emulator in the failed
  -- stop, and goes to the running state with none on the boot. The next stop or input then panics.
  pub late_boot_panics :
      (s : Server) (id : ℕ) (e : Error) (answer : Result (Unit {0}))
      → s.state ≡ running
      → s.emu ≡ some id
      → let s' = run message s (stops (err e) ∷ boots ∷ []) in
        ((stop_emulator answer s').0 ≡ panic) × ((send_input true answer s').0 ≡ panic)
  unfolding run step stop_emulator send_input on_emulator_started broadcast_state agent_state
      publish
  late_boot_panics s id e answer h k = rw h (rw k (refl, refl))

  -- An exit says of no emulator which it was: that of an emulator whose stop had failed stops the
  -- server's record of the next one, which is held and can no longer be stopped through the server.
  pub stale_exit :
      (s : Server) (id next : ℕ) (e : Error) (answer : Result (Unit {0}))
      → s.state ≡ running
      → s.emu ≡ some id
      → let s' = run message s (stops (err e) ∷ starts (ok next) ∷ boots ∷ exits none ∷ []) in
        (s'.state ≡ stopped)
        × (s'.emu ≡ some next)
        × (stop_emulator answer s'
            ≡ (err (status failed_precondition (bytes "emulator is not running")), s'))
  unfolding run step stop_emulator start_emulator started on_emulator_started on_emulator_exit
      broadcast_state agent_state publish
  stale_exit s id next e answer h k = rw h (rw k (refl, refl, refl))

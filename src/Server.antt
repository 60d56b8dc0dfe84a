-- ===== src/Server.antt =====
-- agent/server/server.go and agent/server/controller.go: the state of the agent and its handlers.
-- Each handler and callback holds the server's mutex, so it is one action on the server. What the
-- emulator and its methods answer is an argument; an emulator is known by a number.
pub mod Requests
pub mod Run
pub mod Reports
pub mod Streams
pub mod Emulators
mod Tests
use droidmole.Base.{
  ℕ, zero, suc, ◌+◌, ◌-◌, ◌*◌, ◌/◌, ◌%◌, ◌^◌, ◌≤◌, ◌<◌, min, ◌≡◌, refl, sym, ap, ◌∙◌, subst,
  fun_ext, ◌≢◌, ◌↔◌, ◌⊎◌, inl, inr, Bool, true, false, not, ◌&&◌, ◌||◌, Option, none, some, List,
  [], ◌∷◌, ◌++◌, map, append-nil, append_assoc, arith, ltb, leb, ◌==◌, if◌then◌else◌, ltb→lt,
  lt→ltb, leb→le, le→leb, lt→leb_false, ==_iff, tests, Bool-cases, Option-cases, length, get_elem?,
  take, drop, replicate, All, modify, All-map, All-append, All-modify, length-append,
  take-append_self, drop-append_self, take-append-drop, length-take, length-drop, length-replicate,
  Bytes, bytes, bytes_eq, bytes_eq_refl, eq_of_bytes_eq, IsByte, IsU32, IsU64, u32, put_u32,
  put_u64, get_u32, get_u64, slice, get_u32-put_u32, get_u64-put_u64,
}
use droidmole.Go.{
  Code, invalid_argument, failed_precondition, internal, Error, eof, unexpected_eof, net_closed,
  system, text, syntax, status, Result, ok, err, panic, Exec, pure, fail, crash, lift, on_err_with,
  on_err, deferred, heedless, ignoring, after, continue, ◌>>=◌, ◌>>◌, bind-ok, bind-err, bind_inv,
  bind-ne-none, if-ne-none, on_err_inv, on_err-ok, on_err-err, deferred-eq,
}
use droidmole.Broadcaster
use droidmole.Broadcaster.{Broadcaster, Listener, Outcome}

pub data State : Type 0 where
  error stopped starting running : State

-- AgentState_EmulatorState of the protocol.
pub data EmulatorState : Type 0 where
  reports_error reports_off reports_starting reports_running : EmulatorState

pub record AgentState : Type 0 where
  pub emulator_state : EmulatorState
  pub emulator_error : Option Bytes

pub record Frame : Type 0 where
  pub width : ℕ
  pub height : ℕ
  pub pixels : Bytes

pub record Server : Type 0 where
  pub state : State
  pub state_error : Option Error
  pub emu : Option ℕ
  pub state_broadcaster : Broadcaster AgentState
  pub frame_broadcaster : Broadcaster Frame

unfoldable pub new : Server
unfolding Broadcaster.new
new = record {
  state = stopped;
  state_error = none;
  emu = none;
  state_broadcaster = Broadcaster.new;
  frame_broadcaster = Broadcaster.new;
}

abbrev pub is_running : State → Bool
is_running running = true
is_running _ = false

-- `state == StateStopped || state == StateError`
abbrev pub may_start : State → Bool
may_start error = true
may_start stopped = true
may_start _ = false

-- `state == StateRunning || state == StateStarting`
abbrev pub takes_input : State → Bool
takes_input starting = true
takes_input running = true
takes_input _ = false

abbrev failed_precondition_with : {A : Type 0} → Bytes → Exec Server A
failed_precondition_with msg = fail (status failed_precondition msg)

publish : AgentState → Exec Server (Unit {0})
publish a s =
    (ok tt, record s { state_broadcaster = Broadcaster.broadcast s.state_broadcaster (some a) })

-- `message` is the method Error() of the error values.
module _ (message : Error → Bytes) where
  -- `s.stateError.Error()` panics on a nil error.
  error_state : Option Error → Result AgentState
  error_state none = panic
  error_state (some e) =
      ok (record { emulator_state = reports_error; emulator_error = some (message e) })

  unfoldable pub agent_state : State → Option Error → Result AgentState
  unfolding error_state
  agent_state error e = error_state e
  agent_state stopped e = ok (record { emulator_state = reports_off; emulator_error = none })
  agent_state starting e = ok (record { emulator_state = reports_starting; emulator_error = none })
  agent_state running e = ok (record { emulator_state = reports_running; emulator_error = none })

  unfoldable pub broadcast_state : Exec Server (Unit {0})
  unfolding publish
  broadcast_state s = continue (agent_state s.state s.state_error) publish s

  unfoldable pub heartbeat : Exec Server (Unit {0})
  unfolding broadcast_state
  heartbeat = broadcast_state

  unfoldable pub on_emulator_exit : Option Error → Exec Server (Unit {0})
  unfolding broadcast_state
  on_emulator_exit (some e) s = broadcast_state (record s { state = error; state_error = some e })
  on_emulator_exit none s = broadcast_state (record s { state = stopped; state_error = none })

  unfoldable pub on_emulator_started : Exec Server (Unit {0})
  unfolding broadcast_state
  on_emulator_started s = broadcast_state (record s { state = running })

  -- What `StartEmulator` makes of the answer of `emulator.Start`.
  started : Result ℕ → Exec Server (Unit {0})
  started (ok id) s =
      broadcast_state (record s { state = starting; emu = some id; state_error = none })
  started (err e) s = (ok tt, record s { state = error; emu = none; state_error = some e })
  started panic s = (panic, s)

  unfoldable pub start_emulator : Result ℕ → Exec Server (Unit {0})
  unfolding started broadcast_state
  start_emulator answer s =
      if may_start s.state
      then started answer s
      else failed_precondition_with (bytes "emulator already running") s

-- What `StopEmulator` makes of the answer of `emu.Stop`, which panics on a nil emulator.
stopped_with : Option ℕ → Result (Unit {0}) → Exec Server (Unit {0})
stopped_with none answer s = (panic, s)
stopped_with (some id) (ok t) s = (ok tt, s)
stopped_with (some id) (err e) s =
    (ok tt, record s { state = error; emu = none; state_error = some e })
stopped_with (some id) panic s = (panic, s)

unfoldable pub stop_emulator : Result (Unit {0}) → Exec Server (Unit {0})
unfolding stopped_with
stop_emulator answer s =
    if is_running s.state
    then stopped_with s.emu answer s
    else failed_precondition_with (bytes "emulator is not running") s

-- `emu.ProcessInput`, which panics on a nil emulator.
input_with : Option ℕ → Result (Unit {0}) → Exec Server (Unit {0})
input_with none answer s = (panic, s)
input_with (some id) answer s = (answer, s)

-- The first argument is whether there is a request.
unfoldable pub send_input : Bool → Result (Unit {0}) → Exec Server (Unit {0})
unfolding input_with
send_input false answer s = (err (status invalid_argument (bytes "no request given")), s)
send_input true answer s =
    if takes_input s.state
    then input_with s.emu answer s
    else failed_precondition_with (bytes "emulator not running") s

-- The guard of `OpenShell`, `ListDirectory`, `StatFile`, `PullFile` and `PushFile`, before the call
-- that each of them makes.
unfoldable pub require_running : Exec Server (Unit {0})
require_running s =
    if is_running s.state
    then (ok tt, s)
    else failed_precondition_with (bytes "emulator not running") s

unfoldable pub on_emulator_frame : Frame → Exec Server (Unit {0})
on_emulator_frame frame s =
    (ok tt, record s { frame_broadcaster = Broadcaster.broadcast s.frame_broadcaster (some frame) })

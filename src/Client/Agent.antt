-- ===== src/Client/Agent.antt =====
-- agent/client/client.go, input.go, state.go, display.go and syslog.go: the calls of the agent. The
-- generated client of agent/protocol is a list of the calls made and a script of their answers.
use droidmole.Base.{ℕ, Bool, Option, none, some, List, [], ◌∷◌, ◌++◌, Bytes}
use droidmole.Go.{Error, Result, ok, err, panic, Exec}
use droidmole.Grpc
use droidmole.Grpc.{Stream}
use droidmole.Server.{EmulatorState, AgentState}
use droidmole.Display.Processor.{DisplayFrame}

-- The requests of the protocol.
pub record BootRequest : Type 0 where
  pub ram_size : ℕ
  pub core_count : ℕ
  pub lcd_density : ℕ
  pub lcd_width : ℕ
  pub lcd_height : ℕ
  pub root_adb : Bool

-- A signed number is its 32 bits.
pub record Touch : Type 0 where
  pub identifier : ℕ
  pub x : ℕ
  pub y : ℕ
  pub pressure : ℕ
  pub touch_major : ℕ
  pub touch_minor : ℕ

pub data Call : Type 0 where
  start : BootRequest → Call
  -- whether the exit is forced
  stop : Bool → Call
  input : Touch → Call

pub record AgentClient : Type 0 where
  pub calls : List Call
  -- what the next calls return; all others return nil
  pub answers : List (Option Error)

call_as : List (Option Error) → Call → Exec AgentClient (Unit {0})
call_as [] m c = (ok tt, record c { calls = c.calls ++ m ∷ [] })
call_as (none ∷ more) m c = (ok tt, record c { calls = c.calls ++ m ∷ []; answers = more })
call_as (some e ∷ more) m c = (err e, record c { calls = c.calls ++ m ∷ []; answers = more })

unfoldable pub invoke : Call → Exec AgentClient (Unit {0})
unfolding call_as
invoke m c = call_as c.answers m c

pub record StartEmulatorRequest : Type 0 where
  pub ram_size : ℕ
  pub core_count : ℕ
  pub lcd_density : ℕ
  pub lcd_width : ℕ
  pub lcd_height : ℕ
  pub root_adb : Bool

unfoldable pub start_emulator : StartEmulatorRequest → Exec AgentClient (Unit {0})
unfolding invoke
start_emulator r = invoke (
    start (record {
      ram_size = r.ram_size;
      core_count = r.core_count;
      lcd_density = r.lcd_density;
      lcd_width = r.lcd_width;
      lcd_height = r.lcd_height;
      root_adb = r.root_adb;
    }))

unfoldable pub stop_emulator : Bool → Exec AgentClient (Unit {0})
unfolding invoke
stop_emulator forced = invoke (stop forced)

pub record TouchEvent : Type 0 where
  pub identifier : ℕ
  pub x : ℕ
  pub y : ℕ
  pub pressure : ℕ
  pub touch_major : ℕ
  pub touch_minor : ℕ

unfoldable pub to_request : TouchEvent → Call
to_request e = input (record {
  identifier = e.identifier;
  x = e.x;
  y = e.y;
  pressure = e.pressure;
  touch_major = e.touch_major;
  touch_minor = e.touch_minor;
})

unfoldable pub send_input : TouchEvent → Exec AgentClient (Unit {0})
unfolding invoke to_request
send_input e = invoke (to_request e)

-- A stream of the agent is what its call gave. Recv takes the next message and copies its fields.
received_as : {In Out A : Type 0} → (In → A) → Result In → Exec (Stream In Out) A
received_as f (ok m) s = (ok (f m), s)
received_as f (err e) s = (err e, s)
received_as f panic s = (panic, s)

-- Recv of a DisplayStream, StateStream or SysLogStream is this, at its own `f`.
recv_as : {In Out A : Type 0} → (In → A) → Exec (Stream In Out) A
unfolding received_as
recv_as f s = received_as f (Grpc.receive s).0 (Grpc.receive s).1

pub record Frame : Type 0 where
  pub keyframe : Bool
  pub width : ℕ
  pub height : ℕ
  pub content : Bytes

unfoldable pub recv_frame : {Out : Type 0} → Exec (Stream DisplayFrame Out) Frame
unfolding recv_as
recv_frame =
    recv_as
      λ f. record { keyframe = f.keyframe; width = f.width; height = f.height; content = f.content }

pub record State : Type 0 where
  pub emulator_state : EmulatorState
  pub emulator_error : Option Bytes

unfoldable pub recv_state : {Out : Type 0} → Exec (Stream AgentState Out) State
unfolding recv_as
recv_state =
    recv_as λ s. record { emulator_state = s.emulator_state; emulator_error = s.emulator_error }

-- An entry of the log, and its message on the wire, are the line.
unfoldable pub recv_entry : {Out : Type 0} → Exec (Stream Bytes Out) Bytes
unfolding recv_as
recv_entry = recv_as λ line. line

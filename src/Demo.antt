-- ===== src/Demo.antt =====
-- demo/backend/client/client.go: a browser that watches the device over a web socket. The socket is a
-- stream: ReadMessage takes what comes in, WriteMessage puts out, and each write may fail. A message
-- of text is the struct that encoding/json reads or writes; what it cannot read is an error.
pub mod Calls
pub mod Touches
pub mod Frames
pub mod Messages
pub mod Server
pub mod Shells
mod Tests
use droidmole.Base.{
  ℕ, zero, suc, ◌+◌, Bool, true, false, if◌then◌else◌, Option, none, some, List, [], ◌∷◌, ◌++◌,
  Bytes, bytes, bytes_eq,
}
use droidmole.Go.{Error, Result, ok, err, panic, Exec, pure, crash, fail, continue, ◌>>=◌, ◌>>◌}
use droidmole.Shell.{ShellType, pty, ShellRequest, ShellResponse}
use droidmole.Grpc
use droidmole.Grpc.{Stream}
use droidmole.Client.Agent
use droidmole.Client.Agent.{AgentClient, Frame}
use droidmole.Client.Shell
use droidmole.Client.Shell.{Output}

pub record TouchEvent : Type 0 where
  pub id : ℕ
  pub x : ℕ
  pub y : ℕ
  pub pressure : ℕ

-- `kind` is the field Type.
pub record ClientInMsg : Type 0 where
  pub kind : Bytes
  pub line : Option Bytes
  pub touch_event : Option TouchEvent
  pub power_event : Option Bytes

pub record ClientOutMsg : Type 0 where
  pub kind : Bytes
  pub line : Option Bytes

pub data Message : Type 0 where
  binary : Bytes → Message
  text : ClientOutMsg → Message

-- What the agent answers to the request for a shell.
abbrev pub Opening : Type 0
Opening = Result (Stream (Option ShellResponse) ShellRequest)

-- A message, with what OpenShell answers if the message asks for a shell.
pub record Incoming : Type 0 where
  pub msg : ClientInMsg
  pub opening : Opening

-- The agent's client is shared by all; only the calls of this one are in `ac`.
pub record Client : Type 0 where
  pub ws : Stream (Result Incoming) Message
  pub video_started : Bool
  pub ac : AgentClient
  pub shell : Option Shell.Shell
  -- the goroutines that were started to read from the shell
  pub readers : ℕ

unfoldable pub write : Message → Exec Client (Unit {0})
write m c = ((Grpc.send m c.ws).0, record c { ws = (Grpc.send m c.ws).1 })

unfoldable pub send_msg : ClientOutMsg → Exec Client (Unit {0})
unfolding write
send_msg m = write (text m)

abbrev pub line_of : Bytes → Bytes → ClientOutMsg
line_of kind line = record { kind = kind; line = some line }

-- The error of the first message is dropped. The goroutine that reads is `process_messages`.
unfoldable pub new : Stream (Result Incoming) Message → AgentClient → Client
unfolding send_msg
new ws ac =
    (send_msg (line_of (bytes "log") (bytes "Connected"))
      (record { ws = ws; video_started = false; ac = ac; shell = none; readers = 0 })).1

shell_request : Shell.Request
shell_request = record {
  shell_type = pty;
  command = none;
  term_type = some (bytes "xterm-256color");
}

-- `c.shell, err = ...` sets the shell on an error too, to nil.
keep_shell : Result Shell.Shell → Exec Client (Unit {0})
keep_shell (ok s) c = (ok tt, record c { shell = some s; readers = c.readers + 1 })
keep_shell (err e) c = (err e, record c { shell = none })
keep_shell panic c = (panic, c)

-- A call on a nil shell panics, since it reads the shell's stream.
type_into : Option Shell.Shell → Bytes → Exec Client (Unit {0})
type_into none line c = (panic, c)
type_into (some s) line c =
    ((Shell.send_input line s).0, record c { shell = some (Shell.send_input line s).1 })

-- So does the dereference of a field that the message lacks.
shell_data : Option Bytes → Exec Client (Unit {0})
unfolding type_into
shell_data none c = (panic, c)
shell_data (some line) c = type_into c.shell line c

on_agent : Exec AgentClient (Unit {0}) → Exec Client (Unit {0})
on_agent m c = ((m c.ac).0, record c { ac = (m c.ac).1 })

touch : Option TouchEvent → Exec Client (Unit {0})
unfolding on_agent
touch none = crash
touch (some e) = on_agent (
    Agent.send_input (record {
      identifier = e.id;
      x = e.x;
      y = e.y;
      pressure = e.pressure;
      touch_major = 0;
      touch_minor = 0;
    }))

boot : Agent.StartEmulatorRequest
boot = record {
  ram_size = 3500;
  core_count = 4;
  lcd_density = 320;
  lcd_width = 720;
  lcd_height = 1280;
  root_adb = true;
}

power : Option Bytes → Exec Client (Unit {0})
unfolding on_agent boot
power none = crash
power (some e) =
    if bytes_eq e (bytes "start")
    then on_agent (Agent.start_emulator boot)
    else if bytes_eq e (bytes "stop")
    then on_agent (Agent.stop_emulator false)
    else if bytes_eq e (bytes "force-stop")
    then on_agent (Agent.stop_emulator true)
    else pure tt

unfoldable pub handle : Incoming → Exec Client (Unit {0})
unfolding keep_shell shell_data touch power shell_request
handle i =
    if bytes_eq i.msg.kind (bytes "open-shell")
    then keep_shell (Shell.start_shell i.opening shell_request)
    else if bytes_eq i.msg.kind (bytes "shell-data")
    then shell_data i.msg.line
    else if bytes_eq i.msg.kind (bytes "touch-event")
    then touch i.msg.touch_event
    else if bytes_eq i.msg.kind (bytes "power-event")
    then power i.msg.power_event
    else pure tt

-- The loop, until an error ends it; `es` is what ReadMessage and Unmarshal give.
unfoldable pub process_all : List (Result Incoming) → Exec Client (Unit {0})
process_all [] c = (err c.ws.ending, c)
process_all (ok i ∷ es) c =
    (handle i >> process_all es) (record c { ws = record (c.ws) { incoming = es } })
process_all (err e ∷ es) c = (err e, record c { ws = record (c.ws) { incoming = es } })
process_all (panic ∷ es) c = (panic, c)

unfoldable pub process_messages : Exec Client (Unit {0})
process_messages c = process_all c.ws.incoming c

flag : Bool → ℕ
flag true = 1
flag false = 0

-- A key frame starts the video, and is announced.
announce : Bool → Exec Client (Unit {0})
unfolding write
announce false c = (ok tt, c)
announce true c = write (binary (1 ∷ [])) (record c { video_started = true })

forward : Frame → Exec Client (Unit {0})
unfolding write flag
forward f c =
    if c.video_started then write (binary (2 ∷ flag f.keyframe ∷ f.content)) c else (ok tt, c)

unfoldable pub process_frame : Frame → Exec Client (Unit {0})
unfolding announce forward
process_frame f = do announce f.keyframe; forward f

unfoldable pub process_sys_log : Bytes → Exec Client (Unit {0})
process_sys_log line = send_msg (line_of (bytes "kernlog") line)

-- What a goroutine of `processShell` does with a result of Recv, and whether it goes on.
shown : Option Output → Exec Client Bool
shown none = pure false
shown (some o) = do send_msg (line_of (bytes "shell-data") o.content); pure true

hear : Option Shell.Shell → Exec Client (Option Output)
hear none c = (panic, c)
hear (some s) c = ((Shell.recv s).0, record c { shell = some (Shell.recv s).1 })

shell_round : Exec Client Bool
unfolding shown hear
shell_round c = (hear c.shell >>= shown) c

-- `none` is that the fuel ran out.
unfoldable pub process_shell : ℕ → Exec Client (Option (Unit {0}))
unfolding shell_round
process_shell zero = pure none
process_shell (suc fuel) = do on ← shell_round; if on then process_shell fuel else pure (some tt)

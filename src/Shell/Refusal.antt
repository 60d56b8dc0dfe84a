-- ===== src/Shell/Refusal.antt =====
-- A shell command that the device refuses, in agent/server/shell/shell.go.
use droidmole.Base.{
  ◌≡◌, refl, false, Option, some, List, ◌∷◌, ◌++◌, length, Bytes, bytes, bytes_eq, ◌<◌, ◌^◌,
}
use droidmole.Go.{text, err}
use droidmole.Net.{Conn}
use droidmole.Net.Laws.{arriving, sent, IsOpen}
use droidmole.Adb.Dial.{connected, session}
use droidmole.Adb.Raw.Framing.{framed, send_command_answers}
use droidmole.Adb.Sync.Handshake.{open_emulator-okay}
use droidmole.Grpc
use droidmole.Grpc.{Stream}
use droidmole.Shell.{
  ShellType, ShellRequest, ShellResponse, start, shell_command, Turn, serve, connect, with_command,
  begin_with, process,
}

-- Where the device accepts the connection and refuses the shell command, over a working connection,
-- `Process` returns the device's message as an error and leaves the connection open, for good: nothing
-- else holds it.
pub refused_stays_open :
    (ts : List Turn) (term command : Option Bytes) (type : ShellType) (cmd answer msg rest : Bytes)
    (c : Conn) (p : Stream ShellRequest ShellResponse) (ms : List ShellRequest)
    → IsOpen c
    → shell_command term type command ≡ some cmd
    → length answer ≡ 4
    → bytes_eq answer (bytes "OKAY") ≡ false
    → length msg < 2 ^ 16
    → let (r, left, q) =
        process ts
          (connected (arriving (bytes "OKAY" ++ (answer ++ (framed msg ++ rest))) c))
          (record p { incoming = start term type command ∷ ms }) in
      (r ≡ some (err (text (bytes "server error: " ++ msg))))
      × ((d : Conn) × (left ≡ some d) × (d.closed ≡ false))
unfolding process begin_with with_command serve connect session Grpc.receive
refused_stays_open ts term command type cmd answer msg rest c p ms h e four other short =
    let host = sent (framed (bytes "host:transport-local")) c in
    rw e (
      rw (open_emulator-okay (answer ++ (framed msg ++ rest)) c h) (
        rw
          (send_command_answers cmd answer msg rest host
            (record { opened = h.opened; unbroken = h.unbroken }) four other short).1
          (refl, (arriving rest (sent (framed cmd) host), refl, h.opened))))

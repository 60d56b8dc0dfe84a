-- ===== src/Client/Shell.antt =====
-- agent/client/shell/shell.go: the client's side of a shell.
pub mod Hears
pub mod Types
use droidmole.Base.{
  ℕ, ◌+◌, ◌%◌, ◌^◌, Bool, true, false, if◌then◌else◌, Option, none, some, [], ◌∷◌, ◌++◌, Bytes,
  bytes,
}
use droidmole.Go.{Error, text, Result, ok, err, panic, Exec, continue, lift}
use droidmole.Shell.{ShellType, ShellRequest, start, stdin, resizes, ShellResponse, output, exit}
use droidmole.Grpc
use droidmole.Grpc.{Stream}

pub record Request : Type 0 where
  pub shell_type : ShellType
  pub command : Option Bytes
  pub term_type : Option Bytes

pub record Output : Type 0 where
  -- whether it is ChannelErr
  pub on_err : Bool
  pub content : Bytes

-- The message of a response may be nil.
pub record Shell : Type 0 where
  pub client : Stream (Option ShellResponse) ShellRequest
  pub exited : Bool
  pub exit_code : ℕ

-- On the stream that the call of OpenShell gave. The request is sent before there is a shell.
unfoldable pub start_shell :
    Result (Stream (Option ShellResponse) ShellRequest) → Request → Result Shell
start_shell (ok s) r =
    let (sent, s') = Grpc.send (start r.term_type r.shell_type r.command) s in
    (continue sent (λ _. lift (ok (record { client = s'; exited = false; exit_code = 0 }))) s).0
start_shell (err e) r = err e
start_shell panic r = panic

sending : ShellRequest → Exec Shell (Unit {0})
sending m s = ((Grpc.send m s.client).0, record s { client = (Grpc.send m s.client).1 })

unfoldable pub send_input : Bytes → Exec Shell (Unit {0})
unfolding sending
send_input blob = sending (stdin blob false)

unfoldable pub close_input : Exec Shell (Unit {0})
unfolding sending
close_input = sending (stdin [] true)

unfoldable pub resize : ℕ → ℕ → ℕ → ℕ → Exec Shell (Unit {0})
unfolding sending
resize rows cols width height = sending (resizes rows cols width height)

-- `none` is (nil, nil): the shell has exited.
take_message : Result (Option ShellResponse) → Exec Shell (Option Output)
take_message (ok (some (output on_err content))) s =
    (ok (some (record { on_err = on_err; content = content })), s)
take_message (ok (some (exit code))) s =
    (ok none, record s { exit_code = code % 2 ^ 8; exited = true })
take_message (ok none) s = (err (text (bytes "unknown response")), s)
take_message (err e) s = (err e, s)
take_message panic s = (panic, s)

unfoldable pub recv : Exec Shell (Option Output)
unfolding take_message
recv s =
    if s.exited
    then (ok none, s)
    else take_message (Grpc.receive s.client).0 (record s { client = (Grpc.receive s.client).1 })

unfoldable pub exit_code_of : Shell → Bool × ℕ
exit_code_of s = (s.exited, s.exit_code)

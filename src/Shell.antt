-- ===== src/Shell.antt =====
-- agent/server/shell/shell.go: a shell of the device, between an adb connection and a client. Two
-- goroutines read, each blocked until its message is taken; the loop takes from either. A step of a
-- goroutine, or the handling of one message, is one step.
pub mod Requests
pub mod Pending
pub mod Output
pub mod Refusal
mod Tests
use droidmole.Base.{
  format_d, ℕ, zero, suc, ◌+◌, ◌/◌, ◌%◌, ◌==◌, ltb, Bool, true, false, not, ◌&&◌, ◌||◌,
  if◌then◌else◌, Option, none, some, List, [], ◌∷◌, ◌++◌, length, Bytes, bytes,
}
use droidmole.Go.{
  Error, status, invalid_argument, internal, Result, ok, err, panic, Exec, pure, fail, crash,
  continue, ◌>>=◌, ◌>>◌,
}
use droidmole.Net.{Conn}
use droidmole.Adb.Dial.{Dial, session}
use droidmole.Adb.Raw
use droidmole.Adb.Client.{open_emulator}
use droidmole.Grpc
use droidmole.Grpc.{Stream}

-- The requests of the protocol; `no_message` is a nil oneof.
pub data ShellType : Type 0 where
  raw pty other_type : ShellType

pub data ShellRequest : Type 0 where
  no_message : ShellRequest
  start : Option Bytes → ShellType → Option Bytes → ShellRequest
  -- the data, and whether to close the input
  stdin : Bytes → Bool → ShellRequest
  -- rows, columns, width and height
  resizes : ℕ → ℕ → ℕ → ℕ → ShellRequest

pub data ShellResponse : Type 0 where
  -- whether it is the error channel
  output : Bool → Bytes → ShellResponse
  exit : ℕ → ShellResponse

-- What comes before the colon, from the type on.
type_name : ShellType → Option Bytes
type_name raw = some (bytes ",raw")
type_name pty = some (bytes ",pty")
type_name other_type = none

or_empty : Option Bytes → Bytes
or_empty none = []
or_empty (some s) = s

term_type : Option Bytes → Bytes
term_type none = []
term_type (some t) = bytes ",TERM=" ++ t

typed : Option Bytes → Option Bytes → Option Bytes → Option Bytes
unfolding term_type or_empty
typed term none command = none
typed term (some t) command =
    some (bytes "shell,v2" ++ (term_type term ++ (t ++ (bytes ":" ++ or_empty command))))

-- The adb command, if the type is known.
unfoldable pub shell_command : Option Bytes → ShellType → Option Bytes → Option Bytes
unfolding typed type_name
shell_command term type command = typed term (type_name type) command

unfoldable pub window_size : ℕ → ℕ → ℕ → ℕ → Bytes
window_size rows cols width height =
    format_d rows
    ++ (bytes "x"
        ++ (format_d cols ++ (bytes "," ++ (format_d width ++ (bytes "x" ++ format_d height)))))

-- A connection and a client's stream, what each goroutine holds for the loop, whether it has ended,
-- and what the loop returned, if it did.
pub record Shell : Type 0 where
  pub conn : Conn
  pub peer : Stream ShellRequest ShellResponse
  pub request : Option (Result ShellRequest)
  pub requests_end : Bool
  pub response : Option (Result (ℕ × Bytes))
  pub responses_end : Bool
  pub exited : Bool
  pub verdict : Option (Result (Unit {0}))

unfoldable pub opened : Conn → Stream ShellRequest ShellResponse → Shell
opened c p = record {
  conn = c;
  peer = p;
  request = none;
  requests_end = false;
  response = none;
  responses_end = false;
  exited = false;
  verdict = none;
}

abbrev is_ok : {A : Type 0} → Result A → Bool
is_ok (ok a) = true
is_ok _ = false

unfoldable pub write_blob : ℕ → Bytes → Exec Shell (Unit {0})
write_blob id blob s = (
  (Raw.write_shell_blob id blob s.conn).0,
  record s { conn = (Raw.write_shell_blob id blob s.conn).1 },
)

respond : ShellResponse → Exec Shell (Unit {0})
respond m s = ((Grpc.send m s.peer).0, record s { peer = (Grpc.send m s.peer).1 })

unfoldable pub handle_request : ShellRequest → Exec Shell (Unit {0})
unfolding write_blob
handle_request (stdin content close) = do
  if ltb 0 (length content) then write_blob 0 content else pure tt
  if close then write_blob 4 [] else pure tt
handle_request (resizes rows cols width height) = write_blob 5 (window_size rows cols width height)
handle_request _ = fail (status invalid_argument (bytes "unknown request"))

-- Whether the loop goes on after a response.
first_of : Bytes → Result ℕ
first_of [] = panic
first_of (x ∷ xs) = ok x

exits_with : Result ℕ → Exec Shell (Unit {0})
unfolding respond
exits_with (ok code) s = respond (exit code) s
exits_with (err e) s = (err e, s)
exits_with panic s = (panic, s)

-- The loop ends, with the error or without.
ends_with : Result (Unit {0}) × Shell → Shell
ends_with (r, s) = record s { verdict = some r }

goes_on : Result (Unit {0}) × Shell → Shell
goes_on (ok t, s) = s
goes_on (err e, s) = record s { verdict = some (err e) }
goes_on (panic, s) = record s { verdict = some panic }

unfoldable pub handle_response : ℕ → Bytes → Shell → Shell
unfolding goes_on ends_with exits_with first_of respond
handle_response id content s =
    if id == 1 || id == 2
    then goes_on (respond (output (id == 2) content) s)
    else if id == 3
    then ends_with (exits_with (first_of content) (record s { exited = true }))
    else ends_with (err (status internal (bytes "unknown response")), s)

-- A step of the first goroutine, of the second, and of the loop with what the one or the other holds.
pub data Turn : Type 0 where
  reads_request reads_response takes_request takes_response : Turn

-- A goroutine reads when the loop has taken its last message and its stream has not failed. Behind the
-- loop its next message meets a closed channel, which ends it.
abbrev may_read : {A : Type 0} → Option (Result A) → Bool → Option (Result (Unit {0})) → Bool
may_read none false none = true
may_read _ _ _ = false

read_request : Shell → Shell
read_request s =
    let (r, p) = Grpc.receive s.peer in
    record s { peer = p; request = some r; requests_end = not (is_ok r) }

read_response : Shell → Shell
read_response s =
    let (r, c) = Raw.read_shell_blob s.conn in
    record s { conn = c; response = some r; responses_end = not (is_ok r) }

take_request : Option (Result ShellRequest) → Shell → Shell
unfolding goes_on ends_with
take_request none s = s
take_request (some (ok m)) s = goes_on (handle_request m (record s { request = none }))
take_request (some (err e)) s = ends_with (err e, s)
take_request (some panic) s = ends_with (panic, s)

take_response : Option (Result (ℕ × Bytes)) → Shell → Shell
unfolding ends_with
take_response none s = s
take_response (some (ok (id, content))) s =
    handle_response id content (record s { response = none })
take_response (some (err e)) s = ends_with (err e, s)
take_response (some panic) s = ends_with (panic, s)

abbrev runs : Option (Result (Unit {0})) → Bool
runs none = true
runs (some r) = false

unfoldable pub step : Turn → Shell → Shell
unfolding read_request read_response take_request take_response
step reads_request s = if may_read s.request s.requests_end s.verdict then read_request s else s
step reads_response s = if may_read s.response s.responses_end s.verdict then read_response s else s
step takes_request s = if runs s.verdict then take_request s.request s else s
step takes_response s = if runs s.verdict then take_response s.response s else s

unfoldable pub run : List Turn → Shell → Shell
run [] s = s
run (t ∷ ts) s = run ts (step t s)

-- What Process has returned, if it has; it closes the connection then, but not on a panic.
abbrev Outcome : Type 0
Outcome = Option (Result (Unit {0})) × Option Conn × Stream ShellRequest ShellResponse

closed_after : Option (Result (Unit {0})) → Conn → Conn
closed_after none c = c
closed_after (some panic) c = c
closed_after (some r) c = Raw.shut c

settled : Shell → Outcome
unfolding closed_after
settled s = (s.verdict, some (closed_after s.verdict s.conn), s.peer)

-- Behind the two commands on the dialled connection; an error of the second leaves the connection.
serve : List Turn → Result (Unit {0}) × Option Conn → Stream ShellRequest ShellResponse → Outcome
unfolding settled
serve turns (ok t, some c) p = settled (run turns (opened c p))
serve turns (ok t, none) p = (some panic, none, p)
serve turns (err e, left) p = (some (err e), left, p)
serve turns (panic, left) p = (some panic, left, p)

connect : Bytes → Exec Conn (Unit {0})
connect cmd = do open_emulator; Raw.send_command cmd

with_command : List Turn → Dial → Option Bytes → Stream ShellRequest ShellResponse → Outcome
unfolding serve connect session
with_command turns dial none p =
    (some (err (status invalid_argument (bytes "unknown shell type"))), none, p)
with_command turns dial (some cmd) p = serve turns (session dial (connect cmd)) p

begin_with : List Turn → Dial → Result ShellRequest → Stream ShellRequest ShellResponse → Outcome
unfolding with_command
begin_with turns dial (ok (start term type command)) p =
    with_command turns dial (shell_command term type command) p
begin_with turns dial (ok _) p =
    (some (err (status invalid_argument (bytes "stream must begin with a start request"))), none, p)
begin_with turns dial (err e) p = (some (err e), none, p)
begin_with turns dial panic p = (some panic, none, p)

-- `Process`, when its goroutines and its loop have taken these turns.
unfoldable pub process : List Turn → Dial → Stream ShellRequest ShellResponse → Outcome
unfolding begin_with
process turns dial p = begin_with turns dial (Grpc.receive p).0 (Grpc.receive p).1

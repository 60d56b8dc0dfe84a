-- ===== src/Server/Requests.antt =====
-- The requests of agent/server/controller.go that are passed on to the device, each behind its guard,
-- and the streams of the states and of the log.
use droidmole.Base.{
  ◌≡◌, refl, sym, ap, ◌∙◌, Bool, true, false, Option, none, some, List, [], ◌∷◌, ◌++◌, append-nil,
  append_assoc, Bytes, bytes,
}
use droidmole.Go.{
  Error, status, failed_precondition, Result, ok, err, panic, Exec, pure, crash, ◌>>◌, bind-ok,
}
use droidmole.Net.{Conn}
use droidmole.Adb.Dial.{Dial}
use droidmole.Protocol
use droidmole.Protocol.{Stat, PullFileResponse, PushFileRequest}
use droidmole.Grpc
use droidmole.Grpc.{Stream, Delivers, send-Delivers}
use droidmole.Broadcaster.{Outcome, waits, received, ended, crashed}
use droidmole.Files
use droidmole.Shell
use droidmole.Shell.{Turn, ShellRequest, ShellResponse}
use droidmole.Server.{AgentState, Server, require_running, is_running}

-- What a request returns, or what it makes of the error of the guard.
guarded : {A : Type 0} → Result (Unit {0}) → (Error → A) → A → A → A
guarded (ok t) refused broken served = served
guarded (err e) refused broken served = refused e
guarded panic refused broken served = broken

unfoldable pub open_shell :
    Server
    → List Turn
    → Dial
    → Stream ShellRequest ShellResponse
    → Option (Result (Unit {0})) × Option Conn × Stream ShellRequest ShellResponse
unfolding guarded
open_shell s turns dial p =
    guarded (require_running s).0 (λ e. (some (err e), none, p)) (some panic, none, p)
      (Shell.process turns dial p)

unfoldable pub list_directory :
    Server → Bytes → Dial → Result (Option (List Protocol.ListDirectoryEntry)) × Option Conn
unfolding guarded
list_directory s path dial =
    guarded (require_running s).0 (λ e. (err e, none)) (panic, none)
      (Files.list_directory path dial)

unfoldable pub stat_file : Server → Bytes → Bool → Dial → Result Stat × Option Conn
unfolding guarded
stat_file s path follow_links dial =
    guarded (require_running s).0 (λ e. (err e, none)) (panic, none)
      (Files.stat_file path follow_links dial)

unfoldable pub pull_file :
    {Req : Type 0}
    → Server
    → Bytes
    → Dial
    → Stream Req PullFileResponse
    → Result (Option (Unit {0})) × Option Conn × Stream Req PullFileResponse
unfolding guarded
pull_file s path dial p =
    guarded (require_running s).0 (λ e. (err e, none, p)) (panic, none, p)
      (Files.pull_file path dial p)

unfoldable pub push_file :
    {Resp : Type 0}
    → Server
    → Dial
    → Stream PushFileRequest Resp
    → Result (Option (Unit {0})) × Option Conn × Stream PushFileRequest Resp
unfolding guarded
push_file s dial p =
    guarded (require_running s).0 (λ e. (err e, none, p)) (panic, none, p) (Files.push_file dial p)

abbrev pub not_running : Error
not_running = status failed_precondition (bytes "emulator not running")

-- However the device and the client would behave: unless the emulator is running, each of the five
-- requests returns the same error, dials no connection, and takes nothing from the client's stream and
-- sends nothing to it; while it is running, each is what the shell and sync services make of it.
pub served_when_running :
    {Req Resp : Type 0} (s : Server) (path : Bytes) (follow : Bool) (turns : List Turn)
    (dial : Dial) (shell : Stream ShellRequest ShellResponse) (pulls : Stream Req PullFileResponse)
    (pushes : Stream PushFileRequest Resp)
    → (is_running s.state ≡ false
        → (open_shell s turns dial shell ≡ (some (err not_running), none, shell))
          × (list_directory s path dial ≡ (err not_running, none))
          × (stat_file s path follow dial ≡ (err not_running, none))
          × (pull_file s path dial pulls ≡ (err not_running, none, pulls))
          × (push_file s dial pushes ≡ (err not_running, none, pushes)))
      × (is_running s.state ≡ true
          → (open_shell s turns dial shell ≡ Shell.process turns dial shell)
            × (list_directory s path dial ≡ Files.list_directory path dial)
            × (stat_file s path follow dial ≡ Files.stat_file path follow dial)
            × (pull_file s path dial pulls ≡ Files.pull_file path dial pulls)
            × (push_file s dial pushes ≡ Files.push_file dial pushes))
unfolding open_shell list_directory stat_file pull_file push_file require_running
served_when_running s path follow turns dial shell pulls pushes =
    (λ e. rw e (refl, refl, refl, refl, refl), λ e. rw e (refl, refl, refl, refl, refl))

-- The loop of StreamState, for what its calls of Wait come to; `none` is that it waits.
sends_state : Option AgentState → Exec (Stream (Unit {0}) (Option AgentState)) (Unit {0})
sends_state a = Grpc.send a

unfoldable pub stream_state :
    List (Outcome AgentState) → Exec (Stream (Unit {0}) (Option AgentState)) (Option (Unit {0}))
unfolding sends_state
stream_state [] = pure none
stream_state (waits ∷ os) = stream_state os
stream_state (received a ∷ os) = do sends_state a; stream_state os
stream_state (ended ∷ os) = pure (some tt)
stream_state (crashed ∷ os) = crash

-- The loop of StreamSysLog, for the lines that its listener receives.
unfoldable pub stream_sys_log : List Bytes → Exec (Stream (Unit {0}) Bytes) (Option (Unit {0}))
stream_sys_log [] = pure none
stream_sys_log (line ∷ lines) = do Grpc.send line; stream_sys_log lines

-- The states that came before the end of the listener.
abbrev pub states_of : List (Outcome AgentState) → List (Option AgentState)
states_of [] = []
states_of (waits ∷ os) = states_of os
states_of (received a ∷ os) = a ∷ states_of os
states_of (_ ∷ os) = []

-- A client to which everything is delivered gets the states that the listener got, in order.
pub stream_state-Delivers :
    (os : List (Outcome AgentState)) (p : Stream (Unit {0}) (Option AgentState))
    → Delivers p
    → (stream_state os p).1.outgoing ≡ p.outgoing ++ states_of os
unfolding stream_state
stream_state-Delivers [] p h = sym (append-nil p.outgoing)
stream_state-Delivers (waits ∷ os) p h = stream_state-Delivers os p h
stream_state-Delivers (received a ∷ os) p h =
    let q = record p { outgoing = p.outgoing ++ a ∷ [] } in
    ap (λ r. r.1.outgoing)
      (bind-ok (Grpc.send a) (λ _. stream_state os) p q tt (send-Delivers a p h))
    ∙ stream_state-Delivers os q h
    ∙ append_assoc p.outgoing (a ∷ []) (states_of os)
stream_state-Delivers (ended ∷ os) p h = sym (append-nil p.outgoing)
stream_state-Delivers (crashed ∷ os) p h = sym (append-nil p.outgoing)

-- So it is for the lines of the log.
pub stream_sys_log-Delivers :
    (lines : List Bytes) (p : Stream (Unit {0}) Bytes)
    → Delivers p
    → (stream_sys_log lines p).1.outgoing ≡ p.outgoing ++ lines
unfolding stream_sys_log
stream_sys_log-Delivers [] p h = sym (append-nil p.outgoing)
stream_sys_log-Delivers (line ∷ lines) p h =
    let q = record p { outgoing = p.outgoing ++ line ∷ [] } in
    ap (λ r. r.1.outgoing)
      (bind-ok (Grpc.send line) (λ _. stream_sys_log lines) p q tt (send-Delivers line p h))
    ∙ stream_sys_log-Delivers lines q h
    ∙ append_assoc p.outgoing (line ∷ []) lines

-- ===== src/Demo/Messages.antt =====
-- The messages of a browser to demo/backend/client: which ones end the program, and which calls of the
-- agent they make.
use droidmole.Base.{
  ◌≡◌, ◌≢◌, Bool, true, false, ◌&&◌, if◌then◌else◌, Option, none, some, List, [], ◌∷◌, Bytes, bytes,
  bytes_eq, arith,
}
use droidmole.Go.{Result, ok, err, panic, continue}
use droidmole.Grpc
use droidmole.Grpc.{Stream}
use droidmole.Client.Agent
use droidmole.Client.Agent.{Call, input, start, stop}
use droidmole.Client.Shell
use droidmole.Demo.{
  TouchEvent, Opening, Incoming, Client, shell_request, keep_shell, shell_data, touch, power,
  handle, process_all,
}

abbrev pub given : {A : Type 0} → Option A → Bool
given none = false
given (some a) = true

abbrev pub returns : Opening → Bool
returns panic = false
returns _ = true

-- A message that has the field of its kind; data for the shell wants one. An OpenShell that panics is
-- not this code's.
abbrev pub is_complete : Bool → Incoming → Bool
is_complete opened i =
    if bytes_eq i.msg.kind (bytes "open-shell")
    then returns i.opening
    else if bytes_eq i.msg.kind (bytes "shell-data")
    then opened && given i.msg.line
    else if bytes_eq i.msg.kind (bytes "touch-event")
    then given i.msg.touch_event
    else if bytes_eq i.msg.kind (bytes "power-event")
    then given i.msg.power_event
    else true

abbrev pub opens : Incoming → Bool
opens i = bytes_eq i.msg.kind (bytes "open-shell")

-- Every message up to the first error is complete, and data comes behind a request for a shell.
abbrev pub orderly : Bool → List (Result Incoming) → Bool
orderly opened [] = true
orderly opened (ok i ∷ es) = is_complete opened i && orderly (if opens i then true else opened) es
orderly opened (err e ∷ es) = true
orderly opened (panic ∷ es) = false

-- A step does not panic, and has a shell where it should.
abbrev Fine : Bool → Result (Unit {0}) × Client → Type 0
Fine opened (ok t, c) = given c.shell ≡ opened
Fine opened (err e, c) = Unit {0}
Fine opened (panic, c) = ⊥

keep_shell-Fine :
    (o : Opening) (c : Client)
    → returns o ≡ true
    → Fine true (keep_shell (Shell.start_shell o shell_request) c)
unfolding keep_shell Shell.start_shell Grpc.send
keep_shell-Fine (ok s) c h = ground arith
keep_shell-Fine (err e) c h = tt
keep_shell-Fine panic c h = absurd (cc h)

shell_data-Fine :
    (line : Option Bytes) (c : Client)
    → given c.shell && given line ≡ true
    → Fine (given c.shell) (shell_data line c)
unfolding shell_data Shell.send_input Grpc.send
shell_data-Fine none c h = absurd (ground arith)
shell_data-Fine (some line) c h = ground arith

touch-Fine :
    (e : Option TouchEvent) (c : Client) → given e ≡ true → Fine (given c.shell) (touch e c)
unfolding touch Agent.send_input
touch-Fine none c h = absurd (cc h)
touch-Fine (some e) c h = ground arith

power-Fine : (e : Option Bytes) (c : Client) → given e ≡ true → Fine (given c.shell) (power e c)
unfolding power Agent.start_emulator Agent.stop_emulator
power-Fine none c h = absurd (cc h)
power-Fine (some e) c h = ground arith

handle-Fine :
    (i : Incoming) (c : Client)
    → is_complete (given c.shell) i ≡ true
    → Fine (if opens i then true else given c.shell) (handle i c)
unfolding handle
handle-Fine i c h = ground (
  arith,
  keep_shell-Fine i.opening c,
  shell_data-Fine i.msg.line c,
  touch-Fine i.msg.touch_event c,
  power-Fine i.msg.power_event c,
)

-- However the agent, the shell and the socket fail: a browser whose messages each have the field of
-- their kind, and that sends data for a shell only when it has one or behind a request for one, never
-- makes the reading of its messages panic, which would end the program for all.
pub never_panics :
    (es : List (Result Incoming)) (c : Client)
    → orderly (given c.shell) es ≡ true
    → (process_all es c).0 ≢ panic
unfolding process_all
never_panics [] c h = λ p. cc
never_panics (ok i ∷ es) c h =
    let d = record c { ws = record (c.ws) { incoming = es } } in
    go (handle i d) (handle-Fine i d (ground arith)) (never_panics es)
  where
    go :
        (r : Result (Unit {0}) × Client)
        → Fine (if opens i then true else given c.shell) r
        → ((d : Client) → orderly (given d.shell) es ≡ true → (process_all es d).0 ≢ panic)
        → (continue r.0 (λ _. process_all es) r.1).0 ≢ panic
    go (ok t, d) f k = k d (ground arith)
    go (err e, d) f k = λ p. cc
    go (panic, d) f k = absurd f
never_panics (err e ∷ es) c h = λ p. cc
never_panics (panic ∷ es) c h = absurd (cc h)

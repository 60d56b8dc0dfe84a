-- ===== src/Demo/Calls.antt =====
-- Which calls of the agent the messages of a browser make, in demo/backend/client.
use droidmole.Base.{
  ◌≡◌, refl, sym, ap, ◌∙◌, true, false, if◌then◌else◌, Option, none, some, List, [], ◌∷◌, ◌++◌,
  append-nil, append_assoc, Bytes, bytes, bytes_eq, eq_of_bytes_eq, arith,
}
use droidmole.Go.{Result, ok, err, panic, continue}
use droidmole.Client.Agent
use droidmole.Client.Agent.{Call, input, start, stop}
use droidmole.Client.Shell
use droidmole.Demo.{
  TouchEvent, ClientInMsg, Incoming, Client, shell_request, keep_shell, shell_data, touch, power,
  handle, process_all,
}

-- The calls of the agent that a message asks for.
abbrev pub power_calls : Bytes → List Call
power_calls e =
    if bytes_eq e (bytes "start")
    then start (record {
      ram_size = 3500;
      core_count = 4;
      lcd_density = 320;
      lcd_width = 720;
      lcd_height = 1280;
      root_adb = true;
    })
      ∷ []
    else if bytes_eq e (bytes "stop")
    then stop false ∷ []
    else if bytes_eq e (bytes "force-stop")
    then stop true ∷ []
    else []

abbrev touch_calls : TouchEvent → List Call
touch_calls e =
    input (record {
      identifier = e.id;
      x = e.x;
      y = e.y;
      pressure = e.pressure;
      touch_major = 0;
      touch_minor = 0;
    })
    ∷ []

abbrev calls_with : {A : Type 0} → (A → List Call) → Option A → List Call
calls_with f none = []
calls_with f (some a) = f a

abbrev pub calls_for : ClientInMsg → List Call
calls_for m =
    if bytes_eq m.kind (bytes "touch-event")
    then calls_with touch_calls m.touch_event
    else if bytes_eq m.kind (bytes "power-event")
    then calls_with power_calls m.power_event
    else []

abbrev pub calls_of : List (Result Incoming) → List Call
calls_of [] = []
calls_of (ok i ∷ es) = calls_for i.msg ++ calls_of es
calls_of (_ ∷ es) = []

-- A text that is one literal is another only if the literals are the same.
bytes_eq_other : (k a b : Bytes) → bytes_eq k a ≡ true → bytes_eq k b ≡ bytes_eq a b
bytes_eq_other k a b h = ap (λ z. bytes_eq z b) (eq_of_bytes_eq k a h)

power-calls :
    (e : Option Bytes) (c : Client)
    → (power e c).1.ac.calls ≡ c.ac.calls ++ calls_with power_calls e
unfolding power Agent.start_emulator Agent.stop_emulator
power-calls none c = sym (append-nil c.ac.calls)
power-calls (some e) c = ground (arith, append-nil c.ac.calls)

touch-calls :
    (e : Option TouchEvent) (c : Client)
    → (touch e c).1.ac.calls ≡ c.ac.calls ++ calls_with touch_calls e
unfolding touch Agent.send_input
touch-calls none c = sym (append-nil c.ac.calls)
touch-calls (some e) c = ground arith

keep_shell-calls : (r : Result Shell.Shell) (c : Client) → (keep_shell r c).1.ac ≡ c.ac
unfolding keep_shell
keep_shell-calls r c = ground arith

shell_data-calls : (line : Option Bytes) (c : Client) → (shell_data line c).1.ac ≡ c.ac
unfolding shell_data
shell_data-calls line c = ground arith

pub handle-calls :
    (i : Incoming) (c : Client) → (handle i c).1.ac.calls ≡ c.ac.calls ++ calls_for i.msg
unfolding handle
handle-calls i c = ground (
  arith,
  append-nil c.ac.calls,
  power-calls i.msg.power_event c,
  touch-calls i.msg.touch_event c,
  shell_data-calls i.msg.line c,
  keep_shell-calls (Shell.start_shell i.opening shell_request) c,
  bytes_eq_other i.msg.kind (bytes "open-shell") (bytes "touch-event"),
  bytes_eq_other i.msg.kind (bytes "open-shell") (bytes "power-event"),
  bytes_eq_other i.msg.kind (bytes "shell-data") (bytes "touch-event"),
  bytes_eq_other i.msg.kind (bytes "shell-data") (bytes "power-event"),
)

-- Whatever messages a browser sends, and however the agent, the shell and the socket fail: the calls
-- of the agent are the first of those that the messages before the first unreadable one ask for, in
-- order, none left out and none twice.
pub calls_in_order :
    (es : List (Result Incoming)) (c : Client)
    → (made : List Call) × (rest : List Call) × (calls_of es ≡ made ++ rest)
      × ((process_all es c).1.ac.calls ≡ c.ac.calls ++ made)
unfolding process_all
calls_in_order [] c = ([], [], refl, sym (append-nil c.ac.calls))
calls_in_order (ok i ∷ es) c =
    let d = record c { ws = record (c.ws) { incoming = es } } in
    go (handle i d) (handle-calls i d) (calls_in_order es)
  where
    go :
        (r : Result (Unit {0}) × Client)
        → r.1.ac.calls ≡ c.ac.calls ++ calls_for i.msg
        → ((d : Client)
            → (made : List Call) × (rest : List Call) × (calls_of es ≡ made ++ rest)
              × ((process_all es d).1.ac.calls ≡ d.ac.calls ++ made))
        → (made : List Call) × (rest : List Call) × (calls_for i.msg ++ calls_of es ≡ made ++ rest)
          × ((continue r.0 (λ _. process_all es) r.1).1.ac.calls ≡ c.ac.calls ++ made)
    go (ok t, d) e k =
        let (made, rest, split, h) = k d in
        (
          calls_for i.msg ++ made,
          rest,
          ap (λ l. calls_for i.msg ++ l) split ∙ sym (append_assoc (calls_for i.msg) made rest),
          h ∙ ap (λ l. l ++ made) e ∙ append_assoc c.ac.calls (calls_for i.msg) made,
        )
    go (err x, d) e k = (calls_for i.msg, calls_of es, refl, e)
    go (panic, d) e k = (calls_for i.msg, calls_of es, refl, e)
calls_in_order (err e ∷ es) c = ([], [], refl, sym (append-nil c.ac.calls))
calls_in_order (panic ∷ es) c = ([], [], refl, sym (append-nil c.ac.calls))

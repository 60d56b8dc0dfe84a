-- ===== src/Demo/Tests.antt =====
-- The theorems about demo/backend at concrete inputs.
use droidmole.Base.{
  ◌≡◌, ◌≢◌, arith, refl, true, false, Option, none, some, List, [], ◌∷◌, ◌++◌, map, Bytes, bytes,
}
use droidmole.Go.{eof, system, Result, ok, err, panic}
use droidmole.Grpc.{Stream}
use droidmole.Shell.{ShellRequest, ShellResponse, output}
use droidmole.Client.Agent.{AgentClient, Frame, Call}
use droidmole.Demo
use droidmole.Demo.{
  ClientInMsg, Opening, Incoming, Message, text, line_of, Client, process_all, process_frame, write,
  process_shell,
}
use droidmole.Demo.Calls.{calls_of, calls_in_order}
use droidmole.Demo.Frames.{
  News, frame, line, view, pictures, texts, frames_of, lines_of, from_key, encoded_all,
  view-from_key,
}
use droidmole.Client.Agent
use droidmole.Client.Agent.{input}
use droidmole.Demo.{TouchEvent}
use droidmole.Demo.Touches.{touch_of, touch_arrives}
use droidmole.Emulator.Controller.{Host, touches, process_input}
use droidmole.Demo.Messages.{never_panics}
use droidmole.Demo.Shells.{process_shell-ends}
use droidmole.Demo.Server.{
  Server, Event, joins, shows, logs, run, happenings, news_of, sessions, run_refines,
}

abbrev silent : {In Out : Type 0} → Stream In Out
silent = record { incoming = []; ending = eof; outgoing = []; sends = [] }

abbrev agent : AgentClient
agent = record { calls = []; answers = none ∷ some (system 1) ∷ [] }

abbrev browser : Client
browser = record { ws = silent; video_started = false; ac = agent; shell = none; readers = 0 }

abbrev inter_frame : Frame
inter_frame = record { keyframe = false; width = 2; height = 2; content = 7 ∷ [] }

abbrev key_frame : Frame
key_frame = record { keyframe = true; width = 2; height = 2; content = 8 ∷ 9 ∷ [] }

abbrev news : List News
news =
    frame inter_frame
    ∷ line (bytes "boot")
    ∷ frame key_frame
    ∷ frame inter_frame
    ∷ line (bytes "up")
    ∷ []

encodes_from_key :
    encoded_all (from_key (frames_of news))
    ≡ (1 ∷ []) ∷ (2 ∷ 1 ∷ 8 ∷ 9 ∷ []) ∷ (2 ∷ 0 ∷ 7 ∷ []) ∷ []
encodes_from_key = refl

view-from_key_example :
    (pictures (view browser news).ws.outgoing
      ≡ pictures browser.ws.outgoing ++ encoded_all (from_key (frames_of news)))
    × (texts (view browser news).ws.outgoing
        ≡ texts browser.ws.outgoing ++ map (line_of (bytes "kernlog")) (lines_of news))
view-from_key_example = view-from_key news browser refl refl

-- The second browser misses the key frame, and the failure of the stream is the end.
abbrev events : List Event
events =
    joins (ok silent)
    ∷ shows (ok key_frame)
    ∷ joins (err eof)
    ∷ joins (ok silent)
    ∷ shows (ok inter_frame)
    ∷ logs (err eof)
    ∷ logs (ok (bytes "late"))
    ∷ []

abbrev empty : Server
empty = record { clients = []; ac = agent }

run_refines_example :
    (run events empty).1.clients
    ≡ map (λ c. view c (news_of (happenings events))) [] ++ sessions agent (happenings events)
run_refines_example = run_refines events empty

abbrev says : Bytes → ClientInMsg
says kind = record {
  kind = kind;
  line = some (bytes "ls");
  touch_event = some (record { id = 1; x = 2; y = 3; pressure = 4 });
  power_event = some (bytes "start");
}

abbrev incoming : List (Result Incoming)
incoming =
    ok (record { msg = says (bytes "open-shell"); opening = ok silent })
    ∷ ok (record { msg = says (bytes "shell-data"); opening = ok silent })
    ∷ ok (record { msg = says (bytes "power-event"); opening = ok silent })
    ∷ ok (record { msg = says (bytes "touch-event"); opening = ok silent })
    ∷ ok (record { msg = says (bytes "touch-event"); opening = ok silent })
    ∷ []

never_panics_example : (process_all incoming browser).0 ≢ panic
never_panics_example = never_panics incoming browser refl

calls_in_order_example :
    (made : List Call) × (rest : List Call) × (calls_of incoming ≡ made ++ rest)
    × ((process_all incoming browser).1.ac.calls ≡ browser.ac.calls ++ made)
calls_in_order_example = calls_in_order incoming browser

-- Data without a shell ends the program.
early_data :
    (process_all
      (ok (record { msg = says (bytes "shell-data"); opening = ok silent }) ∷ [])
      browser).0
    ≡ panic
unfolding process_all Demo.handle
early_data = refl

-- A browser with a shell that answers once.
abbrev listening : Client
listening = record (browser) {
  shell = some (record {
    client = record (silent {In = Option ShellResponse} {Out = ShellRequest}) {
      incoming = some (output false (bytes "hi")) ∷ [];
    };
    exited = false;
    exit_code = 0;
  });
}

process_shell-ends_example : (process_shell 2 listening).0 ≢ ok none
process_shell-ends_example = process_shell-ends 2 listening (omega arith)

abbrev pressed : Incoming
pressed = record { msg = says (bytes "touch-event"); opening = ok silent }

abbrev finger : TouchEvent
finger = record { id = 1; x = 2; y = 3; pressure = 4 }

abbrev host : Host
host = record { asked = []; answers = []; connections = 1; files = 0; maps = 0 }

touch_arrives_example :
    (t : Agent.Touch) × ((Demo.handle pressed browser).1.ac.calls
      ≡ browser.ac.calls ++ input t ∷ [])
    × ((process_input true (some t) host).1.asked
        ≡ host.asked ++ touches (touch_of finger ∷ []) 0 ∷ [])
touch_arrives_example =
    touch_arrives pressed finger browser host refl refl (omega arith) (omega arith) (omega arith)
      (omega arith)

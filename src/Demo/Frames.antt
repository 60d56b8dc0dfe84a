-- ===== src/Demo/Frames.antt =====
-- What one browser of demo/backend/client gets of the frames and the log.
use droidmole.Base.{
  ◌≡◌, refl, sym, ap, ◌∙◌, Bool, true, false, if◌then◌else◌, List, [], ◌∷◌, ◌++◌, map, append-nil,
  append_assoc, Bytes, bytes, arith,
}
use droidmole.Go.{ok}
use droidmole.Grpc
use droidmole.Grpc.{Stream, Delivers, send-Delivers}
use droidmole.Client.Agent.{Frame}
use droidmole.Demo.{
  ClientOutMsg, Message, binary, text, line_of, Client, write, send_msg, flag, process_frame,
  process_sys_log,
}

-- What reaches a browser, in the order in which the server's loops take its lock.
pub data News : Type 0 where
  frame : Frame → News
  line : Bytes → News

-- The errors are logged, and the next one is tried.
unfoldable pub tell : News → Client → Client
tell (frame f) c = (process_frame f c).1
tell (line l) c = (process_sys_log l c).1

unfoldable pub view : Client → List News → Client
view c [] = c
view c (n ∷ ns) = view (tell n c) ns

abbrev picture : Frame → List Message
picture f = binary (2 ∷ flag f.keyframe ∷ f.content) ∷ []

abbrev log_line : Bytes → Message
log_line l = text (line_of (bytes "kernlog") l)

-- The messages for the news, by whether the video has started.
abbrev messages : Bool → List News → List Message
messages on [] = []
messages on (line l ∷ ns) = log_line l ∷ messages on ns
messages on (frame f ∷ ns) =
    if f.keyframe
    then binary (1 ∷ []) ∷ (picture f ++ messages true ns)
    else (if on then picture f ++ messages true ns else messages false ns)

-- The browser after these messages.
abbrev got : Bool → List Message → Client → Client
got on ms c = record c { ws = record (c.ws) { outgoing = c.ws.outgoing ++ ms }; video_started = on }

abbrev on_after : Bool → Frame → Bool
on_after on f = if f.keyframe then true else on

write-got :
    (m : Message) (c : Client) → Delivers c.ws → write m c ≡ (ok tt, got c.video_started (m ∷ []) c)
unfolding write
write-got m c h = rw (send-Delivers m c.ws h) refl

tell-frame :
    (f : Frame) (c : Client)
    → Delivers c.ws
    → tell (frame f) c
      ≡ got (on_after c.video_started f) (messages c.video_started (frame f ∷ [])) c
unfolding tell process_frame Grpc.send
tell-frame f c h =
    ground (
      arith,
      append_assoc c.ws.outgoing (binary (1 ∷ []) ∷ []) (picture f),
      append-nil c.ws.outgoing,
    )

tell-line :
    (l : Bytes) (c : Client)
    → Delivers c.ws
    → tell (line l) c ≡ got c.video_started (log_line l ∷ []) c
unfolding tell process_sys_log send_msg
tell-line l c h = ap (λ r. r.1) (write-got (log_line l) c h)

messages-cons :
    (on : Bool) (f : Frame) (ns : List News)
    → messages on (frame f ∷ []) ++ messages (on_after on f) ns ≡ messages on (frame f ∷ ns)
messages-cons on f ns = ground arith

view-got :
    (ns : List News) (c : Client)
    → Delivers c.ws
    → (view c ns).ws.outgoing ≡ c.ws.outgoing ++ messages c.video_started ns
unfolding view
view-got [] c h = sym (append-nil c.ws.outgoing)
view-got (line l ∷ ns) c h =
    ap (λ d. (view d ns).ws.outgoing) (tell-line l c h)
    ∙ view-got ns (got c.video_started (log_line l ∷ []) c) h
    ∙ append_assoc c.ws.outgoing (log_line l ∷ []) (messages c.video_started ns)
view-got (frame f ∷ ns) c h =
    let now = messages c.video_started (frame f ∷ []) in
    let on = on_after c.video_started f in
    ap (λ d. (view d ns).ws.outgoing) (tell-frame f c h)
    ∙ view-got ns (got on now c) h
    ∙ append_assoc c.ws.outgoing now (messages on ns)
    ∙ ap (λ ms. c.ws.outgoing ++ ms) (messages-cons c.video_started f ns)

-- The two kinds of messages apart, in order.
abbrev pub pictures : List Message → List Bytes
pictures [] = []
pictures (binary b ∷ ms) = b ∷ pictures ms
pictures (text t ∷ ms) = pictures ms

abbrev pub texts : List Message → List ClientOutMsg
texts [] = []
texts (binary b ∷ ms) = texts ms
texts (text t ∷ ms) = t ∷ texts ms

abbrev pub frames_of : List News → List Frame
frames_of [] = []
frames_of (frame f ∷ ns) = f ∷ frames_of ns
frames_of (line l ∷ ns) = frames_of ns

abbrev pub lines_of : List News → List Bytes
lines_of [] = []
lines_of (frame f ∷ ns) = lines_of ns
lines_of (line l ∷ ns) = l ∷ lines_of ns

-- The frames from the first key frame on.
abbrev pub from_key : List Frame → List Frame
from_key [] = []
from_key (f ∷ fs) = if f.keyframe then f ∷ fs else from_key fs

-- What a browser gets for a frame: the announcement of a key frame, and the frame with its flag.
abbrev pub encoded : Frame → List Bytes
encoded f = if f.keyframe then (1 ∷ []) ∷ (2 ∷ 1 ∷ f.content) ∷ [] else (2 ∷ 0 ∷ f.content) ∷ []

abbrev pub encoded_all : List Frame → List Bytes
encoded_all [] = []
encoded_all (f ∷ fs) = encoded f ++ encoded_all fs

pictures-append : (ms ns : List Message) → pictures (ms ++ ns) ≡ pictures ms ++ pictures ns
pictures-append [] ns = refl
pictures-append (binary b ∷ ms) ns = ap (λ l. b ∷ l) (pictures-append ms ns)
pictures-append (text t ∷ ms) ns = pictures-append ms ns

texts-append : (ms ns : List Message) → texts (ms ++ ns) ≡ texts ms ++ texts ns
texts-append [] ns = refl
texts-append (binary b ∷ ms) ns = texts-append ms ns
texts-append (text t ∷ ms) ns = ap (λ l. t ∷ l) (texts-append ms ns)

pictures-messages :
    (ns : List News)
    → (pictures (messages true ns) ≡ encoded_all (frames_of ns))
      × (pictures (messages false ns) ≡ encoded_all (from_key (frames_of ns)))
unfolding flag
pictures-messages [] = (refl, refl)
pictures-messages (line l ∷ ns) = pictures-messages ns
pictures-messages (frame f ∷ ns) = ground (arith, pictures-messages ns)

texts-messages :
    (on : Bool) (ns : List News)
    → texts (messages on ns) ≡ map (line_of (bytes "kernlog")) (lines_of ns)
texts-messages on [] = refl
texts-messages on (line l ∷ ns) = ap (λ ts. line_of (bytes "kernlog") l ∷ ts) (texts-messages on ns)
texts-messages on (frame f ∷ ns) = ground (arith, texts-messages true ns, texts-messages false ns)

-- A browser whose video has not started, over a socket that delivers every message, gets the frames
-- from the first key frame on, each key frame behind an announcement, with its flag and its data, and
-- none of the frames before; and it gets every line of the log, before and after. Both come in order,
-- however frames and lines are mixed.
pub view-from_key :
    (ns : List News) (c : Client)
    → Delivers c.ws
    → c.video_started ≡ false
    → (pictures (view c ns).ws.outgoing
        ≡ pictures c.ws.outgoing ++ encoded_all (from_key (frames_of ns)))
      × (texts (view c ns).ws.outgoing
          ≡ texts c.ws.outgoing ++ map (line_of (bytes "kernlog")) (lines_of ns))
view-from_key ns c h off = (
  ap pictures (view-got ns c h)
      ∙ pictures-append c.ws.outgoing (messages c.video_started ns)
      ∙ ap (λ b. pictures c.ws.outgoing ++ pictures (messages b ns)) off
      ∙ ap (λ ps. pictures c.ws.outgoing ++ ps) (pictures-messages ns).1,
  ap texts (view-got ns c h)
      ∙ texts-append c.ws.outgoing (messages c.video_started ns)
      ∙ ap (λ ts. texts c.ws.outgoing ++ ts) (texts-messages c.video_started ns),
)

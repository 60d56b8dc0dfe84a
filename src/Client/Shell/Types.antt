-- ===== src/Client/Shell/Types.antt =====
-- What a client of agent/client/shell types, on its way through agent/server/shell to the device.
use droidmole.Base.{
  ℕ, ◌≡◌, refl, true, false, List, [], ◌∷◌, ◌++◌, map, append_assoc, append-nil, length, Bytes,
  arith, lt→ltb,
}
use droidmole.Go.{ok, Exec, pure, ◌>>◌, bind-ok}
use droidmole.Net.{Conn}
use droidmole.Net.Laws.{sent, IsOpen}
use droidmole.Adb.Raw.Framing.{shell_header, write_shell_blob-IsOpen}
use droidmole.Grpc.{Delivers, send-Delivers}
use droidmole.Shell
use droidmole.Shell.{ShellRequest, ShellResponse, stdin, resizes, window_size, handle_request}
use droidmole.Client.Shell.{Shell, sending, send_input, close_input, resize}

-- The calls of a client.
pub data Act : Type 0 where
  types : Bytes → Act
  closes : Act
  sizes : ℕ → ℕ → ℕ → ℕ → Act

unfoldable pub act : Act → Exec Shell (Unit {0})
act (types blob) = send_input blob
act closes = close_input
act (sizes rows cols width height) = resize rows cols width height

unfoldable pub act_all : List Act → Exec Shell (Unit {0})
act_all [] = pure tt
act_all (a ∷ more) = do act a; act_all more

-- The loop of the service, over the requests only.
unfoldable pub handle_all : List ShellRequest → Exec Shell.Shell (Unit {0})
handle_all [] = pure tt
handle_all (m ∷ ms) = do handle_request m; handle_all ms

-- The request for a call, and the packets of the shell protocol for it.
abbrev pub request_of : Act → ShellRequest
request_of (types blob) = stdin blob false
request_of closes = stdin [] true
request_of (sizes rows cols width height) = resizes rows cols width height

abbrev packet : ℕ → Bytes → Bytes
packet id blob = shell_header id blob ++ blob

-- No data is no packet.
abbrev packet_of : Act → Bytes
packet_of (types []) = []
packet_of (types (b ∷ blob)) = packet 0 (b ∷ blob)
packet_of closes = packet 4 []
packet_of (sizes rows cols width height) = packet 5 (window_size rows cols width height)

abbrev pub packets : List Act → Bytes
packets [] = []
packets (a ∷ acts) = packet_of a ++ packets acts

-- The client and the service when these requests and bytes were sent.
abbrev pub asked : List ShellRequest → Shell → Shell
asked ms s = record s { client = record (s.client) { outgoing = s.client.outgoing ++ ms } }

abbrev pub wrote : Bytes → Shell.Shell → Shell.Shell
wrote p s = record s { conn = sent p s.conn }

sending-Delivers :
    (m : ShellRequest) (s : Shell) → Delivers s.client → sending m s ≡ (ok tt, asked (m ∷ []) s)
unfolding sending
sending-Delivers m s h = rw (send-Delivers m s.client h) refl

act-asked :
    (a : Act) (s : Shell) → Delivers s.client → act a s ≡ (ok tt, asked (request_of a ∷ []) s)
unfolding act send_input close_input resize
act-asked (types blob) s h = sending-Delivers (stdin blob false) s h
act-asked closes s h = sending-Delivers (stdin [] true) s h
act-asked (sizes rows cols width height) s h = sending-Delivers (resizes rows cols width height) s h

act_all-asked :
    (acts : List Act) (s : Shell)
    → Delivers s.client
    → act_all acts s ≡ (ok tt, asked (map request_of acts) s)
unfolding act_all
act_all-asked [] s h = rw append-nil refl
act_all-asked (a ∷ acts) s h =
    rw (act-asked a s h) (rw (act_all-asked acts (asked (request_of a ∷ []) s) h) (rw append_assoc))

write_blob-wrote :
    (id : ℕ) (blob : Bytes) (s : Shell.Shell)
    → IsOpen s.conn
    → Shell.write_blob id blob s ≡ (ok tt, wrote (packet id blob) s)
unfolding Shell.write_blob
write_blob-wrote id blob s h = rw (write_shell_blob-IsOpen id blob s.conn h) (rw append_assoc)

handle-wrote :
    (a : Act) (s : Shell.Shell)
    → IsOpen s.conn
    → handle_request (request_of a) s ≡ (ok tt, wrote (packet_of a) s)
unfolding handle_request
handle-wrote (types []) s h = rw append-nil refl
handle-wrote (types (b ∷ blob)) s h =
    rw (lt→ltb 0 (length (b ∷ blob)) (omega arith))
      (bind-ok (Shell.write_blob 0 (b ∷ blob)) _ s _ tt (write_blob-wrote 0 (b ∷ blob) s h))
handle-wrote closes s h = write_blob-wrote 4 [] s h
handle-wrote (sizes rows cols width height) s h =
    write_blob-wrote 5 (window_size rows cols width height) s h

sent-IsOpen : (p : Bytes) (c : Conn) → IsOpen c → IsOpen (sent p c)
sent-IsOpen p c h = record { opened = h.opened; unbroken = h.unbroken }

handle_all-wrote :
    (acts : List Act) (s : Shell.Shell)
    → IsOpen s.conn
    → handle_all (map request_of acts) s ≡ (ok tt, wrote (packets acts) s)
unfolding handle_all
handle_all-wrote [] s h = rw append-nil refl
handle_all-wrote (a ∷ acts) s h = rw (handle-wrote a s h) (
    rw (handle_all-wrote acts (wrote (packet_of a) s) (sent-IsOpen (packet_of a) s.conn h))
      (rw append_assoc))

-- Whatever a client types, in whatever order it closes the input and changes the size, over a stream
-- that delivers every request: one request is sent for each call, in order. When the service handles
-- these requests with a working connection, the device gets the packets of the calls, in order and
-- nothing else: the data under id 0 where there is some, an empty packet of id 4 for the close, and
-- the size in text under id 5.
pub typed_reaches_device :
    (acts : List Act) (s : Shell) (t : Shell.Shell)
    → Delivers s.client
    → IsOpen t.conn
    → (act_all acts s ≡ (ok tt, asked (map request_of acts) s))
      × (handle_all (map request_of acts) t ≡ (ok tt, wrote (packets acts) t))
typed_reaches_device acts s t h k = (act_all-asked acts s h, handle_all-wrote acts t k)

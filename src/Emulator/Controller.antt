-- ===== src/Emulator/Controller.antt =====
-- agent/server/emulator/controller/controller.go: the calls of the emulator's own gRPC server, and the
-- memory in which it leaves its frames; with ProcessInput of agent/server/emulator/emulator.go.
-- What the operating system answers is an argument, and what gRPC answers is a script.
pub mod Frames
mod Tests
use droidmole.Base.{
  ℕ, zero, suc, ◌+◌, ◌-◌, ◌*◌, ◌%◌, ◌^◌, ltb, Bool, true, false, if◌then◌else◌, Option, none, some,
  List, [], ◌∷◌, ◌++◌, Bytes, bytes, length, take, drop, replicate, u32, ℤ, pos, negsuc,
}
use droidmole.Go.{
  Error, status, failed_precondition, invalid_argument, Result, ok, err, panic, Exec, pure, lift,
  fail, continue, ◌>>=◌, ◌>>◌,
}
use droidmole.Server.{Frame}
use droidmole.Client.Agent

-- The signed number with these low 32, or 64, bits.
unfoldable pub int32 : ℕ → ℤ
int32 n = let m = n % 2 ^ 32 in if ltb m (2 ^ 31) then pos m else negsuc (2 ^ 32 - 1 - m)

unfoldable pub int64 : ℕ → ℤ
int64 n = let m = n % 2 ^ 64 in if ltb m (2 ^ 63) then pos m else negsuc (2 ^ 64 - 1 - m)

pub record Touch : Type 0 where
  pub x : ℤ
  pub y : ℤ
  pub identifier : ℤ
  pub pressure : ℤ
  pub touch_major : ℤ
  pub touch_minor : ℤ
  pub never_expires : Bool

-- Of format RGB888, with the memory as the transport.
pub record ImageFormat : Type 0 where
  pub width : ℕ
  pub height : ℕ
  pub display : ℕ
  pub handle : Bytes

pub data Ask : Type 0 where
  get_status : Ask
  -- on a display
  touches : List Touch → ℕ → Ask
  shut_down : Ask
  stream_screenshot : ImageFormat → Ask

-- The calls that were made, what the next calls return (all others return nil), and what is open.
pub record Host : Type 0 where
  pub asked : List Ask
  pub answers : List (Option Error)
  pub connections : ℕ
  pub files : ℕ
  pub maps : ℕ

answer_as : List (Option Error) → Ask → Exec Host (Unit {0})
answer_as [] a s = (ok tt, record s { asked = s.asked ++ a ∷ [] })
answer_as (none ∷ more) a s = (ok tt, record s { asked = s.asked ++ a ∷ []; answers = more })
answer_as (some e ∷ more) a s = (err e, record s { asked = s.asked ++ a ∷ []; answers = more })

unfoldable pub ask : Ask → Exec Host (Unit {0})
unfolding answer_as
ask a s = answer_as s.answers a s

-- A call of the system that opens what `f` counts.
opening_as : {A : Type 0} → (Host → Host) → Result A → Exec Host A
opening_as f (ok a) s = (ok a, f s)
opening_as f (err e) s = (err e, s)
opening_as f panic s = (panic, s)

-- For the answer of Dial.
unfoldable pub connect : Result (Unit {0}) → Exec Host (Unit {0})
unfolding ask opening_as
connect dial = do
  opening_as (λ s. record s { connections = s.connections + 1 }) dial
  ask get_status

unfoldable pub send_touch : List Touch → ℕ → Exec Host (Unit {0})
unfolding ask
send_touch ts display = ask (touches ts display)

unfoldable pub request_exit : Exec Host (Unit {0})
unfolding ask
request_exit = ask shut_down

-- A slice of the memory that is shared with the emulator.
pub record DisplayStream : Type 0 where
  pub shm_data : Bytes

-- The product of two sizes of 32 bits and 3 may not fit.
unfoldable pub mem_size : ℕ → ℕ → ℤ
unfolding int64
mem_size width height = int64 (width * height * 3)

unfoldable pub subscribe : ℕ → ℕ → Bytes → Exec Host DisplayStream
unfolding ask
subscribe width height shm_data = do
  ask (
      stream_screenshot (record {
        width = u32 width;
        height = u32 height;
        display = 0;
        handle = bytes "droidmole-video";
      }))
  pure (record { shm_data = shm_data })

-- For the answers of shm.Open, Truncate and Mmap.
unfoldable pub stream_as :
    Result (Unit {0}) → Result (Unit {0}) → Result Bytes → ℕ → ℕ → Exec Host DisplayStream
unfolding opening_as
stream_as opens truncates mmaps width height = do
  opening_as (λ s. record s { files = s.files + 1 }) opens
  lift truncates
  shm_data ← opening_as (λ s. record s { maps = s.maps + 1 }) mmaps
  subscribe width height shm_data

-- For the size of the memory, the last two answer.
unfoldable pub stream_display :
    Result (Unit {0})
    → (ℤ → Result (Unit {0}))
    → (ℤ → Result Bytes)
    → ℕ
    → ℕ
    → Exec Host DisplayStream
stream_display opens truncates mmaps width height =
    let size = mem_size width height in stream_as opens (truncates size) (mmaps size) width height

-- copy(dst, src)
unfoldable pub copy : Bytes → Bytes → Bytes
copy dst src = take (length dst) src ++ drop (length src) dst

frame_as : Result (Unit {0}) → Exec DisplayStream Bytes
unfolding copy
frame_as (ok t) s = (ok (copy (replicate (length s.shm_data) 0) s.shm_data), s)
frame_as (err e) s = (err e, s)
frame_as panic s = (panic, s)

-- For the answer of Recv, and what the emulator has written to the memory in the meantime.
unfoldable pub get_frame : Result (Unit {0}) → Bytes → Exec DisplayStream Bytes
unfolding frame_as copy
get_frame received written s = frame_as received (record s { shm_data = copy s.shm_data written })

-- A frame is reported, and the loop goes on; an error ends it.
take_frame : ℕ → ℕ → Result Bytes → List Frame → List Frame
take_frame width height (ok pixels) rest =
    record { width = width; height = height; pixels = pixels } ∷ rest
take_frame width height (err e) rest = []
take_frame width height panic rest = []

-- The loop of processDisplay: the frames that it reports.
unfoldable pub frames_from : ℕ → ℕ → List (Result (Unit {0}) × Bytes) → DisplayStream → List Frame
unfolding take_frame
frames_from width height [] s = []
frames_from width height ((received, written) ∷ rounds) s =
    let (r, s') = get_frame received written s in
    take_frame width height r (frames_from width height rounds s')

display_from : ℕ → ℕ → List (Result (Unit {0}) × Bytes) → Result DisplayStream → List Frame
unfolding frames_from
display_from width height rounds (ok s) = frames_from width height rounds s
display_from width height rounds (err e) = []
display_from width height rounds panic = []

-- processDisplay, for the width and height of the request.
unfoldable pub process_display :
    Result (Unit {0})
    → (ℤ → Result (Unit {0}))
    → (ℤ → Result Bytes)
    → ℕ
    → ℕ
    → List (Result (Unit {0}) × Bytes)
    → Host
    → List Frame × Host
unfolding display_from
process_display opens truncates mmaps width height rounds h =
    let (r, h') = stream_display opens truncates mmaps width height h in
    (display_from width height rounds r, h')

-- ProcessInput turns a touch of the agent's protocol into one of the emulator's.
unfoldable pub to_touch : Agent.Touch → Touch
unfolding int32
to_touch t = record {
  x = int32 t.x;
  y = int32 t.y;
  identifier = int32 t.identifier;
  pressure = int32 t.pressure;
  touch_major = int32 t.touch_major;
  touch_minor = int32 t.touch_minor;
  never_expires = true;
}

-- Whether the controller is connected, and the event of the request, if it is a touch.
unfoldable pub process_input : Bool → Option Agent.Touch → Exec Host (Unit {0})
unfolding to_touch send_touch
process_input false event = fail (status failed_precondition (bytes "emulator not ready"))
process_input true (some t) = send_touch (to_touch t ∷ []) 0
process_input true none = fail (status invalid_argument (bytes "unknown request"))

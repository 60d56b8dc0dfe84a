-- ===== src/Display/Processor.antt =====
-- `displayProcessor` and `StreamDisplay` of agent/server/display.go. The codec is libvpx: what its
-- calls answer is an argument. Its images and contexts are C memory, known by numbers; the state has
-- what was freed, and whether freed memory was ever used or freed again.
pub mod Memory
pub mod Streams
pub mod Shows
pub mod Keyframes
use droidmole.Base.{
  ℕ, zero, suc, ◌+◌, ◌-◌, ◌%◌, ◌^◌, ◌==◌, leb, Bool, true, false, not, ◌||◌, ◌&&◌, if◌then◌else◌,
  Option, none, some, List, [], ◌∷◌, ◌++◌, Bytes,
}
use droidmole.Go.{
  Error, Result, ok, err, panic, Exec, pure, fail, crash, lift, continue, ◌>>=◌, ◌>>◌,
}
use droidmole.Grpc
use droidmole.Grpc.{Stream}
use droidmole.Server.{Frame}
use droidmole.Display.Yuv.{rgb_to_yuv}

-- DisplayFrame of the protocol.
pub record DisplayFrame : Type 0 where
  pub keyframe : Bool
  pub width : ℕ
  pub height : ℕ
  pub content : Bytes

-- What the codec answers in one call of processFrame.
pub record Codec : Type 0 where
  pub default_error : Option Error
  pub init_error : Option Error
  -- vpx_img_alloc gives no image
  pub no_image : Bool
  pub encode_fails : Bool
  -- what GetFrameBuffer gives before nil
  pub packets : List Bytes

-- The fields of the processor that change, its stream, and the C memory.
pub record Display (Req : Type 0) : Type 0 where
  pub image : Option ℕ
  pub codec : Option ℕ
  pub width : ℕ
  pub height : ℕ
  pub frame_count : ℕ
  -- in milliseconds, as `now`
  pub last_keyframe : ℕ
  pub sds : Stream Req DisplayFrame
  pub next : ℕ
  pub freed : List ℕ
  pub corrupt : Bool

abbrev pub is_freed : ℕ → List ℕ → Bool
is_freed a [] = false
is_freed a (b ∷ bs) = a == b || is_freed a bs

module _ {Req : Type 0} where
  unfoldable pub new_display : Stream Req DisplayFrame → Display Req
  new_display s = record {
    image = none;
    codec = none;
    width = 0;
    height = 0;
    frame_count = 0;
    last_keyframe = 0;
    sds = s;
    next = 0;
    freed = [];
    corrupt = false;
  }

  -- A use of the memory at `a`.
  touch : ℕ → Display Req → Display Req
  touch a d = record d { corrupt = d.corrupt || is_freed a d.freed }

  -- `if p != nil { p.Free() }`; the pointer keeps its value.
  unfoldable pub free : Option ℕ → Display Req → Display Req
  unfolding touch
  free none d = d
  free (some a) d = record (touch a d) { freed = a ∷ d.freed }

  unfoldable pub free_both : Display Req → Display Req
  unfolding free
  free_both d = let e = free d.image d in free e.codec e

  send_frame : DisplayFrame → Exec (Display Req) (Unit {0})
  send_frame m d = ((Grpc.send m d.sds).0, record d { sds = (Grpc.send m d.sds).1 })

  unfoldable pub blank : ℕ → Exec (Display Req) (Unit {0})
  unfolding send_frame
  blank now d =
      send_frame (record { keyframe = true; width = 0; height = 0; content = [] })
        (free_both (record d { width = 0; height = 0; frame_count = 0; last_keyframe = now }))

  nil_error : Option Error → Exec (Display Req) (Unit {0})
  nil_error none d = (ok tt, d)
  nil_error (some e) d = (err e, d)

  new_codec : Exec (Display Req) (Unit {0})
  new_codec d = (ok tt, record d { codec = some d.next; next = d.next + 1 })

  -- log.Fatal ends the process, as a panic does.
  new_image : Bool → Exec (Display Req) (Unit {0})
  new_image true d = (panic, d)
  new_image false d = (ok tt, record d { image = some d.next; next = d.next + 1 })

  -- The display has another size than before.
  unfoldable pub resize : ℕ → Codec → Frame → Exec (Display Req) (Unit {0})
  unfolding nil_error new_codec new_image
  resize now answers f d =
      (do
        nil_error answers.default_error
        new_codec
        nil_error answers.init_error
        new_image answers.no_image)
        (free_both
          (record d { width = f.width; height = f.height; frame_count = 0; last_keyframe = now }))

  unfoldable pub resized : ℕ → Codec → Frame → Exec (Display Req) (Unit {0})
  resized now answers f d =
      if not (f.width == d.width) || not (f.height == d.height)
      then resize now answers f d
      else (ok tt, d)

  -- A use of a pointer that may be nil.
  follow : Option ℕ → Exec (Display Req) (Unit {0})
  unfolding touch
  follow none d = (panic, d)
  follow (some a) d = (ok tt, touch a d)

  -- `img.Read(data)`, which takes the address of the first byte.
  read_image : Bytes → Exec (Display Req) (Unit {0})
  unfolding follow
  read_image [] d = (panic, d)
  read_image (x ∷ xs) d = follow d.image d

  -- Whether the next frame is a key frame; `interval` is in milliseconds, and 0 is none.
  unfoldable pub due : ℕ → ℕ → Display Req → Bool
  due interval now d = not (interval == 0) && leb interval ((now - d.last_keyframe) % 2 ^ 32)

  unfoldable pub is_key : ℕ → ℕ → Display Req → Bool
  unfolding due
  is_key interval now d = d.frame_count == 0 || due interval now d

  marked : ℕ → ℕ → Display Req → Display Req
  unfolding due
  marked interval now d = if due interval now d then record d { last_keyframe = now } else d

  encode : Bool → Exec (Display Req) (Unit {0})
  unfolding follow
  encode true d = (panic, d)
  encode false d = continue (follow d.codec d).0 (λ _ e. follow e.image e) (follow d.codec d).1

  unfoldable pub packet_frame : Bool → Display Req → Bytes → DisplayFrame
  packet_frame key d p = record { keyframe = key; width = d.width; height = d.height; content = p }

  send_packets : Bool → List Bytes → Exec (Display Req) (Unit {0})
  unfolding packet_frame send_frame
  send_packets key [] d = (ok tt, d)
  send_packets key (p ∷ ps) d = (send_frame (packet_frame key d p) >>= λ _. send_packets key ps) d

  count : Exec (Display Req) (Unit {0})
  count d = (ok tt, record d { frame_count = (d.frame_count + 1) % 2 ^ 32 })

  -- From the conversion on.
  unfoldable pub show : ℕ → ℕ → Codec → Frame → Exec (Display Req) (Unit {0})
  unfolding read_image marked encode send_packets count
  show interval now answers f d =
      (do
        content ← lift (rgb_to_yuv f.pixels d.width d.height)
        read_image content
        λ e.
            (encode answers.encode_fails >>= λ _.
            send_packets (is_key interval now e) answers.packets >>= λ _. count)
              (marked interval now e))
        d

  -- With what the listener's Wait returned.
  unfoldable pub process_frame :
      ℕ → ℕ → Codec → Result (Option Frame) → Exec (Display Req) (Unit {0})
  unfolding resized
  process_frame interval now answers (ok none) d = blank now d
  process_frame interval now answers (ok (some f)) d =
      (resized now answers f >>= λ _. show interval now answers f) d
  process_frame interval now answers (err e) d = (err e, d)
  process_frame interval now answers panic d = (panic, d)

-- One call of processFrame.
pub record Round : Type 0 where
  pub now : ℕ
  pub answers : Codec
  pub waited : Result (Option Frame)

module _ {Req : Type 0} where
  -- `StreamDisplay`: rounds until the first that fails; the ticker only delays them.
  unfoldable pub stream_display : ℕ → List Round → Exec (Display Req) (Unit {0})
  stream_display interval [] d = (ok tt, d)
  stream_display interval (r ∷ rs) d =
      (process_frame interval r.now r.answers r.waited >>= λ _. stream_display interval rs) d

-- ===== src/Display/Tests.antt =====
-- The theorems about agent/server/display.go and agent/util/vpx at concrete inputs.
use droidmole.Base.{
  Bool, ◌↔◌, ◌⊎◌, if◌then◌else◌, ℕ, ◌+◌, ◌*◌, ◌%◌, ◌^◌, ◌≡◌, refl, arith, true, false, none, some,
  inl, [], ◌∷◌, ◌++◌, map, Bytes, bytes,
}
use droidmole.Go.{eof, ok, panic}
use droidmole.Grpc.{Stream}
use droidmole.Server.{Frame}
use droidmole.Display.Image.{Plane, Image, plane_side, plane_width, plane_height, read_rows, read}
use droidmole.Display.Image.Pictures.{Room, picture, read_converted}
use droidmole.Display.Yuv.{
  luma, chroma_u, chroma_v, float32, rgb_to_yuv, write_planes, put_all, indices, below, put, pixel,
  yuv_size,
}
use droidmole.Display.Yuv.Frames.{planes, rgb_to_yuv-even, rgb_to_yuv-odd}
use droidmole.Display.Processor.{
  DisplayFrame, Codec, Display, Round, new_display, process_frame, stream_display,
}
use droidmole.Display.Processor.Memory.{Sound}
use droidmole.Display.Processor.Streams.{stream_display-clean}
use droidmole.Display.Processor.Shows.{Works, changed, frame_of}
use droidmole.Display.Processor.Keyframes.{Over, process_frame-sends}

-- The first odd number that a float32 does not hold goes to the even neighbour.
rounds_to_even : float32 16777217 ≡ 16777216
unfolding float32
rounds_to_even = refl

abbrev white : Bytes
white = 255 ∷ 255 ∷ 255 ∷ []

abbrev square : Bytes
square = white ++ (white ++ (white ++ white))

rgb_to_yuv-even_example : rgb_to_yuv square (2 * 1) (2 * 1) ≡ ok (planes square (2 * 1) (2 * 1))
rgb_to_yuv-even_example = rgb_to_yuv-even square 1 1 (omega arith) refl

rgb_to_yuv-odd_example : rgb_to_yuv white 1 1 ≡ panic
rgb_to_yuv-odd_example =
    rgb_to_yuv-odd white 1 1 (omega arith) (omega arith) (omega arith) (inl refl)

white_square : rgb_to_yuv square 2 2 ≡ ok (235 ∷ 235 ∷ 235 ∷ 235 ∷ 128 ∷ 128 ∷ [])
unfolding rgb_to_yuv write_planes put_all indices below put pixel yuv_size float32 luma chroma_u
    chroma_v
white_square = refl

abbrev plane : Bytes → Plane
plane xs = record { memory = xs; stride = 4 }

abbrev image : Image
image = record {
  d_w = 2;
  d_h = 2;
  x_chroma_shift = 1;
  y_chroma_shift = 1;
  high = false;
  plane_y = plane (9 ∷ 9 ∷ 9 ∷ 9 ∷ 9 ∷ 9 ∷ 9 ∷ 9 ∷ []);
  plane_u = plane (9 ∷ 9 ∷ 9 ∷ 9 ∷ []);
  plane_v = plane (9 ∷ 9 ∷ 9 ∷ 9 ∷ []);
}

-- The bytes between the rows stay.
reads_rows :
    (read_rows 2 2 4 image.plane_y.memory (1 ∷ 2 ∷ 3 ∷ 4 ∷ 5 ∷ [])).0
    ≡ ok (1 ∷ 2 ∷ 9 ∷ 9 ∷ 3 ∷ 4 ∷ 9 ∷ 9 ∷ [])
unfolding read_rows
reads_rows = refl

fits : Room false image image.plane_y
unfolding plane_width plane_height plane_side
fits = (omega arith, omega arith)

fits_chroma : Room true image image.plane_u
unfolding plane_width plane_height plane_side
fits_chroma = (omega arith, omega arith)

read_converted_example :
    (yuv : Bytes) × (j : Image) × (rgb_to_yuv square (2 * 1) (2 * 1) ≡ ok yuv)
    × (read image yuv ≡ (ok j, []))
    × (picture j ≡ planes square (2 * 1) (2 * 1))
read_converted_example =
    read_converted square 1 1 image (omega arith) (omega arith) (omega arith) refl
      (refl, refl, refl, refl, refl) fits fits_chroma fits_chroma

abbrev silent : Stream ℕ DisplayFrame
silent = record { incoming = []; ending = eof; outgoing = []; sends = [] }

abbrev codec : Codec
codec = record {
  default_error = none;
  init_error = none;
  no_image = false;
  encode_fails = false;
  packets = bytes "packet" ∷ [];
}

codec-Works : Works codec
codec-Works = record { configures = refl; starts = refl; allocates = refl; encodes = refl }

abbrev frame : Frame
frame = record { width = 2; height = 2; pixels = square }

abbrev shows : Round
shows = record { now = 5; answers = codec; waited = ok (some frame) }

abbrev blanks : Round
blanks = record { now = 6; answers = codec; waited = ok none }

stream_display-clean_example :
    (stream_display 0 (shows ∷ shows ∷ []) (new_display silent)).1.corrupt ≡ false
stream_display-clean_example =
    stream_display-clean 0 (shows ∷ shows ∷ []) silent ((λ e. cc e), ((λ e. cc e), tt))

-- A display with an image and a context.
abbrev busy : Display ℕ
busy = record {
  image = some 1;
  codec = some 0;
  width = 2;
  height = 2;
  frame_count = 1;
  last_keyframe = 5;
  sds = silent;
  next = 2;
  freed = [];
  corrupt = false;
}

busy-Sound : Sound busy
busy-Sound = record {
  clean = refl;
  image_lives = λ a e. ground arith;
  codec_lives = λ a e. ground arith;
  apart = λ a e k. ground arith;
  below = λ a e. absurd (cc e);
}

process_frame-sends_example :
    let (r, e) = process_frame 5 7 codec (ok (some frame)) busy in
    (changed frame busy ≡ true
      → (r ≡ ok tt)
        × (e.sds.outgoing ≡ busy.sds.outgoing ++ map (frame_of true frame) codec.packets)
        × (e.frame_count ≡ 1)
        × (e.last_keyframe ≡ 7))
    × (changed frame busy ≡ false
        → busy.image ≡ some 1
        → busy.codec ≡ some 0
        → (key : Bool) × (over : Bool) × ((over ≡ true) ↔ Over 5 7 busy)
          × ((key ≡ true) ↔ ((busy.frame_count ≡ 0) ⊎ (over ≡ true)))
          × (r ≡ ok tt)
          × (e.sds.outgoing ≡ busy.sds.outgoing ++ map (frame_of key frame) codec.packets)
          × (e.frame_count ≡ (busy.frame_count + 1) % 2 ^ 32)
          × (e.last_keyframe ≡ (if over then 7 else busy.last_keyframe)))
process_frame-sends_example =
    process_frame-sends 5 7 codec frame busy 235 (235 ∷ 235 ∷ 235 ∷ 128 ∷ 128 ∷ []) 1 0 codec-Works
      white_square refl

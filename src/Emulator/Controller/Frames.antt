-- ===== src/Emulator/Controller/Frames.antt =====
-- What the frames of agent/server/emulator/controller/controller.go are worth to the display's encoder,
-- RgbToYuv of agent/util/vpx/vpx.go.
use droidmole.Base.{
  ℕ, suc, ◌*◌, ◌^◌, ◌<◌, ◌≡◌, refl, sym, ap, ◌∙◌, List, [], ◌∷◌, length, length-append, length-take,
  length-drop, length-replicate, take, drop, replicate, All, Bytes, arith, ℤ, pos, pos_part,
}
use droidmole.Go.{Result, ok, err, panic, pure, continue}
use droidmole.Server.{Frame}
use droidmole.Display.Yuv.{rgb_to_yuv}
use droidmole.Display.Yuv.Frames.{planes, rgb_to_yuv-even}
use droidmole.Emulator.Controller.{
  DisplayStream, Host, ask, opening_as, subscribe, stream_as, mem_size, int64, stream_display, copy,
  frame_as, get_frame, take_frame, frames_from, display_from, process_display,
}

length-copy : (dst src : Bytes) → length (copy dst src) ≡ length dst
unfolding copy
length-copy dst src = omega (
  arith,
  length-append (take (length dst) src) (drop (length src) dst),
  length-take (length dst) src,
  length-drop (length src) dst,
)

-- The answers of Recv before its first error.
abbrev pub answered : List (Result (Unit {0}) × Bytes) → ℕ
answered [] = 0
answered ((ok t, written) ∷ rounds) = suc (answered rounds)
answered (_ ∷ rounds) = 0

subscribe-Mapped :
    (width height : ℕ) (d : Bytes) (host : Host) (s : DisplayStream)
    → (subscribe width height d host).0 ≡ ok s
    → d ≡ s.shm_data
unfolding subscribe
subscribe-Mapped width height d host s = go (ask _ host).0 (ask _ host).1
  where
    go :
        (r : Result (Unit {0})) (h : Host)
        → (continue r (λ _. pure (record { shm_data = d })) h).0 ≡ ok s
        → d ≡ s.shm_data
    go (ok t) h e = cc
    go (err x) h e = absurd (cc e)
    go panic h e = absurd (cc e)

-- The memory of a stream is what Mmap returned.
stream_as-Mapped :
    (r q : Result (Unit {0})) (m : Result Bytes) (width height : ℕ) (host : Host)
    (s : DisplayStream)
    → (stream_as r q m width height host).0 ≡ ok s
    → m ≡ ok s.shm_data
unfolding stream_as opening_as
stream_as-Mapped (ok t) (ok u) (ok d) width height host s e =
    ap (λ x. ok x) (subscribe-Mapped width height d _ s e)
stream_as-Mapped (ok t) (ok u) (err x) width height host s e = absurd (cc e)
stream_as-Mapped (ok t) (ok u) panic width height host s e = absurd (cc e)
stream_as-Mapped (ok t) (err x) m width height host s e = absurd (cc e)
stream_as-Mapped (ok t) panic m width height host s e = absurd (cc e)
stream_as-Mapped (err x) q m width height host s e = absurd (cc e)
stream_as-Mapped panic q m width height host s e = absurd (cc e)

mem_size-small : (w h : ℕ) → 3 * (w * h) < 2 ^ 24 → mem_size w h ≡ pos (3 * (w * h))
unfolding mem_size int64
mem_size-small w h small = go (w * h) small
  where
    go : (n : ℕ) → 3 * n < 2 ^ 24 → int64 (n * 3) ≡ pos (3 * n)
    go n l = ground arith

module _ (a b : ℕ) (small : 3 * (2 * a * (2 * b)) < 2 ^ 24) where
  -- The frame has the size of the display, and is converted whole.
  abbrev pub Converts : Frame → Type 0
  Converts f =
      (f.width ≡ 2 * a)
      × (f.height ≡ 2 * b)
      × (rgb_to_yuv f.pixels f.width f.height ≡ ok (planes f.pixels f.width f.height))

  frames_from-Converts :
      (rounds : List (Result (Unit {0}) × Bytes)) (s : DisplayStream)
      → length s.shm_data ≡ 3 * (2 * a * (2 * b))
      → All Converts (frames_from (2 * a) (2 * b) rounds s)
        × (length (frames_from (2 * a) (2 * b) rounds s) ≡ answered rounds)
  unfolding frames_from get_frame frame_as take_frame
  frames_from-Converts [] s l = (tt, refl)
  frames_from-Converts ((ok t, written) ∷ rounds) s l =
      let memory = copy s.shm_data written in
      let l' : length memory ≡ 3 * (2 * a * (2 * b)) = length-copy s.shm_data written ∙ l in
      let (whole, count) = frames_from-Converts rounds (record { shm_data = memory }) l' in
      let sized =
        length-copy (replicate (length memory) 0) memory
        ∙ length-replicate {A = ℕ} (length memory) 0
        ∙ l' in
      (((refl, refl, rgb_to_yuv-even _ a b small sized), whole), ap suc count)
  frames_from-Converts ((err e, written) ∷ rounds) s l = (tt, refl)
  frames_from-Converts ((panic, written) ∷ rounds) s l = (tt, refl)

-- A display of even sides and up to 2 ^ 24 / 3 pixels; Mmap, where it succeeds, maps the size that it
-- is asked for. Once StreamDisplay has returned, processDisplay reports a frame for each answer of the
-- emulator before the first error; whatever the emulator writes to the memory meanwhile, each frame has
-- the size of the display and is converted whole by RgbToYuv.
pub process_display-Converts :
    (a b : ℕ) (small : 3 * (2 * a * (2 * b)) < 2 ^ 24) (opens : Result (Unit {0}))
    (truncates : ℤ → Result (Unit {0})) (mmaps : ℤ → Result Bytes)
    (rounds : List (Result (Unit {0}) × Bytes)) (host : Host) (s : DisplayStream)
    → ((n : ℤ) (d : Bytes) → mmaps n ≡ ok d → n ≡ pos (length d))
    → (stream_display opens truncates mmaps (2 * a) (2 * b) host).0 ≡ ok s
    → let frames = (process_display opens truncates mmaps (2 * a) (2 * b) rounds host).0 in
      All (Converts a b small) frames × (length frames ≡ answered rounds)
unfolding process_display stream_display display_from
process_display-Converts a b small opens truncates mmaps rounds host s maps e =
    let mapped = maps _ _ (stream_as-Mapped opens _ _ (2 * a) (2 * b) host s e) in
    let l : length s.shm_data ≡ 3 * (2 * a * (2 * b)) =
      ap pos_part (sym mapped ∙ mem_size-small (2 * a) (2 * b) small) in
    rw e (frames_from-Converts a b small rounds s l)

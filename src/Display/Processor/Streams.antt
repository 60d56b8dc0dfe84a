-- ===== src/Display/Processor/Streams.antt =====
-- Whole display streams of agent/server/display.go and the C memory that they use.
use droidmole.Base.{
  ℕ, ◌≡◌, ◌≢◌, refl, arith, ==_iff, true, false, Option, none, some, List, [], ◌∷◌, All,
}
use droidmole.Go.{Result, ok, err, panic}
use droidmole.Grpc
use droidmole.Grpc.{Stream}
use droidmole.Server.{Frame}
use droidmole.Display.Processor.{
  DisplayFrame, Display, new_display, touch, free, free_both, send_frame, blank, resized, show,
  process_frame, Round, stream_display,
}
use droidmole.Display.Processor.Memory.{Sound, Keeps, Keeps-bind, Keeps-resized, Keeps-show}

abbrev pub HasFrame : Round → Type 0
HasFrame r = r.waited ≢ ok none

module _ {Req : Type 0} where
  Keeps-process_frame :
      (interval : ℕ) (r : Round)
      → HasFrame r
      → Keeps {Req = Req} (process_frame interval r.now r.answers r.waited)
  unfolding process_frame
  Keeps-process_frame interval r n = go r.waited n
    where
      go :
          (w : Result (Option Frame))
          → w ≢ ok none
          → Keeps {Req = Req} (process_frame interval r.now r.answers w)
      go (ok none) n = absurd (n refl)
      go (ok (some f)) n =
          Keeps-bind (resized r.now r.answers f) (λ _. show interval r.now r.answers f)
            (Keeps-resized r.now r.answers f) λ _. Keeps-show interval r.now r.answers f
      go (err e) n = λ d h. ((λ t p. h), h.clean)
      go panic n = λ d h. ((λ t p. h), h.clean)

  Keeps-stream_display :
      (interval : ℕ) (rs : List Round)
      → All HasFrame rs
      → Keeps {Req = Req} (stream_display interval rs)
  unfolding stream_display
  Keeps-stream_display interval [] n d h = ((λ t e. h), h.clean)
  Keeps-stream_display interval (r ∷ rs) n d h =
      Keeps-bind (process_frame interval r.now r.answers r.waited) (λ _. stream_display interval rs)
        (Keeps-process_frame interval r n.0) (λ _. Keeps-stream_display interval rs n.1) d h

  new_display-Sound : (s : Stream Req DisplayFrame) → Sound (new_display s)
  unfolding new_display
  new_display-Sound s = record {
    clean = refl;
    image_lives = λ a e. absurd (cc e);
    codec_lives = λ a e. absurd (cc e);
    apart = λ a e. absurd (cc e);
    below = λ a e. absurd (cc e);
  }

  -- As long as every frame that the listener gives is there, a display stream neither uses nor frees
  -- memory that was freed, however the codec and the client behave and whichever round ends it.
  pub stream_display-clean :
      (interval : ℕ) (rs : List Round) (s : Stream Req DisplayFrame)
      → All HasFrame rs
      → (stream_display interval rs (new_display s)).1.corrupt ≡ false
  stream_display-clean interval rs s n =
      (Keeps-stream_display interval rs n (new_display s) (new_display-Sound s)).1

  -- A nil frame leaves the pointers to the image and the context that it frees: a second one frees
  -- both again.
  pub blank_twice :
      (interval a b : ℕ) (r r' : Round) (d : Display Req)
      → Sound d
      → d.image ≡ some a
      → d.codec ≡ some b
      → d.sds.sends ≡ []
      → r.waited ≡ ok none
      → r'.waited ≡ ok none
      → let (result, e) = stream_display interval (r ∷ r' ∷ []) d in
        (result ≡ ok tt) × (e.corrupt ≡ true)
  unfolding stream_display process_frame blank free_both free touch send_frame Grpc.send
  blank_twice interval a b r r' d h ei ec es er er' = ground (arith, ==_iff a a)

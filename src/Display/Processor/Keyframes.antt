-- ===== src/Display/Processor/Keyframes.antt =====
-- Which frames `processFrame` of agent/server/display.go sends, and which of them are key frames.
use droidmole.Base.{
  ◌-◌, ◌<◌, ◌≤◌, ◌↔◌, ◌⊎◌, Bool, if◌then◌else◌, ℕ, ◌+◌, ◌%◌, ◌^◌, ◌≡◌, refl, ap, ◌∙◌, arith, ◌==◌,
  ==_iff, true, false, ◌||◌, Option, none, some, [], ◌∷◌, ◌++◌, map, Bytes,
}
use droidmole.Go.{ok}
use droidmole.Server.{Frame}
use droidmole.Display.Yuv.{rgb_to_yuv}
use droidmole.Display.Processor.{
  Codec, Display, touch, free, free_both, nil_error, new_codec, new_image, resize, resized, is_key,
  packet_frame, show, process_frame, due,
}
use droidmole.Display.Processor.Shows.{Works, changed, frame_of, show-sends}

module _ {Req : Type 0} where
  free-fields :
      (p : Option ℕ) (d : Display Req)
      → let e = free p d in
        (e.width ≡ d.width)
        × (e.height ≡ d.height)
        × (e.frame_count ≡ d.frame_count)
        × (e.sds ≡ d.sds)
        × (e.last_keyframe ≡ d.last_keyframe)
  unfolding free touch
  free-fields none d = (refl, refl, refl, refl, refl)
  free-fields (some a) d = (refl, refl, refl, refl, refl)

  free_both-fields :
      (d : Display Req)
      → let e = free_both d in
        (e.width ≡ d.width)
        × (e.height ≡ d.height)
        × (e.frame_count ≡ d.frame_count)
        × (e.sds ≡ d.sds)
        × (e.last_keyframe ≡ d.last_keyframe)
  unfolding free_both
  free_both-fields d =
      let h = free-fields d.image d in
      let k = free-fields (free d.image d).codec (free d.image d) in
      (k.0 ∙ h.0, k.1 ∙ h.1, k.2 ∙ h.2, k.3 ∙ h.3, k.4 ∙ h.4)

  abbrev sized : ℕ → Frame → Display Req → Display Req
  sized now f d = record d {
    width = f.width;
    height = f.height;
    frame_count = 0;
    last_keyframe = now;
  }

  -- A new image and context.
  abbrev renewed : ℕ → Frame → Display Req → Display Req
  renewed now f d =
      let e = free_both (sized now f d) in
      record e { codec = some e.next; image = some (e.next + 1); next = e.next + 1 + 1 }

  resize-Works :
      (now : ℕ) (answers : Codec) (f : Frame) (d : Display Req)
      → Works answers
      → resize now answers f d ≡ (ok tt, renewed now f d)
  unfolding resize nil_error new_codec new_image
  resize-Works now answers f d w = rw w.configures (rw w.starts (rw w.allocates refl))

  -- Whether the interval, if there is one, has passed since the last key frame.
  abbrev pub Over : ℕ → ℕ → Display Req → Type 0
  Over interval now d = (0 < interval) × (interval ≤ (now - d.last_keyframe) % 2 ^ 32)

  due_iff : (interval now : ℕ) (d : Display Req) → (due interval now d ≡ true) ↔ Over interval now d
  unfolding due
  due_iff interval now d = (λ h. ground arith, λ h. ground arith)

  is_key_iff :
      (interval now : ℕ) (d : Display Req)
      → (is_key interval now d ≡ true) ↔ ((d.frame_count ≡ 0) ⊎ (due interval now d ≡ true))
  unfolding is_key
  is_key_iff interval now d = ground arith

  -- A frame, where no call of the codec fails and its conversion gives some bytes, to a client that
  -- gets every message. The client gets each packet of the codec, in order, with the size of the
  -- frame. Where the size is new, all are marked as key frames, and the time of the last key frame is
  -- now. Where it is not, they are exactly if the counter of the frames is 0 or the interval of the
  -- request, if it is not 0, has passed since the time of the last key frame; that time is now then if
  -- the interval has passed, and else as before. The counter wraps after 2 ^ 32 frames.
  pub process_frame-sends :
      (interval now : ℕ) (answers : Codec) (f : Frame) (d : Display Req) (x : ℕ) (xs : Bytes)
      (a b : ℕ)
      → Works answers
      → rgb_to_yuv f.pixels f.width f.height ≡ ok (x ∷ xs)
      → d.sds.sends ≡ []
      → let (r, e) = process_frame interval now answers (ok (some f)) d in
        (changed f d ≡ true
          → (r ≡ ok tt)
            × (e.sds.outgoing ≡ d.sds.outgoing ++ map (frame_of true f) answers.packets)
            × (e.frame_count ≡ 1)
            × (e.last_keyframe ≡ now))
        × (changed f d ≡ false
            → d.image ≡ some a
            → d.codec ≡ some b
            → (key : Bool) × (over : Bool) × ((over ≡ true) ↔ Over interval now d)
              × ((key ≡ true) ↔ ((d.frame_count ≡ 0) ⊎ (over ≡ true)))
              × (r ≡ ok tt)
              × (e.sds.outgoing ≡ d.sds.outgoing ++ map (frame_of key f) answers.packets)
              × (e.frame_count ≡ (d.frame_count + 1) % 2 ^ 32)
              × (e.last_keyframe ≡ (if over then now else d.last_keyframe)))
  unfolding process_frame resized
  process_frame-sends interval now answers f d x xs a b w y s = (
    λ new. rw new (rw (resize-Works now answers f d w) first),
    λ old i c. (
      is_key interval now d,
      due interval now d,
      due_iff interval now d,
      is_key_iff interval now d,
      rw old (later (same_width old) (same_height old) i c).0,
      rw old (later (same_width old) (same_height old) i c).1,
      rw old (later (same_width old) (same_height old) i c).2,
      rw old (later (same_width old) (same_height old) i c).3,
    ),
  )
    where
      e : Display Req
      e = renewed now f d

      fields :
          let e = free_both (sized now f d) in
          (e.width ≡ f.width)
          × (e.height ≡ f.height)
          × (e.frame_count ≡ 0)
          × (e.sds ≡ d.sds)
          × (e.last_keyframe ≡ now)
      fields = free_both-fields (sized now f d)

      either : (k : Bool) → (if k then now else now) ≡ now
      either true = refl
      either false = refl

      first :
          let (r, t) = show interval now answers f e in
          (r ≡ ok tt)
          × (t.sds.outgoing ≡ d.sds.outgoing ++ map (frame_of true f) answers.packets)
          × (t.frame_count ≡ 1)
          × (t.last_keyframe ≡ now)
      first =
          let (r, o, n, l) =
            show-sends interval now answers f e x xs _ _ w.encodes
              ((λ j. rgb_to_yuv f.pixels (fields.0 j) (fields.1 j)) ∙ y) refl refl
              (ap (λ t. t.sends) fields.3 ∙ s) in
          (
            r,
            o
                ∙ (unfold packet_frame is_key in
                    λ j.
                      (fields.3 j).outgoing
                      ++ map
                          (λ p. record {
                            keyframe = fields.2 j == 0 || due interval now e;
                            width = fields.0 j;
                            height = fields.1 j;
                            content = p;
                          })
                          answers.packets),
            n ∙ ap (λ m. (m + 1) % 2 ^ 32) fields.2,
            l
                ∙ ap (λ t. if due interval now e then now else t) fields.4
                ∙ either (due interval now e),
          )

      same_width : changed f d ≡ false → d.width ≡ f.width
      same_width o = ground (arith, ==_iff f.width d.width)

      same_height : changed f d ≡ false → d.height ≡ f.height
      same_height o = ground (arith, ==_iff f.height d.height)

      later :
          d.width ≡ f.width
          → d.height ≡ f.height
          → d.image ≡ some a
          → d.codec ≡ some b
          → let (r, t) = show interval now answers f d in
            (r ≡ ok tt)
            × (t.sds.outgoing
                ≡ d.sds.outgoing ++ map (frame_of (is_key interval now d) f) answers.packets)
            × (t.frame_count ≡ (d.frame_count + 1) % 2 ^ 32)
            × (t.last_keyframe ≡ (if due interval now d then now else d.last_keyframe))
      later pw ph i c =
          let (r, o, n, l) =
            show-sends interval now answers f d x xs a b w.encodes
              ((λ j. rgb_to_yuv f.pixels (pw j) (ph j)) ∙ y) i c s in
          (
            r,
            o
                ∙ (unfold packet_frame in
                    λ j.
                      d.sds.outgoing
                      ++ map
                          (λ p. record {
                            keyframe = is_key interval now d;
                            width = pw j;
                            height = ph j;
                            content = p;
                          })
                          answers.packets),
            n,
            l,
          )

-- ===== src/Display/Processor/Shows.antt =====
-- What the second half of `processFrame` in agent/server/display.go sends.
use droidmole.Base.{
  ℕ, ◌+◌, ◌%◌, ◌^◌, ◌≡◌, refl, ap, ◌∙◌, ◌==◌, Bool, true, false, not, ◌||◌, if◌then◌else◌, none,
  some, List, [], ◌∷◌, ◌++◌, map, append_assoc, append-nil, Bytes,
}
use droidmole.Go.{ok, lift, continue, bind-ok}
use droidmole.Grpc.{send-Delivers}
use droidmole.Server.{Frame}
use droidmole.Display.Yuv.{rgb_to_yuv}
use droidmole.Display.Processor.{
  DisplayFrame, Codec, Display, touch, send_frame, follow, read_image, marked, is_key, encode,
  packet_frame, send_packets, count, show, due,
}

-- No call of the codec fails.
pub record Works (c : Codec) : Type 0 where
  pub configures : c.default_error ≡ none
  pub starts : c.init_error ≡ none
  pub allocates : c.no_image ≡ false
  pub encodes : c.encode_fails ≡ false

-- What the client gets of one packet.
abbrev pub frame_of : Bool → Frame → Bytes → DisplayFrame
frame_of key f p = record { keyframe = key; width = f.width; height = f.height; content = p }

module _ {Req : Type 0} where
  abbrev pub changed : Frame → Display Req → Bool
  changed f d = not (f.width == d.width) || not (f.height == d.height)

  send_packets-Delivers :
      (key : Bool) (ps : List Bytes) (d : Display Req)
      → d.sds.sends ≡ []
      → send_packets key ps d ≡ (
        ok tt,
        record d {
          sds = record (d.sds) { outgoing = d.sds.outgoing ++ map (packet_frame key d) ps };
        },
      )
  unfolding send_packets send_frame
  send_packets-Delivers key [] d h = rw append-nil refl
  send_packets-Delivers key (p ∷ ps) d h = rw (send-Delivers (packet_frame key d p) d.sds h) (
      rw
        (send_packets-Delivers key ps
          (record d {
            sds = record (d.sds) { outgoing = d.sds.outgoing ++ packet_frame key d p ∷ [] };
          })
          h)
        (rw append_assoc (unfold packet_frame in refl)))

  -- The mark of a key frame changes no other field.
  marked-fields :
      (interval now : ℕ) (d : Display Req)
      → let e = marked interval now d in
        (e.image ≡ d.image)
        × (e.codec ≡ d.codec)
        × (e.width ≡ d.width)
        × (e.height ≡ d.height)
        × (e.frame_count ≡ d.frame_count)
        × (e.sds ≡ d.sds)
  unfolding marked
  marked-fields interval now d = go (due interval now d)
    where
      go :
          (b : Bool)
          → let e = if b then record d { last_keyframe = now } else d in
            (e.image ≡ d.image)
            × (e.codec ≡ d.codec)
            × (e.width ≡ d.width)
            × (e.height ≡ d.height)
            × (e.frame_count ≡ d.frame_count)
            × (e.sds ≡ d.sds)
      go true = (refl, refl, refl, refl, refl, refl)
      go false = (refl, refl, refl, refl, refl, refl)

  encode-touch :
      (e : Display Req) (a b : ℕ)
      → e.image ≡ some a
      → e.codec ≡ some b
      → encode false e ≡ (ok tt, touch a (touch b e))
  unfolding encode follow
  encode-touch e a b i c =
      (λ j. continue (follow (c j) e).0 (λ _ d. follow d.image d) (follow (c j) e).1)
      ∙ (λ j. follow (i j) (touch b e))

  -- From the conversion on, with an image and a context.
  pub show-sends :
      (interval now : ℕ) (answers : Codec) (f : Frame) (d : Display Req) (x : ℕ) (xs : Bytes)
      (a b : ℕ)
      → answers.encode_fails ≡ false
      → rgb_to_yuv f.pixels d.width d.height ≡ ok (x ∷ xs)
      → d.image ≡ some a
      → d.codec ≡ some b
      → d.sds.sends ≡ []
      → let (r, e) = show interval now answers f d in
        (r ≡ ok tt)
        × (e.sds.outgoing
            ≡ d.sds.outgoing ++ map (packet_frame (is_key interval now d) d) answers.packets)
        × (e.frame_count ≡ (d.frame_count + 1) % 2 ^ 32)
        × (e.last_keyframe ≡ (if due interval now d then now else d.last_keyframe))
  show-sends interval now answers f d x xs a b w y i c s = rw whole (refl, outgoing, counted, dated)
    where
      fields :
          let e = marked interval now (touch a d) in
          let d' = touch a d in
          (e.image ≡ d'.image)
          × (e.codec ≡ d'.codec)
          × (e.width ≡ d'.width)
          × (e.height ≡ d'.height)
          × (e.frame_count ≡ d'.frame_count)
          × (e.sds ≡ d'.sds)
      fields = marked-fields interval now (touch a d)

      seen : Display Req
      seen = marked interval now (touch a d)

      coded : Display Req
      coded = touch a (touch b seen)

      key : Bool
      key = is_key interval now (touch a d)

      final : Display Req
      final = record coded {
        sds = record (coded.sds) {
          outgoing = coded.sds.outgoing ++ map (packet_frame key coded) answers.packets;
        };
        frame_count = (coded.frame_count + 1) % 2 ^ 32;
      }

      whole : show interval now answers f d ≡ (ok tt, final)
      whole =
          unfold show count in
          bind-ok (lift (rgb_to_yuv f.pixels d.width d.height)) _ d d (x ∷ xs) (λ j. (y j, d))
          ∙ (bind-ok (read_image (x ∷ xs)) _ d (touch a d) tt
                (unfold read_image follow in λ j. follow (i j) d)
              ∙ (bind-ok (encode answers.encode_fails) _ seen coded tt (
                    rw w (
                      encode-touch seen a b (fields.0 ∙ unfold touch in i)
                        (fields.1 ∙ unfold touch in c)))
                  ∙ bind-ok (send_packets key answers.packets) _ coded _ tt (
                      send_packets-Delivers key answers.packets coded
                        (unfold touch in ap (λ t. t.sends) fields.5 ∙ s))))

      outgoing :
          final.sds.outgoing
          ≡ d.sds.outgoing ++ map (packet_frame (is_key interval now d) d) answers.packets
      outgoing = unfold touch is_key packet_frame in rw (fields.5, fields.2, fields.3) refl

      counted : final.frame_count ≡ (d.frame_count + 1) % 2 ^ 32
      counted = unfold touch in rw fields.4 refl

      dated : final.last_keyframe ≡ (if due interval now d then now else d.last_keyframe)
      dated = unfold touch marked in go (due interval now d)
        where
          go :
              (k : Bool)
              → (if k then record (touch a d) { last_keyframe = now } else touch a d).last_keyframe
                ≡ (if k then now else d.last_keyframe)
          go true = refl
          go false = unfold touch in refl

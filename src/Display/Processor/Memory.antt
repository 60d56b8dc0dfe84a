-- ===== src/Display/Processor/Memory.antt =====
-- The C memory of `displayProcessor` in agent/server/display.go: an image and a context at a time.
use droidmole.Base.{
  ℕ, ◌+◌, ◌<◌, ◌≡◌, ◌≢◌, refl, sym, ap, ◌∙◌, arith, ◌==◌, ==_iff, Bool, Bool-cases, true, false,
  not, ◌||◌, if◌then◌else◌, Option, none, some, inl, inr, List, [], ◌∷◌, Bytes,
}
use droidmole.Go.{Error, Result, ok, err, panic, Exec, lift, continue, ◌>>=◌, ◌>>◌}
use droidmole.Server.{Frame}
use droidmole.Display.Yuv.{rgb_to_yuv}
use droidmole.Display.Processor.{
  DisplayFrame, Codec, Display, is_freed, touch, free, free_both, send_frame, nil_error, new_codec,
  new_image, resize, resized, follow, read_image, marked, is_key, encode, packet_frame,
  send_packets, count, show, due,
}

module _ {Req : Type 0} where
  -- Both pointers are nil or stand for memory that is not freed, and for different memory.
  pub record Sound (d : Display Req) : Type 0 where
    pub clean : d.corrupt ≡ false
    pub image_lives : (a : ℕ) → d.image ≡ some a → (a < d.next) × (is_freed a d.freed ≡ false)
    pub codec_lives : (a : ℕ) → d.codec ≡ some a → (a < d.next) × (is_freed a d.freed ≡ false)
    pub apart : (a : ℕ) → d.image ≡ some a → d.codec ≢ some a
    pub below : (a : ℕ) → is_freed a d.freed ≡ true → a < d.next

  -- What is left of that where the pointers may be stale.
  pub record Clean (d : Display Req) : Type 0 where
    pub clean : d.corrupt ≡ false
    pub below : (a : ℕ) → is_freed a d.freed ≡ true → a < d.next

  free_both-Clean : (d : Display Req) → Sound d → Clean (free_both d)
  unfolding free_both free touch
  free_both-Clean d h = go d.image d.codec h.image_lives h.codec_lives h.apart
    where
      go :
          (i c : Option ℕ)
          → ((a : ℕ) → i ≡ some a → (a < d.next) × (is_freed a d.freed ≡ false))
          → ((a : ℕ) → c ≡ some a → (a < d.next) × (is_freed a d.freed ≡ false))
          → ((a : ℕ) → i ≡ some a → c ≢ some a)
          → Clean (free_both (record d { image = i; codec = c }))
      go none none hi hc ap' = record { clean = h.clean; below = h.below }
      go (some a) none hi hc ap' = record {
        clean = ground (arith, h.clean, hi a refl);
        below = λ b. ground (arith, h.below b, hi a refl, ==_iff b a);
      }
      go none (some a) hi hc ap' = record {
        clean = ground (arith, h.clean, hc a refl);
        below = λ b. ground (arith, h.below b, hc a refl, ==_iff b a);
      }
      go (some a) (some b) hi hc ap' = record {
        clean = ground (arith, h.clean, hi a refl, hc b refl, ==_iff b a, different a b ap');
        below = λ c. ground (arith, h.below c, hi a refl, hc b refl, ==_iff c a, ==_iff c b);
      }
        where
          different : (a b : ℕ) → ((c : ℕ) → some a ≡ some c → some b ≢ some c) → a ≢ b
          different a b k e = k a refl (ap (λ x. some x) (sym e))

  -- The action keeps the memory sound where it succeeds, and misuses none on any way out.
  abbrev pub Keeps : {A : Type 0} → Exec (Display Req) A → Type 0
  Keeps {A} m =
      (d : Display Req)
      → Sound d
      → ((a : A) → (m d).0 ≡ ok a → Sound (m d).1) × ((m d).1.corrupt ≡ false)

  pub Keeps-bind :
      {A B : Type 0} (m : Exec (Display Req) A) (f : A → Exec (Display Req) B)
      → Keeps m
      → ((a : A) → Keeps (f a))
      → Keeps (m >>= f)
  Keeps-bind {A} {B} m f hm hf d h = go (m d).0 (m d).1 (hm d h)
    where
      go :
          (r : Result A) (e : Display Req)
          → ((a : A) → r ≡ ok a → Sound e) × (e.corrupt ≡ false)
          → ((b : B) → (continue r f e).0 ≡ ok b → Sound (continue r f e).1)
            × ((continue r f e).1.corrupt ≡ false)
      go (ok a) e k = hf a e (k.0 a refl)
      go (err x) e k = ((λ b p. absurd (cc p)), k.1)
      go panic e k = ((λ b p. absurd (cc p)), k.1)

  Keeps-lift : {A : Type 0} (r : Result A) → Keeps (lift r)
  Keeps-lift r d h = ((λ a p. h), h.clean)

  -- A change of nothing but the other fields.
  Sound-as :
      (d e : Display Req)
      → Sound d
      → e.image ≡ d.image
      → e.codec ≡ d.codec
      → e.next ≡ d.next
      → e.freed ≡ d.freed
      → e.corrupt ≡ d.corrupt
      → Sound e
  Sound-as d e h pi pc pn pf pk = record {
    clean = pk ∙ h.clean;
    image_lives = rw (pi, pn, pf) h.image_lives;
    codec_lives = rw (pc, pn, pf) h.codec_lives;
    apart = rw (pi, pc) h.apart;
    below = rw (pn, pf) h.below;
  }

  Sound-touch : (d : Display Req) (a : ℕ) → Sound d → is_freed a d.freed ≡ false → Sound (touch a d)
  unfolding touch
  Sound-touch d a h e = record {
    clean = ground (arith, h.clean);
    image_lives = h.image_lives;
    codec_lives = h.codec_lives;
    apart = h.apart;
    below = h.below;
  }

  follow-Sound :
      (d : Display Req) (p : Option ℕ)
      → Sound d
      → ((a : ℕ) → p ≡ some a → is_freed a d.freed ≡ false)
      → ((t : Unit {0}) → (follow p d).0 ≡ ok t → Sound (follow p d).1)
        × ((follow p d).1.corrupt ≡ false)
  unfolding follow
  follow-Sound d none h k = ((λ t e. h), h.clean)
  follow-Sound d (some a) h k = let s = Sound-touch d a h (k a refl) in ((λ t e. s), s.clean)

  Keeps-image : Keeps {A = Unit} (λ d. follow d.image d)
  Keeps-image d h = follow-Sound d d.image h λ a e. (h.image_lives a e).1

  Keeps-codec : Keeps {A = Unit} (λ d. follow d.codec d)
  Keeps-codec d h = follow-Sound d d.codec h λ a e. (h.codec_lives a e).1

  Keeps-read_image : (content : Bytes) → Keeps (read_image content)
  unfolding read_image
  Keeps-read_image [] d h = ((λ t e. h), h.clean)
  Keeps-read_image (x ∷ xs) d h = Keeps-image d h

  Keeps-encode : (fails : Bool) → Keeps (encode fails)
  unfolding encode
  Keeps-encode true d h = ((λ t e. h), h.clean)
  Keeps-encode false d h =
      Keeps-bind (λ e. follow e.codec e) (λ _ e. follow e.image e) Keeps-codec (λ _. Keeps-image) d
        h

  Keeps-send_frame : (m : DisplayFrame) → Keeps (send_frame m)
  unfolding send_frame
  Keeps-send_frame m d h = ((λ t e. Sound-as d _ h refl refl refl refl refl), h.clean)

  Keeps-send_packets : (key : Bool) (ps : List Bytes) → Keeps (send_packets key ps)
  unfolding send_packets
  Keeps-send_packets key [] d h = ((λ t e. h), h.clean)
  Keeps-send_packets key (p ∷ ps) d h =
      Keeps-bind (send_frame (packet_frame key d p)) (λ _. send_packets key ps)
        (Keeps-send_frame (packet_frame key d p)) (λ _. Keeps-send_packets key ps) d h

  Sound-marked : (interval now : ℕ) (d : Display Req) → Sound d → Sound (marked interval now d)
  unfolding marked
  Sound-marked interval now d h = elim (Bool-cases (due interval now d)) [
    | inl passed ↦ rw passed (Sound-as d _ h refl refl refl refl refl)
    | inr early ↦ rw early h
  ]

  Keeps-count : Keeps (count {Req = Req})
  unfolding count
  Keeps-count d h = ((λ t e. Sound-as d _ h refl refl refl refl refl), h.clean)

  pub Keeps-show :
      (interval now : ℕ) (answers : Codec) (f : Frame) → Keeps (show interval now answers f)
  unfolding show
  Keeps-show interval now answers f d h =
      Keeps-bind (lift (rgb_to_yuv f.pixels d.width d.height)) _
        (Keeps-lift (rgb_to_yuv f.pixels d.width d.height))
        (λ content. Keeps-bind (read_image content) _ (Keeps-read_image content) λ _ e k.
          Keeps-bind (encode answers.encode_fails) _ (Keeps-encode answers.encode_fails)
            (λ _.
              Keeps-bind (send_packets (is_key interval now e) answers.packets) _
                (Keeps-send_packets (is_key interval now e) answers.packets) (λ _. Keeps-count))
            (marked interval now e) (Sound-marked interval now e k))
        d h

  -- A new context and a new image, whatever the old pointers are.
  fresh-Sound :
      (answers : Codec) (d : Display Req)
      → Clean d
      → let (r, e) =
          (do
            nil_error answers.default_error
            new_codec
            nil_error answers.init_error
            new_image answers.no_image)
            d in
        ((t : Unit {0}) → r ≡ ok t → Sound e) × (e.corrupt ≡ false)
  fresh-Sound answers d h = go answers.default_error answers.init_error answers.no_image
    where
      go :
          (x y : Option Error) (z : Bool)
          → let (r, e) = (do nil_error x; new_codec; nil_error y; new_image z) d in
            ((t : Unit {0}) → r ≡ ok t → Sound e) × (e.corrupt ≡ false)
      go (some x) y z = unfold nil_error in ((λ t e. absurd (cc e)), h.clean)
      go none (some y) z = unfold nil_error new_codec in ((λ t e. absurd (cc e)), h.clean)
      go none none true = unfold nil_error new_codec new_image in ((λ t e. absurd (cc e)), h.clean)
      go none none false = unfold nil_error new_codec new_image in ((λ t e. both), h.clean)
        where
          both :
              Sound
                (record d { codec = some d.next; image = some (d.next + 1); next = d.next + 1 + 1 })
          both = record {
            clean = h.clean;
            image_lives = λ a e. ground (arith, h.below a);
            codec_lives = λ a e. ground (arith, h.below a);
            apart = λ a e k. ground arith;
            below = λ a e. omega (arith, h.below a e);
          }

  pub Keeps-resized : (now : ℕ) (answers : Codec) (f : Frame) → Keeps (resized now answers f)
  unfolding resized resize
  Keeps-resized now answers f d h = go (not (f.width == d.width) || not (f.height == d.height))
    where
      sized : Display Req
      sized = record d { width = f.width; height = f.height; frame_count = 0; last_keyframe = now }

      go :
          (b : Bool)
          → ((t : Unit {0})
              → (if b then resize now answers f d else (ok tt, d)).0 ≡ ok t
              → Sound (if b then resize now answers f d else (ok tt, d)).1)
            × ((if b then resize now answers f d else (ok tt, d)).1.corrupt ≡ false)
      go true =
          fresh-Sound answers (free_both sized)
            (free_both-Clean sized (Sound-as d sized h refl refl refl refl refl))
      go false = ((λ t e. h), h.clean)

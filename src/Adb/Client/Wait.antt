-- ===== src/Adb/Client/Wait.antt =====
-- `WaitForEmulator` of agent/server/adb/client.go against the messages of the tracker.
use droidmole.Base.{
  ℕ, zero, suc, ◌^◌, ◌≤◌, ◌<◌, ◌≡◌, refl, ap, ◌≢◌, Bool, true, false, Option, none, some, List, [],
  ◌∷◌, ◌++◌, arith, if◌then◌else◌, length, All, length-append, Bytes, bytes,
}
use droidmole.Go.{Error, Result, ok, err, panic, pure, lift, continue, bind-ne-none, if-ne-none}
use droidmole.Net.{Conn, read_full}
use droidmole.Net.Laws.{arriving, sent, IsOpen, closed-close}
use droidmole.Adb.Dial.{Dial, refused, connected}
use droidmole.Adb.Raw
use droidmole.Adb.Raw.{shut}
use droidmole.Adb.Raw.Framing.{
  framed, read_hex_prefixed_blob-framed, incoming-read_hex_prefixed_blob, send_command_okay,
}
use droidmole.Adb.Raw.Hex.{format_04x, length-format_04x}
use droidmole.Adb.Client.{send_command, has_device, wait_loop, wait_on, wait_for_emulator}

-- A round for each byte that is still to come is enough: the loop never runs out of fuel.
wait_loop-ne-none :
    (fuel : ℕ) (c : Conn) → length c.incoming < fuel → (wait_loop fuel c).0 ≢ ok none
unfolding wait_loop
wait_loop-ne-none zero c h = absurd (omega arith)
wait_loop-ne-none (suc fuel) c h = bind-ne-none Raw.read_hex_prefixed_blob _ c λ msg d e.
    bind-ne-none (lift (has_device msg)) _ d λ found d' e'.
      if-ne-none found _ _ d' (λ p. cc)
        (rw (← ap (λ r. r.1) e')
          (wait_loop-ne-none fuel d (omega (arith, incoming-read_hex_prefixed_blob c d msg e))))

abbrev pub decided : Result Bool → Result (Option (Unit {0})) → Result (Option (Unit {0}))
decided (ok true) more = ok (some tt)
decided (ok false) more = more
decided (err e) more = err e
decided panic more = panic

-- The first message that does not leave the wait open decides; without one, the end of the stream.
abbrev pub verdict : Error → List Bytes → Result (Option (Unit {0}))
verdict ending [] = err ending
verdict ending (msg ∷ msgs) = decided (has_device msg) (verdict ending msgs)

abbrev pub frames : List Bytes → Bytes
frames [] = []
frames (msg ∷ msgs) = framed msg ++ frames msgs

abbrev pub IsShort : Bytes → Type 0
IsShort msg = length msg < 2 ^ 16

length-frames : (msgs : List Bytes) → All IsShort msgs → length msgs ≤ length (frames msgs)
length-frames [] h = omega arith
length-frames (msg ∷ msgs) h = omega (
  arith,
  length-append (framed msg) (frames msgs),
  length-append (format_04x (length msg)) msg,
  length-format_04x (length msg) h.0,
  length-frames msgs h.1,
)

wait_loop-frames :
    (msgs : List Bytes) (fuel : ℕ) (c : Conn)
    → c.closed ≡ false
    → All IsShort msgs
    → length msgs < fuel
    → (wait_loop fuel (arriving (frames msgs) c)).0 ≡ verdict c.ending msgs
unfolding wait_loop
wait_loop-frames msgs zero c h hs l = absurd (omega arith)
wait_loop-frames [] (suc fuel) c h hs l = unfold Raw.read_hex_prefixed_blob read_full in rw h
wait_loop-frames (msg ∷ msgs) (suc fuel) c h hs l =
    rw (read_hex_prefixed_blob-framed (frames msgs) c h msg hs.0)
      (go (has_device msg) (wait_loop-frames msgs fuel c h hs.1 (omega arith)))
  where
    go :
        (found : Result Bool)
        → (wait_loop fuel (arriving (frames msgs) c)).0 ≡ verdict c.ending msgs
        → (continue found
            (λ b. if b then pure (some tt) else wait_loop fuel)
            (arriving (frames msgs) c)).0
          ≡ decided found (verdict c.ending msgs)
    go (ok true) ih = refl
    go (ok false) ih = ih
    go (err e) ih = refl
    go panic ih = refl

-- On a working connection to a server that accepts the tracking and then sends messages below 2 ^ 16
-- bytes, the wait ends with what the first deciding message or the end of the stream says, and the
-- connection is closed on every way out, a panic included.
pub wait_for_emulator-verdict :
    (msgs : List Bytes) (c : Conn)
    → IsOpen c
    → All IsShort msgs
    → let (r, left) = wait_for_emulator (connected (arriving (bytes "OKAY" ++ frames msgs) c)) in
      (r ≡ verdict c.ending msgs) × (d : Conn) × (left ≡ some d) × (d.closed ≡ true)
unfolding wait_for_emulator send_command
wait_for_emulator-verdict msgs c h hs =
    let track = bytes "host:track-devices" in
    let tracked = sent (framed track) c in
    let waited = (wait_on (arriving (frames msgs) tracked)).1 in
    rw (send_command_okay track (frames msgs) c h) (
      wait_loop-frames msgs (suc (length (frames msgs))) tracked h.opened hs
          (omega (arith, length-frames msgs hs)),
      shut waited,
      refl,
      closed-close waited,
    )

-- However the connection behaves, the wait ends: its loop never runs out of fuel.
pub wait_for_emulator-ends : (dial : Dial) → (wait_for_emulator dial).0 ≢ ok none
unfolding wait_for_emulator
wait_for_emulator-ends (refused e) = λ h. cc
wait_for_emulator-ends (connected c) =
    bind-ne-none (send_command (bytes "host:track-devices")) _ c
      λ _ d e. wait_loop-ne-none (suc (length d.incoming)) d (omega arith)

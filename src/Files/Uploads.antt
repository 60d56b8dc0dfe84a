-- ===== src/Files/Uploads.antt =====
-- The push of agent/server/sync/sync.go from end to end.
use droidmole.Base.{
  ℕ, zero, suc, ◌<◌, ◌≤◌, ◌≡◌, refl, ap, ◌∙◌, some, List, [], ◌∷◌, ◌++◌, map, length, All, Bytes,
  bytes, put_u32, arith,
}
use droidmole.Go.{text, Result, ok, err, pure, continue}
use droidmole.Net.{Conn}
use droidmole.Net.Laws.{arriving, sent, IsOpen}
use droidmole.Adb.Dial.{connected}
use droidmole.Adb.Raw.{shut}
use droidmole.Adb.Raw.Framing.{IsOpen-arriving}
use droidmole.Adb.Sync
use droidmole.Adb.Sync.Packets.{
  id_data, id_done, id_fail, id_okay, max_data, blob_header, push_packet,
}
use droidmole.Adb.Sync.Handshake.{accepted, ready, open_emulator-okay, sync-okay, request-okay}
use droidmole.Adb.Sync.Streams.{send-IsOpen, done_answers}
use droidmole.Protocol.{PushFileRequest, start, chunk, end}
use droidmole.Grpc.{Stream, receive-cons}
use droidmole.Files.{with_stream, push_step, push_loop, push_all, push_from, push_first, push_file}
use droidmole.Files.Transfers.{IsSized}

-- What the device gets of the blobs, one packet each.
abbrev pub pushed : List Bytes → Conn → Conn
pushed [] c = c
pushed (blob ∷ blobs) c = pushed blobs (sent blob (sent (blob_header id_data blob) c))

abbrev pub IsSmall : Bytes → Type 0
IsSmall blob = length blob ≤ max_data

pushed-arriving :
    (blobs : List Bytes) (xs : Bytes) (c : Conn)
    → pushed blobs (arriving xs c) ≡ arriving xs (pushed blobs c)
pushed-arriving [] xs c = refl
pushed-arriving (blob ∷ blobs) xs c =
    pushed-arriving blobs xs (sent blob (sent (blob_header id_data blob) c))

IsOpen-pushed : (blobs : List Bytes) (c : Conn) → IsOpen c → IsOpen (pushed blobs c)
IsOpen-pushed [] c h = h
IsOpen-pushed (blob ∷ blobs) c h =
    IsOpen-pushed blobs (sent blob (sent (blob_header id_data blob) c))
      (record { opened = h.opened; unbroken = h.unbroken })

-- The requests of a client that pushes a file.
abbrev pub upload : List Bytes → ℕ → List PushFileRequest
upload blobs mtime = map chunk blobs ++ end mtime ∷ []

-- The loop puts every blob on the connection, and ends as the receipt says.
push_loop-upload :
    {Resp : Type 0} (blobs : List Bytes) (mtime fuel : ℕ) (c d : Conn)
    (p : Stream PushFileRequest Resp) (r : Result (Unit {0}))
    → IsOpen c
    → All IsSmall blobs
    → length blobs < fuel
    → Sync.done mtime (pushed blobs c) ≡ (r, d)
    → push_loop fuel (record { conn = c; peer = record p { incoming = upload blobs mtime } })
      ≡ continue r (λ _. pure (some tt)) (record { conn = d; peer = record p { incoming = [] } })
unfolding push_loop push_step
push_loop-upload blobs mtime zero c d p r h hs l e = absurd (omega arith)
push_loop-upload [] mtime (suc fuel) c d p r h hs l e = rw (receive-cons (end mtime) [] p) (rw e)
push_loop-upload (blob ∷ blobs) mtime (suc fuel) c d p r h hs l e =
    rw (receive-cons (chunk blob) (upload blobs mtime) p) (
      rw (send-IsOpen blob c h hs.0) (
        push_loop-upload blobs mtime fuel (sent blob (sent (blob_header id_data blob) c)) d p r
          (record { opened = h.opened; unbroken = h.unbroken }) hs.1 (omega arith) e))

push_file-stream :
    (path rest : Bytes) (mode : ℕ) (c : Conn)
    → IsOpen c
    → Sync.push_file path mode (connected (arriving (accepted rest) c))
      ≡ (ok tt, some (arriving rest (sent (push_packet path mode) (ready c))))
unfolding Sync.push_file
push_file-stream path rest mode c h =
    rw (open_emulator-okay (bytes "OKAY" ++ rest) c h)
      (rw (sync-okay rest c h) (rw (request-okay rest c h (push_packet path mode))))

length-upload : (blobs : List Bytes) (mtime : ℕ) → length (upload blobs mtime) ≡ suc (length blobs)
length-upload [] mtime = refl
length-upload (blob ∷ blobs) mtime = ap suc (length-upload blobs mtime)

-- A push of blobs of at most `max_data` bytes to a device that accepts both commands over a working
-- connection and then sends a receipt with a message of less than 2 ^ 32 bytes. The device gets the
-- requests, each blob as one packet, in order, the modification time, and nothing else. On the
-- receipt OKAY the push succeeds, on FAIL it returns the message; the connection is closed, and the
-- client's requests are used up.
pub push_file-upload :
    {Resp : Type 0} (path msg rest : Bytes) (mode mtime : ℕ) (blobs : List Bytes) (c : Conn)
    (p : Stream PushFileRequest Resp)
    → IsOpen c
    → All IsSmall blobs
    → IsSized msg
    → let got = pushed blobs (sent (push_packet path mode) (ready c)) in
      let left = shut (shut (arriving rest (sent (put_u32 id_done ++ put_u32 mtime) got))) in
      let asked = record p { incoming = start path mode ∷ upload blobs mtime } in
      (push_file
          (connected (arriving (accepted (blob_header id_okay msg ++ (msg ++ rest))) c))
          asked
        ≡ (ok (some tt), some left, record p { incoming = [] }))
      × (push_file
            (connected (arriving (accepted (blob_header id_fail msg ++ (msg ++ rest))) c))
            asked
          ≡ (err (text msg), some left, record p { incoming = [] }))
unfolding push_file push_first push_from with_stream push_all
push_file-upload path msg rest mode mtime blobs c p h hs sized =
    let c1 = sent (push_packet path mode) (ready c) in
    let got = pushed blobs c1 in
    let h1 : IsOpen c1 = record { opened = h.opened; unbroken = h.unbroken } in
    let body : ℕ → Bytes = λ id. blob_header id msg ++ (msg ++ rest) in
    let answers = done_answers mtime msg rest got (IsOpen-pushed blobs c1 h1) sized in
    let fits : length blobs < suc (length (upload blobs mtime)) =
      omega (arith, length-upload blobs mtime) in
    (
      rw (receive-cons (start path mode) (upload blobs mtime) p) (
          rw (push_file-stream path (body id_okay) mode c h) (
            rw (
              push_loop-upload blobs mtime (suc (length (upload blobs mtime)))
                (arriving (body id_okay) c1) _ p (ok tt) (IsOpen-arriving (body id_okay) c1 h1) hs
                fits (pushed-done (body id_okay) c1 answers.0)))),
      rw (receive-cons (start path mode) (upload blobs mtime) p) (
          rw (push_file-stream path (body id_fail) mode c h) (
            rw (
              push_loop-upload blobs mtime (suc (length (upload blobs mtime)))
                (arriving (body id_fail) c1) _ p (err (text msg))
                (IsOpen-arriving (body id_fail) c1 h1) hs fits
                (pushed-done (body id_fail) c1 answers.1)))),
    )
  where
    pushed-done :
        (xs : Bytes) (c1 : Conn) {r : Result (Unit {0})} {d : Conn}
        → Sync.done mtime (arriving xs (pushed blobs c1)) ≡ (r, d)
        → Sync.done mtime (pushed blobs (arriving xs c1)) ≡ (r, d)
    pushed-done xs c1 e = ap (Sync.done mtime) (pushed-arriving blobs xs c1) ∙ e

-- ===== src/Files/Transfers.antt =====
-- The transfers of agent/server/sync/sync.go from end to end: the device's side of the connection and
-- the client's side of the stream.
use droidmole.Base.{
  ℕ, zero, suc, ◌<◌, ◌≤◌, ◌≡◌, false, some, List, [], ◌∷◌, ◌++◌, map, append_assoc, append-nil,
  length, length-append, All, Bytes, bytes, IsU32, arith,
}
use droidmole.Go.{text, ok, err}
use droidmole.Net.{Conn}
use droidmole.Net.Laws.{arriving, sent, IsOpen}
use droidmole.Adb.Dial.{connected}
use droidmole.Adb.Raw.{shut}
use droidmole.Adb.Sync
use droidmole.Adb.Sync.Packets.{id_data, id_done, id_fail, blob_header, pull_packet}
use droidmole.Adb.Sync.Handshake.{accepted, ready, open_emulator-okay, sync-okay, request-okay}
use droidmole.Adb.Sync.Streams.{recv-data, recv-done, recv-fail}
use droidmole.Protocol.{PullFileResponse}
use droidmole.Grpc.{Stream, Delivers, send-Delivers}
use droidmole.Files.{with_stream, piece, last_piece, pull_step, pull_loop, pull_all, pull_file}

-- The data packets of the device, and what follows them.
abbrev pub packets : List Bytes → Bytes → Bytes
packets [] tail = tail
packets (blob ∷ blobs) tail = blob_header id_data blob ++ (blob ++ packets blobs tail)

abbrev pub IsSized : Bytes → Type 0
IsSized blob = IsU32 (length blob)

length-packets : (blobs : List Bytes) (tail : Bytes) → length blobs ≤ length (packets blobs tail)
length-packets [] tail = omega arith
length-packets (blob ∷ blobs) tail =
    omega (arith, length-append blob (packets blobs tail), length-packets blobs tail)

-- Responses that the client gets.
abbrev pub delivered : {In Out : Type 0} → List Out → Stream In Out → Stream In Out
delivered ms p = record p { outgoing = p.outgoing ++ ms }

module _ {Req : Type 0} (c : Conn) (opened : c.closed ≡ false) (msg rest : Bytes)
    (sized : IsSized msg) where
  pull_loop-done :
      (blobs : List Bytes) (fuel : ℕ) (p : Stream Req PullFileResponse)
      → Delivers p
      → All IsSized blobs
      → length blobs < fuel
      → pull_loop fuel (record {
        conn = arriving (packets blobs (blob_header id_done msg ++ (msg ++ rest))) c;
        peer = p;
      })
        ≡ (
          ok (some tt),
          record {
            conn = shut (arriving rest c);
            peer = delivered (map piece blobs ++ last_piece ∷ []) p;
          },
        )
  unfolding pull_loop pull_step
  pull_loop-done blobs zero p d h l = absurd (omega arith)
  pull_loop-done [] (suc fuel) p d h l =
      rw (recv-done rest c opened msg sized) (rw (send-Delivers last_piece p d))
  pull_loop-done (blob ∷ blobs) (suc fuel) p d h l =
      rw (recv-data (packets blobs (blob_header id_done msg ++ (msg ++ rest))) c opened blob h.0) (
        rw (send-Delivers (piece blob) p d) (
          rw (pull_loop-done blobs fuel (delivered (piece blob ∷ []) p) d h.1 (omega arith))
            (rw append_assoc)))

  pull_loop-fail :
      (blobs : List Bytes) (fuel : ℕ) (p : Stream Req PullFileResponse)
      → Delivers p
      → All IsSized blobs
      → length blobs < fuel
      → pull_loop fuel (record {
        conn = arriving (packets blobs (blob_header id_fail msg ++ (msg ++ rest))) c;
        peer = p;
      })
        ≡ (
          err (text msg),
          record { conn = shut (arriving rest c); peer = delivered (map piece blobs) p },
        )
  unfolding pull_loop pull_step
  pull_loop-fail blobs zero p d h l = absurd (omega arith)
  pull_loop-fail [] (suc fuel) p d h l = rw (recv-fail rest c opened msg sized) (rw append-nil)
  pull_loop-fail (blob ∷ blobs) (suc fuel) p d h l =
      rw (recv-data (packets blobs (blob_header id_fail msg ++ (msg ++ rest))) c opened blob h.0) (
        rw (send-Delivers (piece blob) p d) (
          rw (pull_loop-fail blobs fuel (delivered (piece blob ∷ []) p) d h.1 (omega arith))
            (rw append_assoc)))

-- The stream that adb opens.
pull_file-stream :
    (path rest : Bytes) (c : Conn)
    → IsOpen c
    → Sync.pull_file path (connected (arriving (accepted rest) c))
      ≡ (ok tt, some (arriving rest (sent (pull_packet path) (ready c))))
unfolding Sync.pull_file
pull_file-stream path rest c h =
    rw (open_emulator-okay (bytes "OKAY" ++ rest) c h)
      (rw (sync-okay rest c h) (rw (request-okay rest c h (pull_packet path))))

-- A pull from a device that accepts both commands over a working connection, and then sends blobs
-- of less than 2 ^ 32 bytes, to a client that gets every response. If the device ends with DONE, the
-- client gets each blob as one response, in order, and then the last response, and the pull succeeds.
-- If it ends with FAIL, the client gets the blobs and the pull returns the message. Nothing but the
-- requests is written, and the connection is closed.
pub pull_file-packets :
    {Req : Type 0} (path msg rest : Bytes) (blobs : List Bytes) (c : Conn)
    (p : Stream Req PullFileResponse)
    → IsOpen c
    → Delivers p
    → All IsSized blobs
    → IsSized msg
    → let left = shut (shut (arriving rest (sent (pull_packet path) (ready c)))) in
      (pull_file path
          (connected
            (arriving (accepted (packets blobs (blob_header id_done msg ++ (msg ++ rest)))) c))
          p
        ≡ (ok (some tt), some left, delivered (map piece blobs ++ last_piece ∷ []) p))
      × (pull_file path
            (connected
              (arriving (accepted (packets blobs (blob_header id_fail msg ++ (msg ++ rest)))) c))
            p
          ≡ (err (text msg), some left, delivered (map piece blobs) p))
unfolding pull_file with_stream pull_all
pull_file-packets path msg rest blobs c p h deliver hs sized =
    let asked = sent (pull_packet path) (ready c) in
    let body : ℕ → Bytes = λ id. packets blobs (blob_header id msg ++ (msg ++ rest)) in
    (
      rw (pull_file-stream path (body id_done) c h) (
          rw (
            pull_loop-done asked h.opened msg rest sized blobs (suc (length (body id_done))) p
              deliver hs
              (omega (arith, length-packets blobs (blob_header id_done msg ++ (msg ++ rest)))))),
      rw (pull_file-stream path (body id_fail) c h) (
          rw (
            pull_loop-fail asked h.opened msg rest sized blobs (suc (length (body id_fail))) p
              deliver hs
              (omega (arith, length-packets blobs (blob_header id_fail msg ++ (msg ++ rest)))))),
    )

-- ===== src/Client/Files/Transfers.antt =====
-- A file on its whole way between a client of agent/client/sync and the device, through
-- agent/server/sync.
use droidmole.Base.{
  ℕ, suc, ◌≡◌, refl, ap, ◌∙◌, true, false, some, none, List, [], ◌∷◌, ◌++◌, map, length, All, Bytes,
  put_u32,
}
use droidmole.Go.{ok}
use droidmole.Net.{Conn}
use droidmole.Net.Laws.{arriving, sent, IsOpen}
use droidmole.Adb.Dial.{connected}
use droidmole.Adb.Raw.{shut}
use droidmole.Adb.Sync.Packets.{id_done, id_okay, blob_header, push_packet}
use droidmole.Adb.Sync.Handshake.{accepted, ready}
use droidmole.Protocol.{PullFileResponse, IsPullWire, PushFileRequest, start}
use droidmole.Grpc.{Stream, Delivers}
use droidmole.Files
use droidmole.Files.{piece, last_piece}
use droidmole.Files.Transfers.{packets, IsSized, delivered, pull_file-packets}
use droidmole.Files.Uploads.{pushed, IsSmall, upload, push_file-upload}
use droidmole.Client.Files.{PushStream, push_file}
use droidmole.Client.Files.Views.{recv_times, reading, seen, recv-pieces, send_all, client_pushes}

-- A file of the device at the client. The device accepts both commands over a working connection, and
-- sends blobs shorter than 2 ^ 32 bytes and the end; the agent's responses are all delivered, and the
-- client gets them as package proto decodes them. Then the pull succeeds, and the client gets the blobs,
-- one for each Recv and in order, and then the end; a blob of no bytes comes as nil, like the end.
pub client_pulls :
    {Req In : Type 0} (deliver : PullFileResponse → PullFileResponse) (path msg rest : Bytes)
    (blobs : List Bytes) (c : Conn) (p : Stream In PullFileResponse)
    (s : Stream PullFileResponse Req)
    → IsPullWire deliver
    → IsOpen c
    → Delivers p
    → p.outgoing ≡ []
    → All IsSized blobs
    → IsSized msg
    → let served =
        Files.pull_file path
          (connected
            (arriving (accepted (packets blobs (blob_header id_done msg ++ (msg ++ rest)))) c))
          p in
      (served.0 ≡ ok (some tt))
      × (recv_times (suc (length blobs)) (reading (map deliver served.2.outgoing) false s)
          ≡ (ok (map seen blobs ++ none ∷ []), reading [] true s))
client_pulls deliver path msg rest blobs c p s w h delivers empty hs sized =
    let e = (pull_file-packets path msg rest blobs c p h delivers hs sized).0 in
    let heard = λ (l : List PullFileResponse).
      recv_times (suc (length blobs)) (reading (map deliver l) false s) in
    (
      ap (λ t. t.0) e,
      ap (λ t. heard t.2.outgoing) e
          ∙ ap (λ l. heard (l ++ (map piece blobs ++ last_piece ∷ []))) empty
          ∙ (recv-pieces deliver blobs s w).0,
    )

-- A file of the client at the device. The client opens a push, sends blobs of at most `max_data` bytes
-- and ends, over a stream that delivers every request, and the agent gets these requests. The device
-- accepts both commands over a working connection and sends the receipt OKAY with a message shorter
-- than 2 ^ 32 bytes. Then every call succeeds, the client's side is closed, and the device has got the
-- requests, each blob as one packet in order, the modification time, and nothing else.
pub client_uploads :
    {In Resp : Type 0} (path msg rest : Bytes) (mode mtime : ℕ) (blobs : List Bytes) (c : Conn)
    (p : Stream PushFileRequest Resp) (s : Stream In PushFileRequest)
    → IsOpen c
    → Delivers s
    → s.outgoing ≡ []
    → All IsSmall blobs
    → IsSized msg
    → (q : PushStream In) × (t : PushStream In) × (push_file (ok s) path mode ≡ ok q)
      × (send_all blobs mtime q ≡ (ok tt, t))
      × (t.send_closed ≡ true)
      × (Files.push_file
            (connected (arriving (accepted (blob_header id_okay msg ++ (msg ++ rest))) c))
            (record p { incoming = t.server.outgoing })
          ≡ (
            ok (some tt),
            some (
                shut (
                  shut (
                    arriving rest (
                      sent
                        (put_u32 id_done ++ put_u32 mtime)
                        (pushed blobs (sent (push_packet path mode) (ready c))))))),
            record p { incoming = [] },
          ))
client_uploads {In} path msg rest mode mtime blobs c p s h deliver empty hs sized =
    let (q, opens, sends) = client_pushes path mode mtime blobs s deliver in
    let t : PushStream In = record {
      server = delivered (start path mode ∷ upload blobs mtime) s;
      send_closed = true;
    } in
    (
      q,
      t,
      opens,
      sends,
      refl,
      ap
            (λ l.
              Files.push_file
                (connected (arriving (accepted (blob_header id_okay msg ++ (msg ++ rest))) c))
                (record p { incoming = l ++ (start path mode ∷ upload blobs mtime) }))
            empty
          ∙ (push_file-upload path msg rest mode mtime blobs c p h hs sized).0,
    )

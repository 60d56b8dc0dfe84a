-- ===== src/Files/Tests.antt =====
-- The theorems about agent/server/sync/sync.go at concrete inputs.
use droidmole.Base.{
  ℕ, ◌≡◌, refl, ◌≢◌, ◌++◌, some, none, List, [], ◌∷◌, map, arith, Bytes, bytes, put_u32,
}
use droidmole.Go.{eof, text, ok, err}
use droidmole.Net.Laws.{arriving, sent}
use droidmole.Net.Samples.{line, line-IsOpen}
use droidmole.Adb.Dial.{connected}
use droidmole.Adb.Raw.{shut}
use droidmole.Adb.Sync.Packets.{id_done, id_fail, id_okay, blob_header, pull_packet, push_packet}
use droidmole.Adb.Sync.Handshake.{accepted, ready}
use droidmole.Protocol.{PushFileRequest, start}
use droidmole.Grpc.{Stream}
use droidmole.Files.{piece, last_piece, pull_file, push_file}
use droidmole.Files.Transfers.{packets, delivered, pull_file-packets}
use droidmole.Files.Uploads.{pushed, upload, push_file-upload}
use droidmole.Files.Endings.{LeavesClosed, transfers_end, transfers_leave_closed}

abbrev blobs : List Bytes
blobs = bytes "one" ∷ bytes "two" ∷ []

-- A client of which nothing more comes.
abbrev silent : {In Out : Type 0} → Stream In Out
silent = record { incoming = []; ending = eof; outgoing = []; sends = [] }

abbrev path : Bytes
path = bytes "/x"

abbrev why : Bytes
why = bytes "why"

pull_file-packets_example :
    let left = shut (shut (arriving [] (sent (pull_packet path) (ready line)))) in
    (pull_file {Req = ℕ} path
        (connected
          (arriving (accepted (packets blobs (blob_header id_done why ++ (why ++ [])))) line))
        silent
      ≡ (ok (some tt), some left, delivered (map piece blobs ++ last_piece ∷ []) silent))
    × (pull_file {Req = ℕ} path
          (connected
            (arriving (accepted (packets blobs (blob_header id_fail why ++ (why ++ [])))) line))
          silent
        ≡ (err (text why), some left, delivered (map piece blobs) silent))
pull_file-packets_example =
    pull_file-packets path why [] blobs line silent line-IsOpen refl
      (omega arith, (omega arith, tt)) (omega arith)

push_file-upload_example :
    let got = pushed blobs (sent (push_packet path 420) (ready line)) in
    let left = shut (shut (arriving [] (sent (put_u32 id_done ++ put_u32 9) got))) in
    let asked = record (silent {In = PushFileRequest} {Out = ℕ}) {
      incoming = start path 420 ∷ upload blobs 9;
    } in
    (push_file (connected (arriving (accepted (blob_header id_okay why ++ (why ++ []))) line)) asked
      ≡ (
        ok (some tt),
        some left,
        record (silent {In = PushFileRequest} {Out = ℕ}) { incoming = [] },
      ))
    × (push_file
          (connected (arriving (accepted (blob_header id_fail why ++ (why ++ []))) line))
          asked
        ≡ (
          err (text why),
          some left,
          record (silent {In = PushFileRequest} {Out = ℕ}) { incoming = [] },
        ))
push_file-upload_example =
    push_file-upload path why [] 420 9 blobs line silent line-IsOpen
      (omega arith, (omega arith, tt)) (omega arith)

transfers_end_example :
    ((pull_file {Req = ℕ} path (connected line) silent).0 ≢ ok none)
    × ((push_file {Resp = ℕ} (connected line) silent).0 ≢ ok none)
transfers_end_example = transfers_end path (connected line) silent silent

transfers_leave_closed_example :
    LeavesClosed (pull_file {Req = ℕ} path (connected line) silent)
    × LeavesClosed (push_file {Resp = ℕ} (connected line) silent)
transfers_leave_closed_example = transfers_leave_closed path (connected line) silent silent

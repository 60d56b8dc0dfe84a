-- ===== src/Client/Tests.antt =====
-- The theorems about agent/client at concrete inputs.
use droidmole.Base.{
  is_utf8, all_utf8, Option, if◌then◌else◌, inl, inr, format_d, ℕ, suc, ◌≡◌, refl, ◌++◌, true,
  false, some, none, List, [], ◌∷◌, map, replicate, length, arith, Bytes, bytes, put_u32,
}
use droidmole.Go.{Error, Result, eof, text, ok, err}
use droidmole.Net.Laws.{arriving, sent}
use droidmole.Net.Samples.{line, line-IsOpen}
use droidmole.Adb.Dial.{connected}
use droidmole.Adb.Raw.{shut}
use droidmole.Adb.Sync.Packets
use droidmole.Adb.Sync.Packets.{id_done, id_okay, blob_header, push_packet, IsFileStat}
use droidmole.Adb.Sync.Handshake.{accepted, ready}
use droidmole.Adb.Sync.Listing.{wire, IsEntry}
use droidmole.Protocol
use droidmole.Protocol.{
  IsPullWire, IsListWire, PullFileResponse, PushFileRequest, start, stat_error,
}
use droidmole.Grpc.{Stream}
use droidmole.Files
use droidmole.Files.{piece, last_piece}
use droidmole.Files.Transfers.{packets as sends}
use droidmole.Files.Uploads.{pushed}
use droidmole.Client.Files.Transfers.{client_pulls, client_uploads}
use droidmole.Shell.{Turn, reads_response, takes_response, opened, run}
use droidmole.Shell.Pending.{wires}
use droidmole.Client.Shell.{Output}
use droidmole.Client.Shell.Hears.{recv_times as recv_many, hearing, seen, shell_output_arrives}
use droidmole.Client.Shell.Types.{
  Act, types, closes, sizes, act_all, handle_all, request_of, packets, asked, wrote,
  typed_reaches_device,
}
use droidmole.Client.Files.{list_directory, stat_file, PushStream, push_file}
use droidmole.Client.Files.Views.{
  same_entry, recv_times, reading, seen as received, send_all, client_lists,
}

abbrev blobs : List Bytes
blobs = bytes "one" ∷ bytes "two" ∷ []

abbrev silent : {In Out : Type 0} → Stream In Out
silent = record { incoming = []; ending = eof; outgoing = []; sends = [] }

abbrev path : Bytes
path = bytes "/x"

stat_failed : stat_file (ok (stat_error 130)) ≡ err (text (bytes "stat failed: 130"))
unfolding stat_file format_d
stat_failed = refl

abbrev stat : Packets.FileStat
stat = record {
  dev = 1;
  ino = 2;
  file_mode = 3;
  nlink = 4;
  uid = 5;
  gid = 6;
  size = 7;
  atime = 8;
  mtime = 9;
  ctime = 10;
}

abbrev entry : Packets.ListDirectoryEntry
entry = record { name = bytes "entry_1"; stat_error = 0; stat = stat }

entry-IsEntry : IsEntry entry
entry-IsEntry = record {
  name_fits = omega arith;
  error_fits = omega arith;
  stat_fits = record {
    dev_fits = omega arith;
    ino_fits = omega arith;
    mode_fits = omega arith;
    nlink_fits = omega arith;
    uid_fits = omega arith;
    gid_fits = omega arith;
    size_fits = omega arith;
    atime_fits = omega arith;
    mtime_fits = omega arith;
    ctime_fits = omega arith;
  };
}

-- A client's end of the wire, as package proto has it.
abbrev serve_list : List Protocol.ListDirectoryEntry → Result (List Protocol.ListDirectoryEntry)
serve_list ms = if all_utf8 (map (λ m. m.name) ms) then ok ms else err eof

serve_list-IsListWire : IsListWire serve_list
serve_list-IsListWire = record { delivers = λ ms h. rw h refl; refuses = λ ms h. (eof, rw h refl) }

-- "é", and its first byte alone.
accents : (is_utf8 (195 ∷ 169 ∷ []) ≡ true) × (is_utf8 (195 ∷ []) ≡ false)
unfolding is_utf8
accents = (refl, refl)

client_lists_example :
    let answer = Files.list_directory path (
      connected
        (arriving (accepted (wire (entry ∷ []) (put_u32 id_done ++ replicate 72 0 ++ []))) line)) in
    (ms : List Protocol.ListDirectoryEntry) × (answer.0 ≡ ok (some ms))
    × (all_utf8 (map (λ e. e.name) (entry ∷ [])) ≡ true
        → list_directory (serve_list ms) ≡ ok (map same_entry (entry ∷ [])))
    × (all_utf8 (map (λ e. e.name) (entry ∷ [])) ≡ false
        → (x : Error) × (list_directory (serve_list ms) ≡ err x))
client_lists_example =
    client_lists serve_list path (replicate 72 0) [] (entry ∷ []) line serve_list-IsListWire
      line-IsOpen refl (entry-IsEntry, tt)

abbrev data_of : Option Bytes → Option Bytes
data_of none = none
data_of (some []) = none
data_of (some (x ∷ xs)) = some (x ∷ xs)

abbrev decoded : PullFileResponse → PullFileResponse
decoded r = record { content = data_of r.content; last = r.last }

decoded-IsPullWire : IsPullWire decoded
decoded-IsPullWire = record {
  keeps = λ x xs last. refl;
  empties = λ last. refl;
  nils = λ last. refl;
}

abbrev why : Bytes
why = bytes "ok"

client_pulls_example :
    let served =
      Files.pull_file path
        (connected
          (arriving (accepted (sends blobs (blob_header id_done why ++ (why ++ [])))) line))
        (silent {In = ℕ}) in
    (served.0 ≡ ok (some tt))
    × (recv_times
          (suc (length blobs))
          (reading (map decoded served.2.outgoing) false (silent {Out = ℕ}))
        ≡ (ok (map received blobs ++ none ∷ []), reading [] true silent))
client_pulls_example =
    client_pulls decoded path why [] blobs line silent silent decoded-IsPullWire line-IsOpen refl
      refl (omega arith, (omega arith, tt)) (omega arith)

client_uploads_example :
    (q : PushStream ℕ) × (t : PushStream ℕ) × (push_file (ok silent) path 420 ≡ ok q)
    × (send_all blobs 9 q ≡ (ok tt, t))
    × (t.send_closed ≡ true)
    × (Files.push_file
          (connected (arriving (accepted (blob_header id_okay why ++ (why ++ []))) line))
          (record (silent {In = PushFileRequest} {Out = ℕ}) { incoming = t.server.outgoing })
        ≡ (
          ok (some tt),
          some (
              shut (
                shut (
                  arriving [] (
                    sent
                      (put_u32 id_done ++ put_u32 9)
                      (pushed blobs (sent (push_packet path 420) (ready line))))))),
          record (silent {In = PushFileRequest} {Out = ℕ}) { incoming = [] },
        ))
client_uploads_example =
    client_uploads path why [] 420 9 blobs line silent silent line-IsOpen refl refl
      (omega arith, (omega arith, tt)) (omega arith)

abbrev outputs : List Output
outputs =
    record { on_err = false; content = bytes "hi" }
    ∷ record { on_err = true; content = bytes "no" }
    ∷ []

abbrev packets_out : List (ℕ × Bytes)
packets_out = (1, bytes "hi") ∷ (2, bytes "no") ∷ []

abbrev turns : List Turn
turns = reads_response ∷ takes_response ∷ reads_response ∷ []

shell_output_arrives_example :
    (taken : List (ℕ × Bytes)) × (rest : List (ℕ × Bytes)) × (packets_out ≡ taken ++ rest)
    × (recv_many (length (map seen taken)) (
          hearing
            (map some (run turns (opened (arriving (wires packets_out) line) silent)).peer.outgoing)
            silent)
        ≡ (ok (map some (map seen taken)), hearing [] silent))
shell_output_arrives_example =
    shell_output_arrives turns packets_out line silent silent
      ((inl refl, omega arith), ((inr refl, omega arith), tt)) refl

abbrev acts : List Act
acts = types (bytes "ls") ∷ types [] ∷ sizes 24 80 640 480 ∷ closes ∷ []

typed_reaches_device_example :
    (act_all acts (hearing [] silent) ≡ (ok tt, asked (map request_of acts) (hearing [] silent)))
    × (handle_all (map request_of acts) (opened line silent)
        ≡ (ok tt, wrote (packets acts) (opened line silent)))
unfolding opened
typed_reaches_device_example =
    typed_reaches_device acts (hearing [] silent) (opened line silent) refl line-IsOpen

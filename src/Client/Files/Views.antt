-- ===== src/Client/Files/Views.antt =====
-- What a client of agent/client/sync sees of the device's files, through agent/server/sync.
use droidmole.Base.{
  ap, ◌∙◌, all_utf8, ℕ, zero, suc, ◌≡◌, refl, arith, ◌==◌, Bool, true, false, if◌then◌else◌, Option,
  none, some, List, [], ◌∷◌, ◌++◌, map, append_assoc, length, All, Bytes, put_u32,
}
use droidmole.Go.{Error, Result, err, ok, Exec, pure, ◌>>=◌, ◌>>◌}
use droidmole.Net.{Conn}
use droidmole.Net.Laws.{arriving, IsOpen}
use droidmole.Adb.Dial.{connected}
use droidmole.Adb.Sync.Packets
use droidmole.Adb.Sync.Packets.{id_done}
use droidmole.Adb.Sync.Handshake.{accepted}
use droidmole.Adb.Sync.Listing.{wire, IsEntry, list_directory-wire}
use droidmole.Protocol
use droidmole.Protocol.{
  Stat, stat_error, stat_value, PullFileResponse, IsPullWire, IsListWire, PushFileRequest, start,
  chunk, end,
}
use droidmole.Grpc.{Stream, receive, Delivers, send-Delivers}
use droidmole.Files
use droidmole.Files.{piece, last_piece, convert_stat}
use droidmole.Files.Transfers.{delivered}
use droidmole.Files.Uploads.{upload}
use droidmole.Client.Files.{
  FileStat, convert_file_stat, DirectoryEntry, convert_entry, before, convert_entries,
  list_directory, PullStream, recv, PushStream, push_file, send, end_transfer, sending,
}

-- The fields of a stat, on the client's side.
abbrev pub same_stat : Packets.FileStat → FileStat
same_stat s = record {
  dev = s.dev;
  ino = s.ino;
  file_mode = s.file_mode;
  nlink = s.nlink;
  uid = s.uid;
  gid = s.gid;
  size = s.size;
  atime = s.atime;
  mtime = s.mtime;
  ctime = s.ctime;
}

-- An entry has a stat exactly where the device gave no error for it.
abbrev pub same_entry : Packets.ListDirectoryEntry → DirectoryEntry
same_entry e = record {
  name = e.name;
  stat_error = e.stat_error;
  stat = if e.stat_error == 0 then some (same_stat e.stat) else none;
}

convert_entry-convert_entry :
    (e : Packets.ListDirectoryEntry)
    → convert_entry (Files.convert_entry e) (Files.convert_entry e).stat ≡ ok (same_entry e)
unfolding convert_entry Files.convert_entry convert_stat convert_file_stat Files.convert_file_stat
convert_entry-convert_entry e = ground arith

convert_entries-map :
    (es : List Packets.ListDirectoryEntry)
    → convert_entries (map Files.convert_entry es) ≡ ok (map same_entry es)
unfolding convert_entries
convert_entries-map [] = refl
convert_entries-map (e ∷ es) =
    rw (convert_entry-convert_entry e) (rw (convert_entries-map es) (unfold before in refl))

names-convert_entry :
    (es : List Packets.ListDirectoryEntry)
    → map (λ m. m.name) (map Files.convert_entry es) ≡ map (λ e. e.name) es
unfolding Files.convert_entry
names-convert_entry [] = refl
names-convert_entry (e ∷ es) = ap (λ ns. e.name ∷ ns) (names-convert_entry es)

-- The agent is asked for a directory. The device accepts the commands over a working connection, and
-- sends entries whose fields are in range, and the end packet. The agent's answer goes to the client over
-- a connection that holds, where a name that is not UTF-8 is refused. If all names are UTF-8, the client
-- gets what the device sent: each entry, in order, with its name, its error number and, where that is
-- zero, every field of its stat; and else an error.
pub client_lists :
    (serve : List Protocol.ListDirectoryEntry → Result (List Protocol.ListDirectoryEntry))
    (path pad rest : Bytes) (es : List Packets.ListDirectoryEntry) (c : Conn)
    → IsListWire serve
    → IsOpen c
    → length pad ≡ 72
    → All IsEntry es
    → let answer =
        Files.list_directory path
          (connected (arriving (accepted (wire es (put_u32 id_done ++ pad ++ rest))) c)) in
      (ms : List Protocol.ListDirectoryEntry) × (answer.0 ≡ ok (some ms))
      × (all_utf8 (map (λ e. e.name) es) ≡ true
          → list_directory (serve ms) ≡ ok (map same_entry es))
      × (all_utf8 (map (λ e. e.name) es) ≡ false
          → (x : Error) × (list_directory (serve ms) ≡ err x))
unfolding Files.list_directory list_directory
client_lists serve path pad rest es c w h padded hs =
    let names = names-convert_entry es in
    (
      map Files.convert_entry es,
      rw (list_directory-wire path pad rest es c h padded hs) refl,
      λ good.
          ap list_directory (w.delivers (map Files.convert_entry es) (ap all_utf8 names ∙ good))
          ∙ convert_entries-map es,
      λ bad.
          let (x, e) = w.refuses (map Files.convert_entry es) (ap all_utf8 names ∙ bad) in
          (x, ap list_directory e),
    )

-- Successive calls of Recv, with what they return.
unfoldable pub recv_times : {Req : Type 0} → ℕ → Exec (PullStream Req) (List (Option Bytes))
recv_times zero = pure []
recv_times (suc n) = do got ← recv; more ← recv_times n; pure (got ∷ more)

-- A stream on which these responses have still to be received.
abbrev pub reading :
    {Req : Type 0} → List PullFileResponse → Bool → Stream PullFileResponse Req → PullStream Req
reading ms complete s = record { server = record s { incoming = ms }; complete = complete }

-- What Recv returns for a blob that the agent sent: nil for no bytes.
abbrev pub seen : Bytes → Option Bytes
seen [] = none
seen (x ∷ xs) = some (x ∷ xs)

-- A client that pulls a file of which the agent sends each piece and then the last response gets the
-- pieces, one for each call of Recv, in order, and then the end. From there on the stream is complete,
-- and every further Recv returns the end again and leaves the stream as it is.
pub recv-pieces :
    {Req : Type 0} (deliver : PullFileResponse → PullFileResponse) (blobs : List Bytes)
    (s : Stream PullFileResponse Req)
    → IsPullWire deliver
    → (recv_times
          (suc (length blobs))
          (reading (map deliver (map piece blobs ++ last_piece ∷ [])) false s)
        ≡ (ok (map seen blobs ++ none ∷ []), reading [] true s))
      × (recv (reading [] true s) ≡ (ok none, reading [] true s))
unfolding recv_times recv receive
recv-pieces deliver [] s w = (rw (w.nils true) refl, refl)
recv-pieces deliver ([] ∷ blobs) s w =
    (rw (w.empties false) (rw (recv-pieces deliver blobs s w).0 refl), refl)
recv-pieces deliver ((x ∷ xs) ∷ blobs) s w =
    (rw (w.keeps x xs false) (rw (recv-pieces deliver blobs s w).0 refl), refl)

-- A client's sequence of calls: Send for each blob, and End.
unfoldable pub send_all : {Resp : Type 0} → List Bytes → ℕ → Exec (PushStream Resp) (Unit {0})
send_all [] mtime = end_transfer mtime
send_all (blob ∷ blobs) mtime = do send blob; send_all blobs mtime

send_all-upload :
    {Resp : Type 0} (blobs : List Bytes) (mtime : ℕ) (s : Stream Resp PushFileRequest)
    → Delivers s
    → send_all blobs mtime (record { server = s; send_closed = false })
      ≡ (ok tt, record { server = delivered (upload blobs mtime) s; send_closed = true })
unfolding send_all end_transfer send sending
send_all-upload [] mtime s h = rw (send-Delivers (end mtime) s h) refl
send_all-upload (blob ∷ blobs) mtime s h =
    rw (send-Delivers (chunk blob) s h)
      (rw (send_all-upload blobs mtime (delivered (chunk blob ∷ []) s) h) (rw append_assoc))

-- A client that opens a push, sends its blobs and ends, over a stream that delivers every request,
-- has sent the start request, each blob in order and the end, and nothing else, and has closed its
-- side of the stream.
pub client_pushes :
    {Resp : Type 0} (path : Bytes) (mode mtime : ℕ) (blobs : List Bytes)
    (s : Stream Resp PushFileRequest)
    → Delivers s
    → (p : PushStream Resp) × (push_file (ok s) path mode ≡ ok p)
      × (send_all blobs mtime p ≡ (
        ok tt,
        record { server = delivered (start path mode ∷ upload blobs mtime) s; send_closed = true },
      ))
unfolding push_file
client_pushes path mode mtime blobs s h = (
  record { server = delivered (start path mode ∷ []) s; send_closed = false },
  rw (push_file, send-Delivers (start path mode) s h) refl,
  rw (send_all-upload blobs mtime (delivered (start path mode ∷ []) s) h) (rw append_assoc),
)

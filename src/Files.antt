-- ===== src/Files.antt =====
-- agent/server/sync/sync.go: the file requests of the agent, over the adb streams.
pub mod Transfers
pub mod Uploads
pub mod Endings
mod Tests
use droidmole.Base.{
  ℕ, zero, suc, ◌==◌, Bool, true, false, if◌then◌else◌, Option, none, some, List, [], ◌∷◌, ◌++◌,
  map, length, Bytes, bytes, not,
}
use droidmole.Go.{
  Error, status, invalid_argument, Result, ok, err, panic, Exec, pure, fail, deferred, continue,
  ◌>>=◌, ◌>>◌,
}
use droidmole.Net.{Conn}
use droidmole.Adb.Dial.{Dial}
use droidmole.Adb.Raw.{shut}
use droidmole.Adb.Sync
use droidmole.Adb.Sync.Packets
use droidmole.Protocol
use droidmole.Protocol.{
  Stat, stat_error, stat_value, PullFileResponse, PushFileRequest, no_message, start, chunk, end,
}
use droidmole.Grpc.{Stream, receive, send}

unfoldable pub convert_file_stat : Packets.FileStat → Protocol.FileStat
convert_file_stat s = record {
  dev = s.dev;
  ino = s.ino;
  file_mode = s.file_mode;
  nlink = s.nlink;
  uid = s.uid;
  gid = s.gid;
  size = s.size;
  atime = s.atime;
  mtime = s.mtime;
  ctime = s.ctime;
}

-- The oneof of an error number and a stat.
unfoldable pub convert_stat : ℕ → Packets.FileStat → Stat
convert_stat e s = if not (e == 0) then stat_error e else stat_value (convert_file_stat s)

unfoldable pub convert_entry : Packets.ListDirectoryEntry → Protocol.ListDirectoryEntry
convert_entry e = record { name = e.name; stat = convert_stat e.stat_error e.stat }

over_result : {A B : Type 0} → (A → B) → Result A → Result B
over_result f (ok a) = ok (f a)
over_result f (err e) = err e
over_result f panic = panic

over_some : {A B : Type 0} → (A → B) → Option A → Option B
over_some f none = none
over_some f (some a) = some (f a)

unfoldable pub list_directory :
    Bytes → Dial → Result (Option (List Protocol.ListDirectoryEntry)) × Option Conn
unfolding over_result over_some
list_directory path dial =
    let (r, left) = Sync.list_directory path dial in
    (over_result (over_some (map convert_entry)) r, left)

unfoldable pub stat_file : Bytes → Bool → Dial → Result Stat × Option Conn
unfolding over_result
stat_file path follow_links dial =
    let (r, left) = Sync.stat_file path follow_links dial in
    (over_result (λ (e, s). convert_stat e s) r, left)

-- A transfer runs between the connection of an adb stream and the peer.
pub record Link (Req Resp : Type 0) : Type 0 where
  pub conn : Conn
  pub peer : Stream Req Resp

module _ {Req Resp A : Type 0} where
  abbrev pub on_conn : Exec Conn A → Exec (Link Req Resp) A
  on_conn m l = ((m l.conn).0, record l { conn = (m l.conn).1 })

  abbrev pub on_peer : Exec (Stream Req Resp) A → Exec (Link Req Resp) A
  on_peer m l = ((m l.peer).0, record l { peer = (m l.peer).1 })

  -- `defer stream.Close()`
  abbrev pub closing : Exec (Link Req Resp) A → Exec (Link Req Resp) A
  closing m = deferred m λ l. record l { conn = shut l.conn }

  -- A transfer on the stream that adb gives, if it gives one.
  unfoldable pub with_stream :
      Result (Unit {0}) × Option Conn
      → Exec (Link Req Resp) A
      → Stream Req Resp
      → Result A × Option Conn × Stream Req Resp
  with_stream (ok t, some c) m p =
      let (r, l) = closing m (record { conn = c; peer = p }) in (r, some l.conn, l.peer)
  with_stream (ok t, none) m p = (panic, none, p)
  with_stream (err e, left) m p = (err e, left, p)
  with_stream (panic, left) m p = (panic, left, p)

abbrev pub piece : Bytes → PullFileResponse
piece blob = record { content = some blob; last = false }

abbrev pub last_piece : PullFileResponse
last_piece = record { content = none; last = true }

module _ {Req : Type 0} where
  -- What the loop does with the data of a Recv, with the rest of the loop as an argument.
  pull_step :
      Option Bytes
      → Exec (Link Req PullFileResponse) (Option (Unit {0}))
      → Exec (Link Req PullFileResponse) (Option (Unit {0}))
  pull_step none more = do on_peer (send last_piece); pure (some tt)
  pull_step (some blob) more = do on_peer (send (piece blob)); more

  -- The loop; `none` when the fuel runs out.
  unfoldable pub pull_loop : ℕ → Exec (Link Req PullFileResponse) (Option (Unit {0}))
  unfolding pull_step
  pull_loop zero = pure none
  pull_loop (suc fuel) = do content ← on_conn Sync.recv; pull_step content (pull_loop fuel)

  -- A Recv reads a packet, so a round for each byte that arrives is enough.
  unfoldable pub pull_all : Exec (Link Req PullFileResponse) (Option (Unit {0}))
  pull_all l = pull_loop (suc (length l.conn.incoming)) l

  unfoldable pub pull_file :
      Bytes
      → Dial
      → Stream Req PullFileResponse
      → Result (Option (Unit {0})) × Option Conn × Stream Req PullFileResponse
  pull_file path dial = with_stream (Sync.pull_file path dial) pull_all

module _ {Resp : Type 0} where
  push_step :
      PushFileRequest
      → Exec (Link PushFileRequest Resp) (Option (Unit {0}))
      → Exec (Link PushFileRequest Resp) (Option (Unit {0}))
  push_step (chunk blob) more = do on_conn (Sync.send blob); more
  push_step (end mtime) more = do on_conn (Sync.done mtime); pure (some tt)
  push_step _ more = fail (status invalid_argument (bytes "unknown request"))

  unfoldable pub push_loop : ℕ → Exec (Link PushFileRequest Resp) (Option (Unit {0}))
  unfolding push_step
  push_loop zero = pure none
  push_loop (suc fuel) = do request ← on_peer receive; push_step request (push_loop fuel)

  -- A round takes a request.
  unfoldable pub push_all : Exec (Link PushFileRequest Resp) (Option (Unit {0}))
  push_all l = push_loop (suc (length l.peer.incoming)) l

  push_from :
      Dial
      → PushFileRequest
      → Stream PushFileRequest Resp
      → Result (Option (Unit {0})) × Option Conn × Stream PushFileRequest Resp
  push_from dial (start path mode) p = with_stream (Sync.push_file path mode dial) push_all p
  push_from dial _ p =
      (err (status invalid_argument (bytes "stream must begin with a start request")), none, p)

  -- What the first request makes of the answer of the peer.
  push_first :
      Dial
      → Result PushFileRequest
      → Stream PushFileRequest Resp
      → Result (Option (Unit {0})) × Option Conn × Stream PushFileRequest Resp
  unfolding push_from
  push_first dial (ok request) p = push_from dial request p
  push_first dial (err e) p = (err e, none, p)
  push_first dial panic p = (panic, none, p)

  unfoldable pub push_file :
      Dial
      → Stream PushFileRequest Resp
      → Result (Option (Unit {0})) × Option Conn × Stream PushFileRequest Resp
  unfolding push_first
  push_file dial p = push_first dial (receive p).0 (receive p).1

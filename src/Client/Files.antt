-- ===== src/Client/Files.antt =====
-- agent/client/sync/sync.go: the client's side of the file requests.
pub mod Transfers
pub mod Views
use droidmole.Base.{
  format_d, ℕ, zero, suc, ◌+◌, ◌/◌, ◌%◌, ◌==◌, Bool, true, false, if◌then◌else◌, Option, none, some,
  List, [], ◌∷◌, ◌++◌, Bytes, bytes,
}
use droidmole.Go.{Error, text, Result, ok, err, panic, Exec, pure, continue, ◌>>=◌, ◌>>◌, lift}
use droidmole.Protocol
use droidmole.Protocol.{
  Stat, no_stat, stat_error, stat_value, PullFileResponse, PushFileRequest, start, chunk, end,
}
use droidmole.Grpc
use droidmole.Grpc.{Stream, receive}

pub record FileStat : Type 0 where
  pub dev : ℕ
  pub ino : ℕ
  pub file_mode : ℕ
  pub nlink : ℕ
  pub uid : ℕ
  pub gid : ℕ
  pub size : ℕ
  pub atime : ℕ
  pub mtime : ℕ
  pub ctime : ℕ

unfoldable pub convert_file_stat : Protocol.FileStat → FileStat
convert_file_stat s = record {
  dev = s.dev;
  ino = s.ino;
  file_mode = s.file_mode;
  nlink = s.nlink;
  uid = s.uid;
  gid = s.gid;
  size = s.size;
  atime = s.atime;
  mtime = s.mtime;
  ctime = s.ctime;
}

pub record DirectoryEntry : Type 0 where
  pub name : Bytes
  pub stat_error : ℕ
  pub stat : Option FileStat

convert_entry : Protocol.ListDirectoryEntry → Stat → Result DirectoryEntry
unfolding convert_file_stat
convert_entry e no_stat = err (text (bytes "unknown response"))
convert_entry e (stat_error n) = ok (record { name = e.name; stat_error = n; stat = none })
convert_entry e (stat_value s) =
    ok (record { name = e.name; stat_error = 0; stat = some (convert_file_stat s) })

-- `append(result, newEntry)`, and the rest of the loop.
before : Result DirectoryEntry → Result (List DirectoryEntry) → Result (List DirectoryEntry)
before (ok e) (ok es) = ok (e ∷ es)
before (ok e) more = more
before (err e) more = err e
before panic more = panic

unfoldable pub convert_entries : List Protocol.ListDirectoryEntry → Result (List DirectoryEntry)
unfolding convert_entry before
convert_entries [] = ok []
convert_entries (e ∷ es) = before (convert_entry e e.stat) (convert_entries es)

-- From the answer of the agent.
unfoldable pub list_directory :
    Result (List Protocol.ListDirectoryEntry) → Result (List DirectoryEntry)
list_directory (ok es) = convert_entries es
list_directory (err e) = err e
list_directory panic = panic

unfoldable pub stat_file : Result Stat → Result FileStat
unfolding convert_file_stat
stat_file (ok no_stat) = err (text (bytes "unknown response"))
stat_file (ok (stat_error n)) = err (text (bytes "stat failed: " ++ format_d n))
stat_file (ok (stat_value s)) = ok (convert_file_stat s)
stat_file (err e) = err e
stat_file panic = panic

pub record PullStream (Req : Type 0) : Type 0 where
  pub server : Stream PullFileResponse Req
  pub complete : Bool

unfoldable pub pull_file :
    {Req : Type 0} → Result (Stream PullFileResponse Req) → Result (PullStream Req)
pull_file (ok s) = ok (record { server = s; complete = false })
pull_file (err e) = err e
pull_file panic = panic

module _ {Req : Type 0} where
  -- What Recv makes of a response.
  take_response : Result PullFileResponse → Exec (PullStream Req) (Option Bytes)
  take_response (ok r) s = (ok r.content, if r.last then record s { complete = true } else s)
  take_response (err e) s = (err e, s)
  take_response panic s = (panic, s)

  unfoldable pub recv : Exec (PullStream Req) (Option Bytes)
  unfolding take_response
  recv s =
      if s.complete
      then (ok none, s)
      else take_response (receive s.server).0 (record s { server = (receive s.server).1 })

-- The field `complete` of the source is never set.
pub record PushStream (Resp : Type 0) : Type 0 where
  pub server : Stream Resp PushFileRequest
  -- CloseSend was called
  pub send_closed : Bool

module _ {Resp : Type 0} where
  sending : PushFileRequest → Exec (PushStream Resp) (Unit {0})
  sending m s = ((Grpc.send m s.server).0, record s { server = (Grpc.send m s.server).1 })

  -- On the stream that the agent's answer opened.
  unfoldable pub push_file :
      Result (Stream Resp PushFileRequest) → Bytes → ℕ → Result (PushStream Resp)
  push_file (ok s) path mode =
      let (r, s') = Grpc.send (start path mode) s in
      (continue r (λ _. lift (ok (record { server = s'; send_closed = false }))) s).0
  push_file (err e) path mode = err e
  push_file panic path mode = panic

  unfoldable pub send : Bytes → Exec (PushStream Resp) (Unit {0})
  unfolding sending
  send blob = sending (chunk blob)

  -- CloseSend is called whether or not the request was sent.
  unfoldable pub end_transfer : ℕ → Exec (PushStream Resp) (Unit {0})
  unfolding sending
  end_transfer mtime s =
      let (r, s') = sending (end mtime) s in (r, record s' { send_closed = true })

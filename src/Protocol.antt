-- ===== src/Protocol.antt =====
-- The messages of agent/protocol that the file requests carry; an interface field of a oneof may be
-- nil. What a client gets of a message is not always what was sent: a string is UTF-8, and no data is nil.
use droidmole.Base.{
  ℕ, ◌≡◌, Bool, true, false, Option, none, some, List, ◌∷◌, [], map, Bytes, all_utf8,
}
use droidmole.Go.{Error, Result, ok, err}

pub record FileStat : Type 0 where
  pub dev : ℕ
  pub ino : ℕ
  pub file_mode : ℕ
  pub nlink : ℕ
  pub uid : ℕ
  pub gid : ℕ
  pub size : ℕ
  pub atime : ℕ
  pub mtime : ℕ
  pub ctime : ℕ

pub data Stat : Type 0 where
  no_stat : Stat
  stat_error : ℕ → Stat
  stat_value : FileStat → Stat

pub record ListDirectoryEntry : Type 0 where
  pub name : Bytes
  pub stat : Stat

-- `none` is nil data.
pub record PullFileResponse : Type 0 where
  pub content : Option Bytes
  pub last : Bool

-- How package proto encodes and decodes a response: the data are there if they are some bytes.
pub record IsPullWire (wire : PullFileResponse → PullFileResponse) : Type 0 where
  pub keeps :
      (x : ℕ) (xs : Bytes) (last : Bool)
      → wire (record { content = some (x ∷ xs); last = last })
        ≡ record { content = some (x ∷ xs); last = last }
  pub empties :
      (last : Bool)
      → wire (record { content = some []; last = last }) ≡ record { content = none; last = last }
  pub nils :
      (last : Bool)
      → wire (record { content = none; last = last }) ≡ record { content = none; last = last }

-- How gRPC answers with a list of entries where the connection holds: package proto refuses a name that
-- is not UTF-8, and the client gets an error.
pub record IsListWire (wire : List ListDirectoryEntry → Result (List ListDirectoryEntry))
    : Type 0 where
  pub delivers :
      (ms : List ListDirectoryEntry) → all_utf8 (map (λ m. m.name) ms) ≡ true → wire ms ≡ ok ms
  pub refuses :
      (ms : List ListDirectoryEntry)
      → all_utf8 (map (λ m. m.name) ms) ≡ false
      → (e : Error) × (wire ms ≡ err e)

pub data PushFileRequest : Type 0 where
  no_message : PushFileRequest
  start : Bytes → ℕ → PushFileRequest
  chunk : Bytes → PushFileRequest
  end : ℕ → PushFileRequest

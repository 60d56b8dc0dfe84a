-- ===== src/Builder/Download.antt =====
-- builder/repository/download.go: a download that is put in place once its hash is right. The file
-- system, the response and SHA-1 are arguments; the progress bar is left out.
pub mod Safety
use droidmole.Base.{
  ℕ, zero, suc, ◌+◌, ◌<◌, ltb, Bool, true, false, if◌then◌else◌, Option, none, some, List, [], ◌∷◌,
  ◌++◌, length, take, Bytes, bytes, bytes_eq,
}
use droidmole.Go.{
  Error, text, Result, ok, err, panic, Exec, pure, fail, crash, continue, ◌>>=◌, ◌>>◌,
}

-- The file at the path, the one at `path + ".tmp"`, and how many requests were made.
pub record Disk : Type 0 where
  pub target : Option Bytes
  pub temporary : Option Bytes
  pub requests : ℕ

-- A piece of the response, and how many bytes of it the file takes.
abbrev pub Piece : Type 0
Piece = Bytes × ℕ

-- What the calls answer. `log.Fatal` where Open fails ends the program.
pub record Calls : Type 0 where
  pub stat_error : Option Error
  pub open_fails : Bool
  pub read_error : Option Error
  pub create_error : Option Error
  pub get_error : Option Error
  -- up to the end or the error of the response, which io.Copy returns and nobody looks at
  pub response : List Piece
  -- what is in the file when Close has returned, whose error nobody looks at
  pub closes : Bytes → Bytes
  pub rename_error : Option Error

unless : Option Error → Exec Disk (Unit {0})
unless none d = (ok tt, d)
unless (some e) d = (err e, d)

-- The file and the hashed bytes: a piece that the file takes in part is not hashed, and is the last.
copy : List Piece → Bytes → Bytes → Bytes × Bytes
copy [] out hashed = (out, hashed)
copy ((piece, n) ∷ more) out hashed =
    let rest = copy more (out ++ piece) (hashed ++ piece) in
    if ltb n (length piece) then (out ++ take n piece, hashed) else rest

module _ (sha1 : Bytes → Bytes) (calls : Calls) (hash : Bytes) where
  create : Exec Disk (Unit {0})
  create d = (ok tt, record d { temporary = some [] })

  request : Exec Disk (Unit {0})
  request d = (ok tt, record d { requests = d.requests + 1 })

  fill : Bytes → Exec Disk (Unit {0})
  fill out d = (ok tt, record d { temporary = some (calls.closes out) })

  rename : Exec Disk (Unit {0})
  rename d = (ok tt, record d { target = d.temporary; temporary = none })

  fetch : Exec Disk (Unit {0})
  unfolding unless copy create request fill rename
  fetch = do
    unless calls.create_error
    create
    request
    unless calls.get_error
    fill (copy calls.response [] []).0
    if bytes_eq (sha1 (copy calls.response [] []).1) hash
        then pure tt
        else fail (text (bytes "download hash mismatch"))
    unless calls.rename_error
    rename

  -- The file that is there is read; the right one is kept.
  have : Bytes → Exec Disk (Unit {0})
  unfolding unless fetch
  have content = do
    if calls.open_fails then crash else pure tt
    unless calls.read_error
    if bytes_eq (sha1 content) hash then pure tt else fetch

  look : Option Bytes → Exec Disk (Unit {0})
  unfolding have fetch
  look none = fetch
  look (some content) = have content

  unfoldable pub download_archive : Exec Disk (Unit {0})
  unfolding unless look
  download_archive d = (unless calls.stat_error >> look d.target) d

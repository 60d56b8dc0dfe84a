-- ===== src/Adb/Raw.antt =====
-- agent/server/adb/raw.go: one connection to the adb server.
-- Each method of `networkRawConn` is an action on the connection. A method that fills a slice of the
-- caller takes the slice's length and returns its bytes.
pub mod Hex
pub mod Framing
pub mod Closing
pub mod Line
pub mod Arrivals
pub mod Rounds
mod Tests
use droidmole.Base.{
  ℕ, zero, suc, ◌+◌, ◌-◌, ◌*◌, ◌/◌, ◌%◌, ◌^◌, ◌≤◌, ◌<◌, min, ◌≡◌, refl, sym, ap, ◌∙◌, subst,
  fun_ext, ◌≢◌, ◌↔◌, ◌⊎◌, inl, inr, Bool, true, false, not, ◌&&◌, ◌||◌, Option, none, some, List,
  [], ◌∷◌, ◌++◌, map, append-nil, append_assoc, arith, ltb, leb, ◌==◌, if◌then◌else◌, ltb→lt,
  lt→ltb, leb→le, le→leb, lt→leb_false, ==_iff, tests, Bool-cases, Option-cases, length, get_elem?,
  take, drop, replicate, All, length-append, take-append_self, drop-append_self, take-append-drop,
  length-take, length-drop, length-replicate, Bytes, bytes, bytes_eq, bytes_eq_refl, eq_of_bytes_eq,
  IsByte, IsU32, IsU64, u32, put_u32, put_u64, get_u32, get_u64, slice, get_u32-put_u32,
  get_u64-put_u64,
}
use droidmole.Go.{
  Code, invalid_argument, failed_precondition, internal, Error, eof, unexpected_eof, net_closed,
  system, text, syntax, status, Result, ok, err, panic, Exec, pure, fail, crash, lift, on_err_with,
  on_err, deferred, continue, ◌>>=◌, ◌>>◌, bind-ok, bind-err, on_err-ok, on_err-err, deferred-eq,
}
use droidmole.Net
use droidmole.Net.{Conn, write, read_full}
use Hex.{format_04x, parse_int}

-- A close of a closed connection is no error.
forgive : Result (Unit {0}) → Result (Unit {0})
forgive (ok t) = ok t
forgive (err net_closed) = ok tt
forgive (err e) = err e
forgive panic = panic

unfoldable pub close : Exec Conn (Unit {0})
unfolding forgive Net.close
close c = let (r, c') = Net.close c in (forgive r, c')

-- `c.Close()` where its error is dropped.
abbrev pub shut : Conn → Conn
shut c = (Net.close c).1

unfoldable pub write_raw : Bytes → Exec Conn (Unit {0})
write_raw packet = do
  wrote ← on_err (write packet) shut
  if wrote == length packet
      then pure tt
      else on_err (fail (text (bytes "failed to write full packet"))) shut

unfoldable pub write_message : Bytes → Exec Conn (Unit {0})
write_message msg = on_err (write_raw (format_04x (length msg) ++ msg)) shut

unfoldable pub read_raw : ℕ → Exec Conn Bytes
read_raw n = on_err (read_full n) shut

unfoldable pub read_status : Exec Conn Bytes
read_status = on_err (read_full 4) shut

-- `make([]byte, size)` panics on a negative size.
unfoldable pub read_sized : Bytes → Option (Bool × ℕ) → Exec Conn Bytes
read_sized digits none = on_err (fail (syntax digits)) shut
read_sized digits (some (neg, size)) =
    if neg && ltb 0 size then crash else on_err (read_full size) shut

unfoldable pub read_hex_prefixed_blob : Exec Conn Bytes
unfolding read_sized
read_hex_prefixed_blob = do
  size_blob ← on_err (read_full 4) shut
  read_sized size_blob (parse_int size_blob)

abbrev first : Bytes → ℕ
first [] = 0
first (x ∷ xs) = x

unfoldable pub read_shell_blob : Exec Conn (ℕ × Bytes)
read_shell_blob = do
  header ← on_err (read_full 5) shut
  blob ← on_err (read_full (get_u32 (drop 1 header))) shut
  pure (first header, blob)

unfoldable pub write_shell_blob : ℕ → Bytes → Exec Conn (Unit {0})
write_shell_blob id blob = do
  on_err (write_raw (id ∷ put_u32 (u32 (length blob)))) shut
  on_err (write_raw blob) shut

unfoldable pub send_command : Bytes → Exec Conn (Unit {0})
send_command cmd = do
  on_err (write_message cmd) shut
  answer ← on_err read_status shut
  if bytes_eq answer (bytes "OKAY") then pure tt else do
    blob ← on_err read_hex_prefixed_blob shut
    fail (text (bytes "server error: " ++ blob))

-- ===== src/Adb/Client.antt =====
-- agent/server/adb/client.go: commands to the adb server, and the wait for the emulator.
pub mod Wait
mod Tests
use droidmole.Base.{
  ℕ, zero, suc, ◌+◌, ◌-◌, ◌*◌, ◌/◌, ◌%◌, ◌^◌, ◌≤◌, ◌<◌, min, ◌≡◌, refl, sym, ap, ◌∙◌, subst,
  fun_ext, ◌≢◌, ◌↔◌, ◌⊎◌, inl, inr, Bool, true, false, not, ◌&&◌, ◌||◌, Option, none, some, List,
  [], ◌∷◌, ◌++◌, map, append-nil, append_assoc, arith, ltb, leb, ◌==◌, if◌then◌else◌, ltb→lt,
  lt→ltb, leb→le, le→leb, lt→leb_false, ==_iff, tests, Bool-cases, Option-cases, length, get_elem?,
  take, drop, replicate, All, length-append, take-append_self, drop-append_self, take-append-drop,
  length-take, length-drop, length-replicate, Bytes, bytes, bytes_eq, bytes_eq_refl, eq_of_bytes_eq,
  IsByte, IsU32, IsU64, u32, put_u32, put_u64, get_u32, get_u64, slice, get_u32-put_u32,
  get_u64-put_u64,
}
use droidmole.Go.{
  Code, invalid_argument, failed_precondition, internal, Error, eof, unexpected_eof, net_closed,
  system, text, syntax, status, Result, ok, err, panic, Exec, pure, fail, crash, lift, on_err_with,
  on_err, deferred, heedless, ignoring, after, continue, ◌>>=◌, ◌>>◌, bind-ok, bind-err, bind_inv,
  on_err_inv, on_err-ok, on_err-err, deferred-eq,
}
use droidmole.Net.{Conn}
use droidmole.Adb.Dial.{Dial, session}
use droidmole.Adb.Raw
use droidmole.Adb.Raw.{shut}
use droidmole.Adb.Text.{split_lines, fields}

-- `SendCommand` on the dialled connection.
unfoldable pub send_command : Bytes → Exec Conn (Unit {0})
send_command cmd = on_err (Raw.send_command cmd) shut

body : Bool → Exec Conn (Option Bytes)
body false = pure none
body true = do blob ← Raw.read_hex_prefixed_blob; pure (some blob)

unfoldable pub execute_command : Bytes → Bool → Dial → Result (Option Bytes) × Option Conn
unfolding session body
execute_command cmd has_body dial = session dial do send_command cmd; deferred (body has_body) shut

-- `parts[1] == "device"`, which panics on a line of fewer than two fields.
names_device : List Bytes → Result Bool
names_device [] = panic
names_device (serial ∷ []) = panic
names_device (serial ∷ state ∷ rest) = ok (bytes_eq state (bytes "device"))

-- `return nil`, or the next line.
unless_found : Result Bool → Result Bool → Result Bool
unless_found (ok true) more = ok true
unless_found (ok false) more = more
unless_found (err e) more = err e
unless_found panic more = panic

find_device : List Bytes → Result Bool
unfolding names_device unless_found
find_device [] = ok false
find_device (line ∷ lines) = unless_found (names_device (fields line)) (find_device lines)

-- Whether one message of the tracker ends the wait.
unfoldable pub has_device : Bytes → Result Bool
unfolding find_device fields split_lines
has_device msg = find_device (split_lines msg)

-- The loop over the messages; `none` when the fuel runs out.
wait_loop : ℕ → Exec Conn (Option (Unit {0}))
wait_loop zero = pure none
wait_loop (suc fuel) = do
  msg ← Raw.read_hex_prefixed_blob
  found ← lift (has_device msg)
  if found then pure (some tt) else wait_loop fuel

-- A message takes four bytes at least, so a round for each byte that arrives is enough.
wait_on : Exec Conn (Option (Unit {0}))
unfolding wait_loop
wait_on c = wait_loop (suc (length c.incoming)) c

unfoldable pub wait_for_emulator : Dial → Result (Option (Unit {0})) × Option Conn
unfolding session wait_on
wait_for_emulator dial =
    session dial do send_command (bytes "host:track-devices"); deferred wait_on shut

unfoldable pub open_emulator : Exec Conn (Unit {0})
open_emulator = send_command (bytes "host:transport-local")

-- ===== src/Adb/Raw/Framing.antt =====
-- What the methods of agent/server/adb/raw.go write and read on a connection that works.
use droidmole.Base.{
  ℕ, zero, suc, ◌+◌, ◌^◌, ◌≤◌, ◌<◌, ◌≡◌, refl, sym, ap, ◌≢◌, Bool, true, false, Option, none, some,
  [], ◌∷◌, ◌++◌, append_assoc, arith, ◌==◌, length, Bytes, bytes, bytes_eq, IsU32, u32, put_u32,
  get_u32,
}
use droidmole.Go.{text, ok, err, on_err, bind_inv, on_err_inv}
use droidmole.Net.{Conn, read_full}
use droidmole.Net.Laws.{
  length-read_full, incoming-read_full, arriving, sent, read_full-append, read_full-sized, IsOpen,
  write_full,
}
use droidmole.Adb.Raw.{shut, write_raw, write_message, read_raw, read_status, read_sized}
use droidmole.Adb.Raw.{read_hex_prefixed_blob, read_shell_blob, write_shell_blob, send_command}
use droidmole.Adb.Raw.Hex.{
  format_04x, parse_int, length-format_04x, parse_int-format_04x, parse_int-lt,
}

==_refl : (n : ℕ) → (n == n) ≡ true
==_refl n = ground arith

pub write_raw-IsOpen : (p : Bytes) (c : Conn) → IsOpen c → write_raw p c ≡ (ok tt, sent p c)
unfolding write_raw
write_raw-IsOpen p c h = rw (write_full p c h, ==_refl (length p))

-- A message is framed by its length in four hexadecimal digits.
abbrev pub framed : Bytes → Bytes
framed msg = format_04x (length msg) ++ msg

pub write_message-IsOpen :
    (msg : Bytes) (c : Conn) → IsOpen c → write_message msg c ≡ (ok tt, sent (framed msg) c)
unfolding write_message
write_message-IsOpen msg c h = rw (write_raw-IsOpen (framed msg) c h)

abbrev pub shell_header : ℕ → Bytes → Bytes
shell_header id blob = id ∷ put_u32 (u32 (length blob))

pub write_shell_blob-IsOpen :
    (id : ℕ) (blob : Bytes) (c : Conn)
    → IsOpen c
    → write_shell_blob id blob c ≡ (ok tt, sent blob (sent (shell_header id blob) c))
unfolding write_shell_blob
write_shell_blob-IsOpen id blob c h = rw (write_raw-IsOpen (shell_header id blob) c h) (
    rw (
      write_raw-IsOpen blob (sent (shell_header id blob) c)
        (record { opened = h.opened; unbroken = h.unbroken })))

module _ (rest : Bytes) (c : Conn) (opened : c.closed ≡ false) where
  pub read_raw-append :
      (n : ℕ) (xs : Bytes)
      → n ≡ length xs
      → read_raw n (arriving (xs ++ rest) c) ≡ (ok xs, arriving rest c)
  unfolding read_raw
  read_raw-append n xs e = rw (read_full-sized n xs rest c opened e)

  pub read_hex_prefixed_blob-framed :
      (msg : Bytes)
      → length msg < 2 ^ 16
      → read_hex_prefixed_blob (arriving (framed msg ++ rest) c) ≡ (ok msg, arriving rest c)
  unfolding read_hex_prefixed_blob
  read_hex_prefixed_blob-framed msg h =
      let size = format_04x (length msg) in
      rw (append_assoc size msg rest) (
        rw (read_full-sized 4 size (msg ++ rest) c opened (sym (length-format_04x (length msg) h)))
          (rw (parse_int-format_04x (length msg) h) (rw (read_full-append msg rest c opened))))

  pub read_shell_blob-framed :
      (id : ℕ) (blob : Bytes)
      → IsU32 (length blob)
      → read_shell_blob (arriving (shell_header id blob ++ blob ++ rest) c)
        ≡ (ok (id, blob), arriving rest c)
  unfolding read_shell_blob
  read_shell_blob-framed id blob h =
      rw (read_full-sized 5 (shell_header id blob) (blob ++ rest) c opened refl) (
        rw (
          read_full-sized (get_u32 (put_u32 (u32 (length blob)))) blob rest c opened (omega arith)))

-- A message below 2 ^ 16 bytes that `write_message` puts on a working connection is what
-- `read_hex_prefixed_blob` takes from a connection on which it arrives, and what follows is left.
pub read_hex_prefixed_blob-write_message :
    (msg rest : Bytes) (c d : Conn)
    → IsOpen c
    → c.outgoing ≡ []
    → d.closed ≡ false
    → length msg < 2 ^ 16
    → read_hex_prefixed_blob (arriving ((write_message msg c).1.outgoing ++ rest) d)
      ≡ (ok msg, arriving rest d)
read_hex_prefixed_blob-write_message msg rest c d h empty opened small =
    rw (write_message-IsOpen msg c h)
      (rw empty (read_hex_prefixed_blob-framed rest d opened msg small))

-- A packet of the shell protocol, its id and a blob below 2 ^ 32 bytes, that `write_shell_blob` puts
-- on a working connection is what `read_shell_blob` takes from one on which it arrives.
pub read_shell_blob-write_shell_blob :
    (id : ℕ) (blob rest : Bytes) (c d : Conn)
    → IsOpen c
    → c.outgoing ≡ []
    → d.closed ≡ false
    → IsU32 (length blob)
    → read_shell_blob (arriving ((write_shell_blob id blob c).1.outgoing ++ rest) d)
      ≡ (ok (id, blob), arriving rest d)
read_shell_blob-write_shell_blob id blob rest c d h empty opened small =
    rw (write_shell_blob-IsOpen id blob c h)
      (rw empty (rw append_assoc (read_shell_blob-framed rest d opened id blob small)))

pub IsOpen-arriving : (xs : Bytes) (c : Conn) → IsOpen c → IsOpen (arriving xs c)
IsOpen-arriving xs c h = record { opened = h.opened; unbroken = h.unbroken }

pub send_command_okay :
    (cmd rest : Bytes) (c : Conn)
    → IsOpen c
    → send_command cmd (arriving (bytes "OKAY" ++ rest) c)
      ≡ (ok tt, arriving rest (sent (framed cmd) c))
unfolding send_command read_status
send_command_okay cmd rest c h =
    rw (write_message-IsOpen cmd (arriving (bytes "OKAY" ++ rest) c) (IsOpen-arriving _ c h))
      (rw (read_full-append (bytes "OKAY") rest (sent (framed cmd) c) h.opened))

pub send_command_refused :
    (cmd answer msg rest : Bytes) (c : Conn)
    → IsOpen c
    → length answer ≡ 4
    → bytes_eq answer (bytes "OKAY") ≡ false
    → length msg < 2 ^ 16
    → send_command cmd (arriving (answer ++ (framed msg ++ rest)) c)
      ≡ (err (text (bytes "server error: " ++ msg)), arriving rest (sent (framed cmd) c))
unfolding send_command read_status
send_command_refused cmd answer msg rest c h four other small =
    rw
      (write_message-IsOpen cmd (arriving (answer ++ (framed msg ++ rest)) c)
        (IsOpen-arriving _ c h))
      (rw (read_full-sized 4 answer (framed msg ++ rest) (sent (framed cmd) c) h.opened (sym four))
        (rw other
          (rw (read_hex_prefixed_blob-framed rest (sent (framed cmd) c) h.opened msg small))))

-- On a working connection `send_command` writes the framed command and nothing else. It succeeds on
-- the status OKAY, and on any other status of four bytes it returns the message that follows, below
-- 2 ^ 16 bytes, as a server error; either way it reads no further and leaves the connection open.
pub send_command_answers :
    (cmd answer msg rest : Bytes) (c : Conn)
    → IsOpen c
    → length answer ≡ 4
    → bytes_eq answer (bytes "OKAY") ≡ false
    → length msg < 2 ^ 16
    → (send_command cmd (arriving (bytes "OKAY" ++ rest) c)
        ≡ (ok tt, arriving rest (sent (framed cmd) c)))
      × (send_command cmd (arriving (answer ++ (framed msg ++ rest)) c)
          ≡ (err (text (bytes "server error: " ++ msg)), arriving rest (sent (framed cmd) c)))
send_command_answers cmd answer msg rest c h four other small =
    (send_command_okay cmd rest c h, send_command_refused cmd answer msg rest c h four other small)

incoming-read_sized :
    (c d : Conn) (size blob : Bytes) (o : Option (Bool × ℕ))
    → read_sized size o c ≡ (ok blob, d)
    → length d.incoming ≤ length c.incoming
unfolding read_sized
incoming-read_sized c d size blob none e = absurd (cc (ap (λ r. r.0) e))
incoming-read_sized c d size blob (some (true, zero)) e =
    omega (arith, incoming-read_full 0 c d blob (on_err_inv (read_full 0) shut c e))
incoming-read_sized c d size blob (some (true, suc n)) e = ground arith
incoming-read_sized c d size blob (some (false, n)) e =
    omega (arith, incoming-read_full n c d blob (on_err_inv (read_full n) shut c e))

length-read_sized :
    (c d : Conn) (size blob : Bytes)
    → length size ≡ 4
    → (o : Option (Bool × ℕ)) → parse_int size ≡ o
    → read_sized size o c ≡ (ok blob, d)
    → length blob < 2 ^ 16
unfolding read_sized
length-read_sized c d size blob four none p e = absurd (cc (ap (λ r. r.0) e))
length-read_sized c d size blob four (some (true, zero)) p e =
    let e' = on_err_inv (read_full 0) shut c e in omega (arith, length-read_full 0 c d blob e')
length-read_sized c d size blob four (some (true, suc n)) p e = ground arith
length-read_sized c d size blob four (some (false, n)) p e =
    let e' = on_err_inv (read_full n) shut c e in
    omega (arith, length-read_full n c d blob e', parse_int-lt size false n four p)

-- Whatever arrives, a blob that `read_hex_prefixed_blob` returns has less than 2 ^ 16 bytes.
pub length-read_hex_prefixed_blob :
    (c d : Conn) (blob : Bytes) → read_hex_prefixed_blob c ≡ (ok blob, d) → length blob < 2 ^ 16
unfolding read_hex_prefixed_blob
length-read_hex_prefixed_blob c d blob e =
    let (size, c', e₁, e₂) = bind_inv (on_err (read_full 4) shut) _ c e in
    length-read_sized c' d size blob
      (length-read_full 4 c c' size (on_err_inv (read_full 4) shut c e₁)) (parse_int size) refl e₂

-- A message of 2 ^ 16 bytes or more is written without an error, and no reader of the protocol gets
-- it back, whatever follows it.
pub write_message_too_long :
    (msg rest : Bytes) (c d d' : Conn)
    → IsOpen c
    → c.outgoing ≡ []
    → 2 ^ 16 ≤ length msg
    → ((write_message msg c).0 ≡ ok tt)
      × (read_hex_prefixed_blob (arriving ((write_message msg c).1.outgoing ++ rest) d)
          ≢ (ok msg, d'))
write_message_too_long msg rest c d d' h empty large = (
  ap (λ r. r.0) (write_message-IsOpen msg c h),
  λ e. omega (arith, length-read_hex_prefixed_blob _ d' msg e),
)

-- Such a read takes four bytes at least off the stream.
pub incoming-read_hex_prefixed_blob :
    (c d : Conn) (blob : Bytes)
    → read_hex_prefixed_blob c ≡ (ok blob, d)
    → length d.incoming + 4 ≤ length c.incoming
unfolding read_hex_prefixed_blob
incoming-read_hex_prefixed_blob c d blob e =
    let (size, c', e₁, e₂) = bind_inv (on_err (read_full 4) shut) _ c e in
    omega (
      arith,
      incoming-read_full 4 c c' size (on_err_inv (read_full 4) shut c e₁),
      incoming-read_sized c' d size blob (parse_int size) e₂,
    )

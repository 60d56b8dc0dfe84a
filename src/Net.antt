-- ===== src/Net.antt =====
-- net.Conn and io.ReadFull of the Go library, as agent/server/adb/raw.go uses them.
-- A connection holds all that the peer will send, what was written, and the outcomes of the next
-- writes, which the network chooses.
pub mod Laws
pub mod Samples
use droidmole.Base.{
  ℕ, Bool, true, false, Option, none, some, List, [], ◌∷◌, ◌++◌, Bytes, length, take, drop, min,
  leb, ◌==◌, if◌then◌else◌,
}
use droidmole.Go.{
  Error, eof, unexpected_eof, net_closed, system, text, syntax, status, Result, ok, err, panic,
  Exec,
}

pub data Write : Type 0 where
  -- all bytes are written
  full : Write
  -- so many at most, with no error: what io.Writer forbids and the code checks for
  short : ℕ → Write
  -- so many at most, and an error
  broken : ℕ → Error → Write

pub record Conn : Type 0 where
  pub incoming : Bytes
  -- what a read returns when `incoming` is used up
  pub ending : Error
  pub outgoing : Bytes
  pub writes : List Write
  pub closed : Bool
  -- what the first Close returns
  pub close_error : Option Error

-- Write(packet): the number of bytes written.
write_as : Write → Bytes → Exec Conn ℕ
write_as full p c = (ok (length p), record c { outgoing = c.outgoing ++ p })
write_as (short n) p c = (ok (min n (length p)), record c { outgoing = c.outgoing ++ take n p })
write_as (broken n e) p c = (err e, record c { outgoing = c.outgoing ++ take n p })

next_write : List Write → Write
next_write [] = full
next_write (w ∷ ws) = w

other_writes : List Write → List Write
other_writes [] = []
other_writes (w ∷ ws) = ws

unfoldable pub write : Bytes → Exec Conn ℕ
unfolding write_as next_write other_writes
write p c =
    if c.closed
    then (err net_closed, c)
    else write_as (next_write c.writes) p (record c { writes = other_writes c.writes })

-- The error of a read that got some bytes, and not all.
abbrev cut_short : Error → Error
cut_short eof = unexpected_eof
cut_short e = e

read_error : Bytes → Error → Error
read_error [] e = e
read_error (x ∷ xs) e = cut_short e

-- io.ReadFull(conn, blob) for a blob of `n` bytes. Nothing is read for an empty blob.
unfoldable pub read_full : ℕ → Exec Conn Bytes
unfolding read_error
read_full n c =
    if n == 0
    then (ok [], c)
    else if c.closed
    then (err net_closed, c)
    else if leb n (length c.incoming)
    then (ok (take n c.incoming), record c { incoming = drop n c.incoming })
    else (err (read_error c.incoming c.ending), record c { incoming = [] })

abbrev nil_or : Option Error → Result (Unit {0})
nil_or none = ok tt
nil_or (some e) = err e

-- Close()
unfoldable pub close : Exec Conn (Unit {0})
close c =
    if c.closed then (err net_closed, c) else (nil_or c.close_error, record c { closed = true })

-- ===== src/Net/Laws.antt =====
-- How reads, writes and Close act on a connection.
use droidmole.Base.{
  ℕ, ◌+◌, ◌<◌, ◌≡◌, refl, true, false, [], ◌∷◌, ◌++◌, Bytes, length, take-append_self,
  drop-append_self, length-append, arith, length-take, length-drop,
}
use droidmole.Go.{net_closed, ok, err, unexpected_eof, eof}
use droidmole.Net.{Conn, write, read_full, close}

-- The connection with other bytes to read, and after more bytes were written.
abbrev pub arriving : Bytes → Conn → Conn
arriving xs c = record c { incoming = xs }

abbrev pub sent : Bytes → Conn → Conn
sent p c = record c { outgoing = c.outgoing ++ p }

-- A blob that the peer has sent is read whole, and what follows it is left.
pub read_full-append :
    (xs rest : Bytes) (c : Conn)
    → c.closed ≡ false
    → read_full (length xs) (arriving (xs ++ rest) c) ≡ (ok xs, arriving rest c)
unfolding read_full
read_full-append [] rest c h = refl
read_full-append (x ∷ xs) rest c h =
    ground (arith, length-append xs rest, take-append_self xs rest, drop-append_self xs rest)

-- An open connection whose writes all succeed.
pub record IsOpen (c : Conn) : Type 0 where
  pub opened : c.closed ≡ false
  pub unbroken : c.writes ≡ []

pub write_full : (p : Bytes) (c : Conn) → IsOpen c → write p c ≡ (ok (length p), sent p c)
unfolding write
write_full p c h = ground arith

-- The same for a number of bytes that is the blob's length by an equation.
pub read_full-sized :
    (n : ℕ) (xs rest : Bytes) (c : Conn)
    → c.closed ≡ false
    → n ≡ length xs
    → read_full n (arriving (xs ++ rest) c) ≡ (ok xs, arriving rest c)
read_full-sized n xs rest c h e = rw e (read_full-append xs rest c h)

-- Some bytes, but less than was asked for before the stream ends, are an error.
pub read_full-short :
    (n : ℕ) (xs : Bytes) (c : Conn)
    → c.closed ≡ false
    → c.ending ≡ eof
    → 0 < length xs
    → length xs < n
    → read_full n (arriving xs c) ≡ (err unexpected_eof, arriving [] c)
unfolding read_full
read_full-short n [] c h e pos l = absurd (omega arith)
read_full-short n (x ∷ xs) c h e pos l = ground arith

-- Nothing is read from a closed connection.
pub read_full-closed :
    (n : ℕ) (c : Conn) → c.closed ≡ true → 0 < n → read_full n c ≡ (err net_closed, c)
unfolding read_full
read_full-closed n c h pos = ground arith

pub closed-close : (c : Conn) → (close c).1.closed ≡ true
unfolding close
closed-close c = ground arith

-- Neither direction of a connection disturbs the other, and nothing that was written is taken back.
pub outgoing-read_full : (n : ℕ) (c : Conn) → (read_full n c).1.outgoing ≡ c.outgoing
unfolding read_full
outgoing-read_full n c = ground arith

pub incoming-write : (p : Bytes) (c : Conn) → (write p c).1.incoming ≡ c.incoming
unfolding write
incoming-write p c = ground arith

-- A read that succeeds returns as many bytes as were asked for.
pub length-read_full :
    (n : ℕ) (c d : Conn) (xs : Bytes) → read_full n c ≡ (ok xs, d) → length xs ≡ n
unfolding read_full
length-read_full n c d xs e = ground (arith, length-take n c.incoming)

-- A read that succeeds takes what it returns off the stream.
pub incoming-read_full :
    (n : ℕ) (c d : Conn) (xs : Bytes)
    → read_full n c ≡ (ok xs, d)
    → length d.incoming + n ≡ length c.incoming
unfolding read_full
incoming-read_full n c d xs e = ground (arith, length-drop n c.incoming)

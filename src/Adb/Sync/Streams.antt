-- ===== src/Adb/Sync/Streams.antt =====
-- The file streams of agent/server/adb/sync.go: `Recv`, `Send` and `Done`.
use droidmole.Base.{
  ℕ, ◌≤◌, ◌<◌, ◌≡◌, refl, true, false, none, some, [], ◌++◌, append_assoc, arith, ltb, lt→ltb,
  length, Bytes, bytes, IsU32, u32, put_u32, get_u32,
}
use droidmole.Go.{Error, net_closed, text, Result, ok, err, panic, Exec, heedless, continue, ◌>>=◌}
use droidmole.Net.{Conn}
use droidmole.Net.Laws.{arriving, sent, IsOpen, read_full-closed}
use droidmole.Adb.Raw
use droidmole.Adb.Raw.{shut}
use droidmole.Adb.Raw.Framing.{IsOpen-arriving, write_raw-IsOpen, read_raw-append}
use droidmole.Adb.Raw.Closing.{errors_close}
use droidmole.Adb.Sync.{id_of, word_of, received, recv, send, receipt, done}
use droidmole.Adb.Sync.Packets.{id_done, id_fail, id_data, id_okay, max_data, blob_header, word}

pub send-IsOpen :
    (blob : Bytes) (c : Conn)
    → IsOpen c
    → length blob ≤ max_data
    → send blob c ≡ (ok tt, sent blob (sent (blob_header id_data blob) c))
unfolding send
send-IsOpen blob c h small = rw (not_over blob small) (
    rw (write_raw-IsOpen (blob_header id_data blob) c h) (
      rw (
        write_raw-IsOpen blob (sent (blob_header id_data blob) c)
          (record { opened = h.opened; unbroken = h.unbroken }))))
  where
    not_over : (blob : Bytes) → length blob ≤ max_data → ltb max_data (length blob) ≡ false
    not_over blob small = ground arith

module _ (rest : Bytes) (c : Conn) (opened : c.closed ≡ false) where
  -- The packet of an id below 2 ^ 32 and a sized blob is read whole.
  recv-packet :
      (id : ℕ) (blob : Bytes)
      → IsU32 id
      → IsU32 (length blob)
      → recv (arriving (blob_header id blob ++ (blob ++ rest)) c)
        ≡ received id blob (arriving rest c)
  unfolding recv
  recv-packet id blob hid hb =
      rw (read_raw-append (blob ++ rest) c opened 8 (blob_header id blob) refl) (
        rw
          (read_raw-append rest c opened (get_u32 (put_u32 (u32 (length blob)))) blob
            (omega (arith, hb)))
          (rw (word id hid)))

  pub recv-data :
      (blob : Bytes)
      → IsU32 (length blob)
      → recv (arriving (blob_header id_data blob ++ (blob ++ rest)) c)
        ≡ (ok (some blob), arriving rest c)
  unfolding received
  recv-data blob hb = rw (recv-packet id_data blob (omega arith) hb)

  pub recv-done :
      (blob : Bytes)
      → IsU32 (length blob)
      → recv (arriving (blob_header id_done blob ++ (blob ++ rest)) c)
        ≡ (ok none, shut (arriving rest c))
  unfolding received
  recv-done blob hb = rw (recv-packet id_done blob (omega arith) hb)

  pub recv-fail :
      (blob : Bytes)
      → IsU32 (length blob)
      → recv (arriving (blob_header id_fail blob ++ (blob ++ rest)) c)
        ≡ (err (text blob), shut (arriving rest c))
  unfolding received
  recv-fail blob hb = rw (recv-packet id_fail blob (omega arith) hb)

-- A blob of at most `max_data` bytes that `send` puts on a working connection is what `recv` takes
-- from a connection on which it arrives, and what follows it is left.
pub recv-send :
    (blob rest : Bytes) (c d : Conn)
    → IsOpen c
    → c.outgoing ≡ []
    → d.closed ≡ false
    → length blob ≤ max_data
    → recv (arriving ((send blob c).1.outgoing ++ rest) d) ≡ (ok (some blob), arriving rest d)
recv-send blob rest c d h empty opened small =
    rw (send-IsOpen blob c h small)
      (rw empty (rw append_assoc (recv-data rest d opened blob (omega (arith, small)))))

-- `send` refuses a larger blob: nothing is written, and the connection is closed.
pub send_too_large :
    (blob : Bytes) (c : Conn)
    → max_data < length blob
    → send blob c ≡ (err (text (bytes "send blob over max size")), shut c)
unfolding send
send_too_large blob c large = rw (lt→ltb max_data (length blob) large)

-- `done` on a working connection writes the packet of the modification time. It succeeds on the
-- receipt OKAY, and returns the message of a failure; either way the connection is closed.
pub done_answers :
    (mtime : ℕ) (msg rest : Bytes) (c : Conn)
    → IsOpen c
    → IsU32 (length msg)
    → let written = sent (put_u32 id_done ++ put_u32 mtime) c in
      (done mtime (arriving (blob_header id_okay msg ++ (msg ++ rest)) c)
        ≡ (ok tt, shut (arriving rest written)))
      × (done mtime (arriving (blob_header id_fail msg ++ (msg ++ rest)) c)
          ≡ (err (text msg), shut (arriving rest written)))
unfolding done
done_answers mtime msg rest c h hm = (answer id_okay (omega arith), answer id_fail (omega arith))
  where
    written : Conn
    written = sent (put_u32 id_done ++ put_u32 mtime) c

    answer :
        (id : ℕ)
        → IsU32 id
        → done mtime (arriving (blob_header id msg ++ (msg ++ rest)) c) ≡ (
          (receipt id msg (arriving rest written)).0,
          shut (receipt id msg (arriving rest written)).1,
        )
    answer id hid =
        rw
          (write_raw-IsOpen (put_u32 id_done ++ put_u32 mtime)
            (arriving (blob_header id msg ++ (msg ++ rest)) c) (IsOpen-arriving _ c h))
          (rw (read_raw-append (msg ++ rest) written h.opened 8 (blob_header id msg) refl) (
            rw
              (read_raw-append rest written h.opened (get_u32 (put_u32 (u32 (length msg)))) msg
                (omega (arith, hm)))
              (rw (word id hid))))

-- The code drops the error of the write, and still a transfer whose last packet was not written is
-- never reported as done: the failed write has closed the connection, so the read of the receipt fails.
pub done_write_fails :
    (mtime : ℕ) (c : Conn) (e : Error)
    → (Raw.write_raw (put_u32 id_done ++ put_u32 mtime) c).0 ≡ err e
    → (done mtime c).0 ≡ err net_closed
unfolding done
done_write_fails mtime c e h =
    go (Raw.write_raw packet c).0 (Raw.write_raw packet c).1 h
      ((errors_close packet 0 0 (λ n. n)).0 c e h)
  where
    packet : Bytes
    packet = put_u32 id_done ++ put_u32 mtime

    confirm : Exec Conn (Unit {0})
    confirm = do
      answer ← Raw.read_raw 8
      blob ← Raw.read_raw (word_of answer)
      receipt (id_of answer) blob

    go :
        (r : Result (Unit {0})) (d : Conn)
        → r ≡ err e
        → d.closed ≡ true
        → (continue (heedless r) (λ _. confirm) d).0 ≡ err net_closed
    go (ok t) d p closed = cc
    go (err x) d p closed = unfold Raw.read_raw in rw (read_full-closed 8 d closed (omega arith))
    go panic d p closed = cc

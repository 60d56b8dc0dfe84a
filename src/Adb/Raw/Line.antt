-- ===== src/Adb/Raw/Line.antt =====
-- ReadLine of agent/server/adb/raw.go: a bufio.Scanner over the connection, which reads in pieces of a
-- size that is not known before, and keeps what it has read behind the line.
use droidmole.Base.{
  ℕ, zero, suc, ◌-◌, min, ◌==◌, leb, if◌then◌else◌, Option, none, some, [], ◌∷◌, ◌++◌, length, take,
  drop, Bytes, bytes,
}
use droidmole.Go.{Error, eof, net_closed, text, ok, err, Exec}
use droidmole.Net.{Conn}
use droidmole.Adb.Raw.{shut}

cons_line : ℕ → Option Bytes → Option Bytes
cons_line c none = none
cons_line c (some l) = some (c ∷ l)

-- What stands before the first newline, if there is one.
unfoldable pub line_in : Bytes → Option Bytes
unfolding cons_line
line_in [] = none
line_in (c ∷ s) = let rest = cons_line c (line_in s) in if c == 10 then some [] else rest

unfoldable pub drop_cr : Bytes → Bytes
drop_cr [] = []
drop_cr (c ∷ []) = if c == 13 then [] else c ∷ []
drop_cr (c ∷ d ∷ s) = c ∷ drop_cr (d ∷ s)

-- What is left when the stream ends is a line; nothing is the end, at which the connection is closed.
unfoldable pub finish : Error → Bytes → Exec Conn (Option (Option Bytes))
unfolding drop_cr
finish e (c ∷ s) conn = (ok (some (some (drop_cr (c ∷ s)))), conn)
finish eof [] conn = (ok (some none), shut conn)
finish e [] conn = (err e, shut conn)

unfoldable pub max_token : ℕ
max_token = 65536

-- One more piece, of at least one byte and at most the room that is left.
unfoldable pub refill :
    ℕ
    → Bytes
    → (Bytes → Exec Conn (Option (Option Bytes)))
    → Bytes
    → Exec Conn (Option (Option Bytes))
unfolding finish
refill size buf more [] conn = finish conn.ending buf conn
refill size buf more (b ∷ bs) conn =
    let n = min (suc size) (max_token - length buf) in
    more (buf ++ take n (b ∷ bs)) (record conn { incoming = drop n (b ∷ bs) })

unfoldable pub grow :
    ℕ → Bytes → (Bytes → Exec Conn (Option (Option Bytes))) → Exec Conn (Option (Option Bytes))
unfolding refill max_token
grow size buf more conn =
    if leb max_token (length buf)
    then (err (text (bytes "bufio.Scanner: token too long")), shut conn)
    else if conn.closed
    then finish net_closed buf conn
    else refill size buf more conn.incoming conn

unfoldable pub on_line :
    Option Bytes → Exec Conn (Option (Option Bytes)) → Exec Conn (Option (Option Bytes))
unfolding drop_cr
on_line (some l) more conn = (ok (some (some (drop_cr l))), conn)
on_line none more conn = more conn

-- `none` is that the fuel ran out; a round of `sizes` is the fuel that is left.
unfoldable pub scan : (sizes : ℕ → ℕ) → ℕ → Bytes → Exec Conn (Option (Option Bytes))
unfolding on_line grow line_in
scan sizes zero buf conn = (ok none, conn)
scan sizes (suc fuel) buf conn =
    on_line (line_in buf) (grow (sizes fuel) buf (scan sizes fuel)) conn

unfoldable pub read_line : (ℕ → ℕ) → Exec Conn (Option (Option Bytes))
read_line sizes conn = scan sizes (suc (suc (length conn.incoming))) [] conn

-- ===== src/SysLog.antt =====
-- agent/server/syslog/syslog.go: lines of the device's log, handed to any number of listeners, and
-- `StreamSysLog` of agent/server/controller.go, which is their only user. The socket and its scanner
-- give the lines. Listeners are shared by pointer; the store of the listeners is part of the state.
pub mod Rounds
pub mod Delivery
pub mod Streams
pub mod Lines
mod Tests
use droidmole.Base.{
  ℕ, zero, suc, ◌+◌, ◌==◌, ltb, Bool, true, false, if◌then◌else◌, Option, none, some, List, [], ◌∷◌,
  ◌++◌, take, drop, get_elem?, length, Bytes,
}
use droidmole.Go.{Error, Result, ok, err, panic, Exec, crash}

pub record Listener : Type 0 where
  -- the lines in the channel, oldest first
  pub channel : List Bytes
  pub closed : Bool

pub record SysLog : Type 0 where
  -- what each pointer stands for, and the first that is free
  pub listeners : ℕ → Listener
  pub next : ℕ
  pub clients : List ℕ

abbrev pub capacity : ℕ
capacity = 100

abbrev pub fresh : Listener
fresh = record { channel = []; closed = false }

unfoldable pub start : SysLog
start = record { listeners = λ _. fresh; next = 0; clients = [] }

abbrev pub store : ℕ → Listener → (ℕ → Listener) → ℕ → Listener
store a l h b = if a == b then l else h b

-- Whether the listener is still there. A full channel drops the line.
unfoldable pub send : Bytes → Listener → Bool × Listener
send msg l =
    if l.closed
    then (false, l)
    else if ltb (length l.channel) capacity
    then (true, record l { channel = l.channel ++ msg ∷ [] })
    else (true, l)

-- One round of the loop in `processor`; an index out of range panics.
send_at : Bytes → ℕ → Option ℕ → Exec SysLog (Unit {0})
send_at msg i none s = (panic, s)
send_at msg i (some a) s =
    let (kept, l) = send msg (s.listeners a) in
    let stored = store a l s.listeners in
    if kept then (ok tt, record s { listeners = stored }) else (
      ok tt,
      record s { listeners = stored; clients = take i s.clients ++ drop (suc i) s.clients },
    )

-- The loop from the client below `i` down to the first.
pub send_below : ℕ → Bytes → Exec SysLog (Unit {0})
unfolding send_at
send_below zero msg s = (ok tt, s)
send_below (suc i) msg s = next_below (send_at msg i (get_elem? s.clients i) s) (send_below i msg)
  where
    next_below : Result (Unit {0}) × SysLog → Exec SysLog (Unit {0}) → Result (Unit {0}) × SysLog
    next_below (ok t, s) more = more s
    next_below (r, s) more = (r, s)

-- What `processor` does with a line.
unfoldable pub deliver : Bytes → Exec SysLog (Unit {0})
unfolding send_below
deliver msg s = send_below (length s.clients) msg s

unfoldable pub listen : Exec SysLog ℕ
listen s = (
  ok s.next,
  record s {
    listeners = store s.next fresh s.listeners;
    next = s.next + 1;
    clients = s.clients ++ s.next ∷ [];
  },
)

abbrev pub front : List Bytes → Option Bytes
front [] = none
front (x ∷ xs) = some x

abbrev pub behind : List Bytes → List Bytes
behind [] = []
behind (x ∷ xs) = xs

-- What `Recv` gets; `none` where it waits, which changes nothing.
unfoldable pub recv : ℕ → Exec SysLog (Option Bytes)
recv a s =
    let l = s.listeners a in
    (
      ok (front l.channel),
      record s { listeners = store a (record l { channel = behind l.channel }) s.listeners },
    )

unfoldable pub close : ℕ → SysLog → SysLog
close a s = record s { listeners = store a (record (s.listeners a) { closed = true }) s.listeners }

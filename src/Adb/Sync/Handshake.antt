-- ===== src/Adb/Sync/Handshake.antt =====
-- The two commands by which each method of agent/server/adb/sync.go reaches the sync service.
use droidmole.Base.{◌≡◌, ◌++◌, Bytes, bytes}
use droidmole.Go.{ok}
use droidmole.Net.{Conn}
use droidmole.Net.Laws.{arriving, sent, IsOpen}
use droidmole.Adb.Raw
use droidmole.Adb.Raw.{shut}
use droidmole.Adb.Raw.Framing.{framed, send_command_okay, IsOpen-arriving, write_raw-IsOpen}
use droidmole.Adb.Client.{send_command, open_emulator}

-- The connection after `host:transport-local` and `sync:` were written.
abbrev pub ready : Conn → Conn
ready c = sent (framed (bytes "sync:")) (sent (framed (bytes "host:transport-local")) c)

pub IsOpen-ready : (c : Conn) → IsOpen c → IsOpen (ready c)
IsOpen-ready c h = record { opened = h.opened; unbroken = h.unbroken }

-- The server accepts both commands, and `rest` follows.
abbrev pub accepted : Bytes → Bytes
accepted rest = bytes "OKAY" ++ (bytes "OKAY" ++ rest)

module _ (rest : Bytes) (c : Conn) (h : IsOpen c) where
  pub open_emulator-okay :
      open_emulator (arriving (bytes "OKAY" ++ rest) c)
      ≡ (ok tt, arriving rest (sent (framed (bytes "host:transport-local")) c))
  unfolding open_emulator send_command
  open_emulator-okay = rw (send_command_okay (bytes "host:transport-local") rest c h)

  pub sync-okay :
      Raw.send_command
        (bytes "sync:")
        (arriving (bytes "OKAY" ++ rest) (sent (framed (bytes "host:transport-local")) c))
      ≡ (ok tt, arriving rest (ready c))
  sync-okay =
      send_command_okay (bytes "sync:") rest (sent (framed (bytes "host:transport-local")) c)
        (record { opened = h.opened; unbroken = h.unbroken })

  -- A request that is then written.
  pub request-okay :
      (p : Bytes)
      → Raw.write_raw p (arriving rest (ready c)) ≡ (ok tt, arriving rest (sent p (ready c)))
  request-okay p =
      write_raw-IsOpen p (arriving rest (ready c))
        (IsOpen-arriving rest (ready c) (IsOpen-ready c h))

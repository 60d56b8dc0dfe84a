-- ===== src/Adb/Dial.antt =====
-- `RawConnectionFactory` of agent/server/adb/raw.go, and the life of one dialled connection.
use droidmole.Base.{Option, none, some}
use droidmole.Go.{Error, Result, err, Exec}
use droidmole.Net.{Conn}

-- What net.Dial gives.
pub data Dial : Type 0 where
  refused : Error → Dial
  connected : Conn → Dial

-- A method of `systemImpl` dials, and then acts on its connection. The connection that is left is
-- part of the result: whether it was closed shows there.
unfoldable pub session : {A : Type 0} → Dial → Exec Conn A → Result A × Option Conn
session (refused e) m = (err e, none)
session (connected c) m = let (r, c') = m c in (r, some c')

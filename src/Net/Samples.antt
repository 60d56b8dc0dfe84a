-- ===== src/Net/Samples.antt =====
-- A connection for the tests: open, with nothing sent or written yet.
use droidmole.Base.{refl, false, none, []}
use droidmole.Go.{eof}
use droidmole.Net.{Conn}
use droidmole.Net.Laws.{IsOpen}

abbrev pub line : Conn
line = record {
  incoming = [];
  ending = eof;
  outgoing = [];
  writes = [];
  closed = false;
  close_error = none;
}

pub line-IsOpen : IsOpen line
line-IsOpen = record { opened = refl; unbroken = refl }

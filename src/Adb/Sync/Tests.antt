-- ===== src/Adb/Sync/Tests.antt =====
-- The theorems about agent/server/adb/sync.go at concrete inputs, with those of sync_test.go.
use droidmole.Base.{
  ℕ, ◌<◌, ◌≡◌, refl, some, [], ◌∷◌, ◌++◌, arith, length, replicate, length-replicate, Bytes, bytes,
  put_u32,
}
use droidmole.Go.{eof, ok}
use droidmole.Net.{Conn, broken}
use droidmole.Net.Laws.{arriving, sent}
use droidmole.Net.Samples.{line, line-IsOpen}
use droidmole.Adb.Dial.{connected}
use droidmole.Adb.Raw.{shut}
use droidmole.Adb.Sync.{list_directory, recv, send}
use droidmole.Adb.Sync.Packets.{
  id_done, max_data, FileStat, ListDirectoryEntry, IsFileStat, list_packet,
}
use droidmole.Adb.Sync.Handshake.{accepted, ready}
use droidmole.Adb.Sync.Listing.{wire, IsEntry, list_directory-wire}
use droidmole.Adb.Sync.Streams.{recv-send}

abbrev stat : FileStat
stat = record {
  dev = 1;
  ino = 2;
  file_mode = 3;
  nlink = 4;
  uid = 5;
  gid = 6;
  size = 7;
  atime = 8;
  mtime = 9;
  ctime = 10;
}

stat-IsFileStat : IsFileStat stat
stat-IsFileStat = record {
  dev_fits = omega arith;
  ino_fits = omega arith;
  mode_fits = omega arith;
  nlink_fits = omega arith;
  uid_fits = omega arith;
  gid_fits = omega arith;
  size_fits = omega arith;
  atime_fits = omega arith;
  mtime_fits = omega arith;
  ctime_fits = omega arith;
}

abbrev entry : ListDirectoryEntry
entry = record { name = bytes "entry_1"; stat_error = 11; stat = stat }

entry-IsEntry : IsEntry entry
entry-IsEntry = record {
  name_fits = omega arith;
  error_fits = omega arith;
  stat_fits = stat-IsFileStat;
}

abbrev path : Bytes
path = bytes "/test"

list_directory-wire_example :
    list_directory path (
      connected
        (arriving (accepted (wire (entry ∷ []) (put_u32 id_done ++ replicate 72 0 ++ []))) line))
    ≡ (ok (some (entry ∷ [])), some (shut (arriving [] (sent (list_packet path) (ready line)))))
list_directory-wire_example =
    list_directory-wire path (replicate 72 0) [] (entry ∷ []) line line-IsOpen refl
      (entry-IsEntry, tt)

recv-send_example :
    recv (arriving ((send (bytes "blob") line).1.outgoing ++ bytes "more") line)
    ≡ (ok (some (bytes "blob")), arriving (bytes "more") line)
recv-send_example =
    recv-send (bytes "blob") (bytes "more") line line line-IsOpen refl refl (omega arith)

-- A long blob, kept shut so that its length does not unfold.
zeros : Bytes
zeros = replicate 65537 0

length-zeros : max_data < length zeros
unfolding zeros
length-zeros = omega (arith, length-replicate {A = ℕ} 65537 0)

-- A connection whose next write fails.
abbrev cut : Conn
cut = record line { writes = broken 3 eof ∷ [] }

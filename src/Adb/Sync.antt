-- ===== src/Adb/Sync.antt =====
-- agent/server/adb/sync.go: files of the device by the sync protocol.
-- Each of the first four methods dials; a stream is the connection that it holds.
pub mod Packets
pub mod Handshake
pub mod Listing
pub mod Closing
pub mod Streams
mod Tests
use droidmole.Base.{
  ℕ, zero, suc, ◌+◌, ◌-◌, ◌*◌, ◌/◌, ◌%◌, ◌^◌, ◌≤◌, ◌<◌, min, ◌≡◌, refl, sym, ap, ◌∙◌, subst,
  fun_ext, ◌≢◌, ◌↔◌, ◌⊎◌, inl, inr, Bool, true, false, not, ◌&&◌, ◌||◌, Option, none, some, List,
  [], ◌∷◌, ◌++◌, map, append-nil, append_assoc, arith, ltb, leb, ◌==◌, if◌then◌else◌, ltb→lt,
  lt→ltb, leb→le, le→leb, lt→leb_false, ==_iff, tests, Bool-cases, Option-cases, length, get_elem?,
  take, drop, replicate, All, length-append, take-append_self, drop-append_self, take-append-drop,
  length-take, length-drop, length-replicate, Bytes, bytes, bytes_eq, bytes_eq_refl, eq_of_bytes_eq,
  IsByte, IsU32, IsU64, u32, put_u32, put_u64, get_u32, get_u64, slice, get_u32-put_u32,
  get_u64-put_u64,
}
use droidmole.Go.{
  Code, invalid_argument, failed_precondition, internal, Error, eof, unexpected_eof, net_closed,
  system, text, syntax, status, Result, ok, err, panic, Exec, pure, fail, crash, lift, on_err_with,
  on_err, deferred, heedless, ignoring, after, continue, ◌>>=◌, ◌>>◌, bind-ok, bind-err, bind_inv,
  on_err_inv, on_err-ok, on_err-err, deferred-eq,
}
use droidmole.Net.{Conn}
use droidmole.Adb.Dial.{Dial, session}
use droidmole.Adb.Raw
use droidmole.Adb.Raw.{shut}
use droidmole.Adb.Client.{open_emulator}
use Packets.{
  id_list_v2, id_dent_v2, id_done, id_stat_v2, id_lstat_v2, id_recv_v2, id_fail, id_data,
  id_send_v2, id_okay, max_data, file_stat_size, FileStat, parse_file_stat, ListDirectoryEntry,
  list_packet, stat_packet, pull_packet, push_packet,
}

abbrev id_of : Bytes → ℕ
id_of p = get_u32 (slice 0 4 p)

abbrev word_of : Bytes → ℕ
word_of p = get_u32 (slice 4 4 p)

-- The entry of a packet and of the name that followed it.
abbrev entry_of : Bytes → Bytes → ListDirectoryEntry
entry_of packet name = record {
  name = name;
  stat_error = word_of packet;
  stat = parse_file_stat (slice 8 file_stat_size packet);
}

-- The loop over the entries; `none` when the fuel runs out.
list_loop : ℕ → List ListDirectoryEntry → Exec Conn (Option (List ListDirectoryEntry))
list_loop zero entries = pure none
list_loop (suc fuel) entries = do
  packet ← Raw.read_raw (file_stat_size + 12)
  if id_of packet == id_done
      then pure (some entries)
      else if id_of packet == id_dent_v2
      then (do
        name ← Raw.read_raw (get_u32 (slice (8 + file_stat_size) 4 packet))
        list_loop fuel (entries ++ entry_of packet name ∷ []))
      else fail (text (bytes "unexpected response id"))

-- A round takes a packet, so a round for each byte that arrives is enough.
list_entries : Exec Conn (Option (List ListDirectoryEntry))
unfolding list_loop
list_entries c = list_loop (suc (length c.incoming)) [] c

unfoldable pub list_directory :
    Bytes → Dial → Result (Option (List ListDirectoryEntry)) × Option Conn
unfolding session list_entries
list_directory path dial = session dial do
  open_emulator
  deferred (do Raw.send_command (bytes "sync:"); Raw.write_raw (list_packet path); list_entries)
      shut

-- The answer to a stat, from its first packet.
stat_answer : Bytes → Exec Conn (ℕ × FileStat)
stat_answer packet =
    if id_of packet == id_fail
    then (do msg ← Raw.read_raw (word_of packet); fail (text msg))
    else if not (id_of packet == id_stat_v2) && not (id_of packet == id_lstat_v2)
    then fail (text (bytes "unexpected response id"))
    else pure (word_of packet, parse_file_stat (slice 8 file_stat_size packet))

unfoldable pub stat_file : Bytes → Bool → Dial → Result (ℕ × FileStat) × Option Conn
unfolding session stat_answer
stat_file path follow_links dial = session dial do
  open_emulator
  deferred
      (do
        Raw.send_command (bytes "sync:")
        Raw.write_raw (stat_packet path follow_links)
        packet ← Raw.read_raw (file_stat_size + 8)
        stat_answer packet)
      shut

-- `PullFile`: on success the connection that is left is the stream.
unfoldable pub pull_file : Bytes → Dial → Result (Unit {0}) × Option Conn
unfolding session
pull_file path dial = session dial do
  open_emulator
  on_err (Raw.send_command (bytes "sync:")) shut
  on_err (Raw.write_raw (pull_packet path)) shut

-- What `Recv` makes of a packet's id and blob; `none` is the end of the file.
received : ℕ → Bytes → Exec Conn (Option Bytes)
received id blob =
    if id == id_fail
    then after shut (fail (text blob))
    else if id == id_data
    then pure (some blob)
    else if id == id_done
    then after shut (pure none)
    else after shut (fail (text (bytes "unexpected resp id")))

unfoldable pub recv : Exec Conn (Option Bytes)
unfolding received
recv = do
  packet ← Raw.read_raw 8
  blob ← Raw.read_raw (word_of packet)
  received (id_of packet) blob

-- `PushFile`: on success the connection that is left is the stream.
unfoldable pub push_file : Bytes → ℕ → Dial → Result (Unit {0}) × Option Conn
unfolding session
push_file path mode dial = session dial do
  open_emulator
  on_err (Raw.send_command (bytes "sync:")) shut
  on_err (Raw.write_raw (push_packet path mode)) shut

unfoldable pub send : Bytes → Exec Conn (Unit {0})
send blob =
    if ltb max_data (length blob)
    then after shut (fail (text (bytes "send blob over max size")))
    else (do
      on_err (Raw.write_raw (put_u32 id_data ++ put_u32 (u32 (length blob)))) shut
      on_err (Raw.write_raw blob) shut)

-- What `Done` makes of the receipt.
receipt : ℕ → Bytes → Exec Conn (Unit {0})
receipt id blob =
    if id == id_fail
    then fail (text blob)
    else if id == id_okay
    then pure tt
    else fail (text (bytes "unexpected resp id"))

-- The error of the write is overwritten by that of the read.
unfoldable pub done : ℕ → Exec Conn (Unit {0})
unfolding receipt
done mtime =
    deferred
      (do
        ignoring (Raw.write_raw (put_u32 id_done ++ put_u32 mtime))
        packet ← Raw.read_raw 8
        blob ← Raw.read_raw (word_of packet)
        receipt (id_of packet) blob)
      shut

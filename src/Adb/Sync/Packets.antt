-- ===== src/Adb/Sync/Packets.antt =====
-- The packets of the adb sync protocol that agent/server/adb/sync.go builds and takes apart.
use droidmole.Base.{
  ℕ, ◌+◌, ◌*◌, ◌^◌, ◌≡◌, Bool, ◌++◌, arith, if◌then◌else◌, length, Bytes, IsU32, IsU64, u32,
  put_u32, put_u64, get_u32, get_u64, slice, get_u64-put_u64,
}

-- A packet id is four letters in little-endian order: 'L' | ('I' << 8) | ('S' << 16) | ('2' << 24).
abbrev pub packet_id : ℕ → ℕ → ℕ → ℕ → ℕ
packet_id a b c d = a + b * 2 ^ 8 + c * 2 ^ 16 + d * 2 ^ 24

abbrev pub id_list_v2 : ℕ
id_list_v2 = packet_id b'L' b'I' b'S' b'2'

abbrev pub id_dent_v2 : ℕ
id_dent_v2 = packet_id b'D' b'N' b'T' b'2'

abbrev pub id_done : ℕ
id_done = packet_id b'D' b'O' b'N' b'E'

abbrev pub id_stat_v2 : ℕ
id_stat_v2 = packet_id b'S' b'T' b'A' b'2'

abbrev pub id_lstat_v2 : ℕ
id_lstat_v2 = packet_id b'L' b'S' b'T' b'2'

abbrev pub id_recv_v2 : ℕ
id_recv_v2 = packet_id b'R' b'C' b'V' b'2'

abbrev pub id_fail : ℕ
id_fail = packet_id b'F' b'A' b'I' b'L'

abbrev pub id_data : ℕ
id_data = packet_id b'D' b'A' b'T' b'A'

abbrev pub id_send_v2 : ℕ
id_send_v2 = packet_id b'S' b'N' b'D' b'2'

abbrev pub id_okay : ℕ
id_okay = packet_id b'O' b'K' b'A' b'Y'

abbrev pub max_data : ℕ
max_data = 64 * 1024

abbrev pub file_stat_size : ℕ
file_stat_size = 4 * 16

-- The times are int64, as bit patterns.
pub record FileStat : Type 0 where
  pub dev : ℕ
  pub ino : ℕ
  pub file_mode : ℕ
  pub nlink : ℕ
  pub uid : ℕ
  pub gid : ℕ
  pub size : ℕ
  pub atime : ℕ
  pub mtime : ℕ
  pub ctime : ℕ

unfoldable pub parse_file_stat : Bytes → FileStat
parse_file_stat p = record {
  dev = get_u64 (slice 0 8 p);
  ino = get_u64 (slice 8 8 p);
  file_mode = get_u32 (slice 16 4 p);
  nlink = get_u32 (slice 20 4 p);
  uid = get_u32 (slice 24 4 p);
  gid = get_u32 (slice 28 4 p);
  size = get_u64 (slice 32 8 p);
  atime = get_u64 (slice 40 8 p);
  mtime = get_u64 (slice 48 8 p);
  ctime = get_u64 (slice 56 8 p);
}

pub record ListDirectoryEntry : Type 0 where
  pub name : Bytes
  pub stat_error : ℕ
  pub stat : FileStat

-- uint32(len(path)) and the path
abbrev sized_path : Bytes → Bytes
sized_path path = put_u32 (u32 (length path)) ++ path

unfoldable pub list_packet : Bytes → Bytes
list_packet path = put_u32 id_list_v2 ++ sized_path path

unfoldable pub stat_packet : Bytes → Bool → Bytes
stat_packet path follow_links =
    put_u32 (if follow_links then id_stat_v2 else id_lstat_v2) ++ sized_path path

unfoldable pub pull_packet : Bytes → Bytes
pull_packet path = put_u32 id_recv_v2 ++ (sized_path path ++ (put_u32 id_recv_v2 ++ put_u32 0))

unfoldable pub push_packet : Bytes → ℕ → Bytes
push_packet path mode =
    put_u32 id_send_v2 ++ (sized_path path ++ (put_u32 id_send_v2 ++ (put_u32 mode ++ put_u32 0)))

-- What the other side of the protocol sends: the ten fields of a stat, and a packet of an id and a
-- sized blob.
abbrev pub stat_bytes : FileStat → Bytes
stat_bytes s =
    put_u64 s.dev
    ++ (put_u64 s.ino
        ++ (put_u32 s.file_mode
            ++ (put_u32 s.nlink
                ++ (put_u32 s.uid
                    ++ (put_u32 s.gid
                        ++ (put_u64 s.size
                            ++ (put_u64 s.atime ++ (put_u64 s.mtime ++ put_u64 s.ctime))))))))

abbrev pub blob_header : ℕ → Bytes → Bytes
blob_header id blob = put_u32 id ++ put_u32 (u32 (length blob))

-- The fields are in the ranges of their Go types.
pub record IsFileStat (s : FileStat) : Type 0 where
  pub dev_fits : IsU64 s.dev
  pub ino_fits : IsU64 s.ino
  pub mode_fits : IsU32 s.file_mode
  pub nlink_fits : IsU32 s.nlink
  pub uid_fits : IsU32 s.uid
  pub gid_fits : IsU32 s.gid
  pub size_fits : IsU64 s.size
  pub atime_fits : IsU64 s.atime
  pub mtime_fits : IsU64 s.mtime
  pub ctime_fits : IsU64 s.ctime

pub word : (n : ℕ) → IsU32 n → get_u32 (put_u32 n) ≡ n
word n h = omega arith

pub parse_file_stat-stat_bytes : (s : FileStat) → IsFileStat s → parse_file_stat (stat_bytes s) ≡ s
unfolding parse_file_stat
parse_file_stat-stat_bytes s h = λ i. record {
  dev = get_u64-put_u64 s.dev h.dev_fits i;
  ino = get_u64-put_u64 s.ino h.ino_fits i;
  file_mode = word s.file_mode h.mode_fits i;
  nlink = word s.nlink h.nlink_fits i;
  uid = word s.uid h.uid_fits i;
  gid = word s.gid h.gid_fits i;
  size = get_u64-put_u64 s.size h.size_fits i;
  atime = get_u64-put_u64 s.atime h.atime_fits i;
  mtime = get_u64-put_u64 s.mtime h.mtime_fits i;
  ctime = get_u64-put_u64 s.ctime h.ctime_fits i;
}

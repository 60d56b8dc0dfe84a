-- ===== src/Builder/Ramdisk.antt =====
-- builder/cmd/patchramdisk.go: the modules and the init of a ramdisk, replaced. The package cpio is a
-- parameter: how an archive is read, and the bytes of the records that were written. So are the lz4
-- reader, the files read and written, path.Join, and the order in which Go runs through a map.
pub mod Archives
pub mod Padding
pub mod Records
use droidmole.Base.{
  ℕ, zero, suc, ◌+◌, ◌-◌, ◌%◌, ◌^◌, ◌==◌, ltb, Bool, true, false, not, ◌&&◌, ◌||◌, if◌then◌else◌,
  Option, none, some, List, [], ◌∷◌, ◌++◌, length, drop, replicate, Bytes, bytes, bytes_eq,
  has_prefix, has_suffix, trim_prefix, index, split,
}
use droidmole.Go.{Error, text, Result, ok, err, panic, Exec, pure, lift, continue, ◌>>=◌, ◌>>◌}

-- cpio.Record: the information of a file, and its content.
pub record Record : Type 0 where
  pub ino : ℕ
  pub mode : ℕ
  pub uid : ℕ
  pub gid : ℕ
  pub n_link : ℕ
  pub m_time : ℕ
  pub file_size : ℕ
  pub dev : ℕ
  pub major : ℕ
  pub minor : ℕ
  pub r_major : ℕ
  pub r_minor : ℕ
  pub name : Bytes
  pub content : Bytes

-- cpio.Archive: the names in order, and the file of each name.
pub record Archive : Type 0 where
  pub order : List Bytes
  pub files : Bytes → Record

pub data Entry : Type 0 where
  file : Record → Entry
  trailer : Entry

-- The flags of the command.
pub record Flags : Type 0 where
  pub modules : Bytes
  pub init : Bytes

-- What the code does not implement.
pub record World : Type 0 where
  pub parse : Bytes → Result Archive
  -- the bytes of the entries written, and the error of a write behind the others
  pub encode : List Entry → Bytes
  pub write_error : List Entry → Entry → Option Error
  -- os.Open, io.ReadAll and Close, which each may fail
  pub read_file : Bytes → Result Bytes
  pub join : Bytes → Bytes → Bytes
  pub map_order : List Bytes → List Bytes

-- The variables of processSegment.
pub record Segment : Type 0 where
  pub written : List Entry
  pub last_ino : ℕ
  pub has_modules : Bool
  -- the keys of the map
  pub old_modules : List Bytes
  pub has_init : Bool

unfoldable pub fresh : Segment
fresh = record {
  written = [];
  last_ino = 0;
  has_modules = false;
  old_modules = [];
  has_init = false;
}

abbrev pub module_dir : Bytes
module_dir = bytes "lib/modules/"

is_empty : Bytes → Bool
is_empty [] = true
is_empty (c ∷ s) = false

unfoldable pub is_module : Flags → Bytes → Bool
unfolding is_empty
is_module fl name =
    not (is_empty fl.modules) && has_prefix module_dir name && has_suffix (bytes ".ko") name

unfoldable pub is_init : Flags → Bytes → Bool
unfolding is_empty
is_init fl name = not (is_empty fl.init) && bytes_eq name (bytes "init")

mem : Bytes → List Bytes → Bool
mem k [] = false
mem k (j ∷ ks) = bytes_eq k j || mem k ks

-- A new key of a map.
unfoldable pub insert : Bytes → List Bytes → List Bytes
unfolding mem
insert k ks = if mem k ks then ks else ks ++ k ∷ []

write_as : Option Error → Entry → Exec Segment (Unit {0})
write_as none e s = (ok tt, record s { written = s.written ++ e ∷ [] })
write_as (some x) e s = (err x, s)

drop_module : Bytes → Exec Segment (Unit {0})
drop_module name s = (
  ok tt,
  record s { has_modules = true; old_modules = insert (trim_prefix module_dir name) s.old_modules },
)

-- The record of a name, and the marks for it.
unfoldable pub renamed : Flags → Bytes → Record → Record
renamed fl name rec = if is_init fl name then record rec { name = bytes "original-init" } else rec

marked : Flags → Bytes → Record → Segment → Segment
marked fl name rec s = record s {
  has_init = is_init fl name || s.has_init;
  last_ino = if ltb s.last_ino rec.ino then rec.ino else s.last_ino;
}

-- A file that is put in, under the next ino.
pub new_record : ℕ → ℕ → Bytes → Bytes → Record
new_record ino mode name content = record {
  ino = ino;
  mode = mode;
  uid = 0;
  gid = 0;
  n_link = 1;
  m_time = 0;
  file_size = length content;
  dev = 0;
  major = 0;
  minor = 0;
  r_major = 0;
  r_minor = 0;
  name = name;
  content = content;
}

module _ (w : World) (fl : Flags) where
  unfoldable pub write_record : Entry → Exec Segment (Unit {0})
  unfolding write_as
  write_record e s = write_as (w.write_error s.written e) e s

  unfoldable pub pass : Archive → Bytes → Exec Segment (Unit {0})
  unfolding drop_module renamed marked
  pass a name s =
      if is_module fl name
      then drop_module name s
      else write_record (file (renamed fl name (a.files name))) (marked fl name (a.files name) s)

  unfoldable pub pass_all : Archive → List Bytes → Exec Segment (Unit {0})
  pass_all a [] = pure tt
  pass_all a (name ∷ names) = do pass a name; pass_all a names

  unfoldable pub put_in : ℕ → Bytes → Bytes → Exec Segment (Unit {0})
  unfolding new_record
  put_in mode name content s =
      let ino = (s.last_ino + 1) % 2 ^ 64 in
      write_record (file (new_record ino mode name content)) (record s { last_ino = ino })

  unfoldable pub replace_module : Bytes → Exec Segment (Unit {0})
  unfolding put_in
  replace_module name = do
    content ← lift (w.read_file (w.join fl.modules name))
    put_in 0x81a4 (module_dir ++ name) content

  unfoldable pub replace_all : List Bytes → Exec Segment (Unit {0})
  replace_all [] = pure tt
  replace_all (name ∷ names) = do replace_module name; replace_all names

  unfoldable pub replace_modules : Exec Segment (Unit {0})
  replace_modules s =
      if s.has_modules then replace_all (w.map_order s.old_modules) s else (ok tt, s)

  unfoldable pub replace_init : Exec Segment (Unit {0})
  unfolding put_in
  replace_init s =
      if s.has_init
      then (lift (w.read_file fl.init) >>= put_in 33256 (bytes "init")) s
      else (ok tt, s)

  -- The records of an archive, the new modules, the new init, and the trailer.
  unfoldable pub process_archive : Archive → Exec Segment (Unit {0})
  unfolding replace_modules replace_init
  process_archive a = do pass_all a a.order; replace_modules; replace_init; write_record trailer

  unfoldable pub process_segment : Bytes → Result Bytes
  process_segment segment =
      (continue (w.parse segment) (λ a. process_archive a >> (λ s. (ok (w.encode s.written), s)))
        fresh).0

unfoldable pub is_all_zero : Bytes → Bool
is_all_zero [] = true
is_all_zero (v ∷ s) = v == 0 && is_all_zero s

-- From the first magic number on.
from_magic : Option ℕ → Bytes → Result Bytes
from_magic none s = err (text (bytes "invalid ramdisk format"))
from_magic (some start) s = ok (drop start s)

unfoldable pub strip : Bytes → Result Bytes
unfolding from_magic
strip segment = from_magic (index (bytes "070701") segment) segment

-- What is written so far, with zeros behind it: a whole block of them where there is no need for any.
unfoldable pub padded : Bytes → Bytes
padded out = out ++ replicate (256 - length out % 256) 0

abbrev pub then_do : {A B : Type 0} → Result A → (A → Result B) → Result B
then_do (ok a) f = f a
then_do (err e) f = err e
then_do panic f = panic

-- The loop over the segments, for what processSegment gives.
unfoldable pub process_segments : (Bytes → Result Bytes) → List Bytes → Bytes → Result Bytes
process_segments f [] out = ok out
process_segments f (segment ∷ segments) out =
    let rest =
      then_do (then_do (strip segment) f)
        λ new. process_segments f segments (padded (out ++ new)) in
    if is_all_zero segment then ok out else rest

-- The command, for the bytes of the input, the lz4 reader, and os.WriteFile of the output.
unfoldable pub execute :
    World
    → Flags
    → Result Bytes
    → (Bytes → Result Bytes)
    → (Bytes → Result (Unit {0}))
    → Result (Unit {0})
execute w fl input decompress store = then_do (then_do input decompress) λ ramdisk.
    then_do
      (process_segments (process_segment w fl) (split (bytes "TRAILER!!!" ++ 0 ∷ []) ramdisk) [])
      store

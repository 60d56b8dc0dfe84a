-- ===== src/Builder/Tests.antt =====
-- The theorems about the builder at concrete inputs.
use droidmole.Base.{
  ◌%◌, ◌≤◌, ◌≡◌, ◌≢◌, refl, ℤ, pos, negsuc, false, none, some, List, [], ◌∷◌, ◌++◌, length, All,
  Bytes, bytes, has_prefix, has_suffix, index, split, arith,
}
use droidmole.Go.{ok}
use droidmole.Builder.Download.{Disk, Calls, download_archive}
use droidmole.Builder.Download.Safety.{Careful, HasRight, download_archive-verified}
use droidmole.Builder.Ramdisk
use droidmole.Builder.Ramdisk.{
  Record, Entry, Flags, World, fresh, is_module, process_archive, process_segment, process_segments,
  padded, then_do, insert,
}
use droidmole.Builder.Ramdisk.Archives.{last_kept, patched, process_archive-patched}
use droidmole.Builder.Ramdisk.Padding.{new_segments, blocks, process_segments-blocks}
use droidmole.Builder.Ramdisk.Records.{kept}
use droidmole.Builder.Selection.{RemotePackage, SysimgFlags, pick, consider, consider_all}
use droidmole.Builder.Selection.Best.{Picked, pick-Picked}

splits : split (bytes "--") (bytes "a--b--") ≡ bytes "a" ∷ bytes "b" ∷ [] ∷ []
unfolding split index
splits = refl

-- A file whose inode is the length of its name.
abbrev of_name : Bytes → Record
of_name n = record {
  ino = length n;
  mode = 33188;
  uid = 0;
  gid = 0;
  n_link = 1;
  m_time = 0;
  file_size = 0;
  dev = 0;
  major = 0;
  minor = 0;
  r_major = 0;
  r_minor = 0;
  name = n;
  content = [];
}

abbrev archive : Ramdisk.Archive
archive = record {
  order = bytes "init" ∷ bytes "lib/modules/a.ko" ∷ bytes "lib/x" ∷ [];
  files = of_name;
}

abbrev world : World
world = record {
  parse = λ s. ok archive;
  encode = λ es. [];
  write_error = λ es e. none;
  read_file = λ p. ok p;
  join = λ d n. d ++ n;
  map_order = λ ks. ks;
}

abbrev flags : Flags
flags = record { modules = bytes "mods/"; init = bytes "new" }

process_archive-patched_example :
    ((process_archive world flags archive fresh).0 ≡ ok tt)
    × ((process_archive world flags archive fresh).1.written ≡ patched world flags (λ p. p) archive)
    × All (λ r. r.ino ≤ last_kept flags archive) (kept flags archive archive.order)
    × ((segment : Bytes)
        → world.parse segment ≡ ok archive
        → process_segment world flags segment
          ≡ ok (world.encode (patched world flags (λ p. p) archive)))
unfolding is_module has_prefix has_suffix insert
process_archive-patched_example =
    process_archive-patched world flags (λ p. p)
      (record { writes = λ es e. refl; reads = λ p. refl }) archive (omega arith)

abbrev three_segments : List Bytes
three_segments = bytes "xx070701ab" ∷ bytes "070701" ∷ (0 ∷ 0 ∷ []) ∷ bytes "lost" ∷ []

process_segments-blocks_example :
    (process_segments ok three_segments []
      ≡ then_do (new_segments ok three_segments) (λ bs. ok (blocks bs)))
    × ((bs : List Bytes) → length (blocks bs) % 256 ≡ 0)
process_segments-blocks_example = process_segments-blocks ok three_segments

abbrev calls : Calls
calls = record {
  stat_error = none;
  open_fails = false;
  read_error = none;
  create_error = none;
  get_error = none;
  response = (bytes "ab", 2) ∷ (bytes "c", 1) ∷ [];
  closes = λ content. content;
  rename_error = none;
}

abbrev disk : Disk
disk = record { target = some (bytes "old"); temporary = none; requests = 0 }

downloads :
    download_archive (λ s. s) calls (bytes "abc") disk
    ≡ (ok tt, record { target = some (bytes "abc"); temporary = none; requests = 1 })
unfolding download_archive
downloads = refl

download_archive-verified_example :
    let (r, d) = download_archive (λ s. s) calls (bytes "abc") disk in
    (r ≢ ok tt → d.target ≡ disk.target)
    × ((old : Bytes) → disk.target ≡ some old → old ≡ bytes "abc" → d ≡ disk)
    × (r ≡ ok tt → Careful calls → HasRight (λ s. s) (bytes "abc") d)
download_archive-verified_example = download_archive-verified (λ s. s) calls (bytes "abc") disk

-- The success is one of a careful run.
calls-Careful : Careful calls
calls-Careful = (omega arith, λ content. refl)

abbrev version : ℤ → Bytes → RemotePackage
version n path = record {
  path = path;
  display_name = [];
  major = n;
  type_details = record {
    api_level = bytes "33";
    tag = record { id = bytes "android"; display = [] };
    vendor = record { id = []; display = [] };
    abi = bytes "x86_64";
  };
  channel = bytes "channel-0";
  archives = [];
}

abbrev packages : List RemotePackage
packages =
    version (pos 3) (bytes "a")
    ∷ version (pos 7) (bytes "b")
    ∷ version (pos 7) (bytes "c")
    ∷ version (negsuc 4) (bytes "d")
    ∷ []

abbrev wanted : SysimgFlags
wanted = record {
  kind = bytes "default";
  api = bytes "33";
  abi = bytes "x86_64";
  channel = bytes "channel-0";
}

picks_last : pick wanted packages ≡ some (version (pos 7) (bytes "c"))
unfolding pick consider_all consider
picks_last = refl

pick-Picked_example : Picked wanted packages (pick wanted packages)
pick-Picked_example = pick-Picked wanted packages

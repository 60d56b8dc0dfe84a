-- ===== src/Builder/Ramdisk/Archives.antt =====
-- The whole archive that builder/cmd/patchramdisk.go writes for a segment.
use droidmole.Base.{
  ℕ, ◌+◌, ◌^◌, ◌≤◌, ◌<◌, ◌≡◌, refl, sym, ap, ◌∙◌, ltb, Bool, true, false, if◌then◌else◌, List, [],
  ◌∷◌, ◌++◌, map, append-nil, length, All, Bytes, bytes, arith,
}
use droidmole.Go.{ok, lift, continue, ◌>>=◌, ◌>>◌, bind-ok}
use droidmole.Builder.Ramdisk.{
  Record, Archive, Entry, file, trailer, Flags, World, Segment, fresh, is_module, renamed,
  new_record, put_in, pass_all, write_record, replace_all, replace_modules, replace_init,
  process_archive, process_segment,
}
use droidmole.Builder.Ramdisk.Records.{
  Works, kept, last_ino, modules_of, has_module, has_init, passed, added, with_file,
  write_record-Works, pass_all-Works, put_in-Works, replace_all-Works,
}

All-or :
    (P : Record → Type 0) (b : Bool) (r : Record) (rs : List Record)
    → All P rs
    → (b ≡ false → P r)
    → All P (if b then rs else r ∷ rs)
All-or P true r rs h k = h
All-or P false r rs h k = (k refl, h)

module _ (fl : Flags) (a : Archive) where
  le-last_ino : (ns : List Bytes) (m : ℕ) → m ≤ last_ino fl a m ns
  le-last_ino [] m = omega arith
  le-last_ino (n ∷ ns) m = ground (arith, le-last_ino ns m, le-last_ino ns (a.files n).ino)

  ino-renamed : (n : Bytes) (r : Record) → (renamed fl n r).ino ≡ r.ino
  unfolding renamed
  ino-renamed n r = ground arith

  kept-le : (ns : List Bytes) (m : ℕ) → All (λ r. r.ino ≤ last_ino fl a m ns) (kept fl a ns)
  kept-le [] m = tt
  kept-le (n ∷ ns) m =
      let m' = if is_module fl n then m else if ltb m (a.files n).ino then (a.files n).ino else m in
      All-or (λ r. r.ino ≤ last_ino fl a m' ns) (is_module fl n) (renamed fl n (a.files n))
        (kept fl a ns) (kept-le ns m')
        (λ e. ground (arith, le-last_ino ns m', ino-renamed n (a.files n)))

-- The modules that are put in, in the order in which the map is run through.
abbrev pub modules_in : World → Bool → List Bytes → List Bytes
modules_in w b ks = if b then w.map_order ks else []

-- The new init, behind the inode `m`, and the last inode then.
abbrev pub init_in : Flags → (Bytes → Bytes) → Bool → ℕ → List Record
init_in fl found b m =
    if b then new_record (m + 1) 33256 (bytes "init") (found fl.init) ∷ [] else []

abbrev after_init : Bool → ℕ → ℕ
after_init b m = if b then m + 1 else m

-- The last inode of the files that stay, and the names of the modules that are put in.
abbrev pub last_kept : Flags → Archive → ℕ
last_kept fl a = last_ino fl a 0 a.order

abbrev pub replaced : World → Flags → Archive → List Bytes
replaced w fl a = modules_in w (has_module fl false a.order) (modules_of fl [] a.order)

-- The new archive: the files that stay, the modules, the init and the trailer.
abbrev pub patched : World → Flags → (Bytes → Bytes) → Archive → List Entry
patched w fl found a =
    map file (kept fl a a.order)
    ++ map file (added w fl found (last_kept fl a) (replaced w fl a))
    ++ map file
        (init_in fl found (has_init fl false a.order) (last_kept fl a + length (replaced w fl a)))
    ++ trailer ∷ []

module _ (w : World) (fl : Flags) (found : Bytes → Bytes) (h : Works w found) where
  replace_modules-Works :
      (s : Segment)
      → s.last_ino + length (modules_in w s.has_modules s.old_modules) < 2 ^ 64
      → let ks = modules_in w s.has_modules s.old_modules in
        replace_modules w fl s
        ≡ (ok tt, with_file (s.last_ino + length ks) (added w fl found s.last_ino ks) s)
  unfolding replace_modules
  replace_modules-Works s small = go s.has_modules small
    where
      go :
          (b : Bool)
          → s.last_ino + length (modules_in w b s.old_modules) < 2 ^ 64
          → let ks = modules_in w b s.old_modules in
            (if b then replace_all w fl (w.map_order s.old_modules) s else (ok tt, s))
            ≡ (ok tt, with_file (s.last_ino + length ks) (added w fl found s.last_ino ks) s)
      go true small = replace_all-Works w fl found h (w.map_order s.old_modules) s small
      go false small = unfold replace_all in replace_all-Works w fl found h [] s small

  replace_init-Works :
      (s : Segment)
      → s.last_ino + 1 < 2 ^ 64
      → replace_init w fl s ≡ (
        ok tt,
        with_file (after_init s.has_init s.last_ino) (init_in fl found s.has_init s.last_ino) s,
      )
  unfolding replace_init
  replace_init-Works s small = go s.has_init
    where
      go :
          (b : Bool)
          → (if b
              then (lift (w.read_file fl.init) >>= put_in w fl 33256 (bytes "init")) s
              else (ok tt, s))
            ≡ (ok tt, with_file (after_init b s.last_ino) (init_in fl found b s.last_ino) s)
      go true =
          bind-ok (lift (w.read_file fl.init)) (put_in w fl 33256 (bytes "init")) s s
            (found fl.init) (ap (λ r. (r, s)) (h.reads fl.init))
          ∙ put_in-Works w fl found h 33256 (bytes "init") (found fl.init) s small
      go false = ap (λ es. (ok tt, record s { written = es })) (sym (append-nil s.written))

  -- On an archive whose files can all be read and whose entries can all be written, and whose inodes
  -- leave room below 2 ^ 64 for the new ones, these are written: every file that is no module to
  -- replace, in order, with only the name of the init changed; one file for each module that was
  -- there, with the new content; the new init, if there was one; and the trailer. The inodes of the
  -- files that stay are at most the last one of theirs, and the new ones count on from there. The bytes
  -- of a segment with this archive are those of these entries.
  pub process_archive-patched :
      (a : Archive)
      → last_kept fl a + length (replaced w fl a) + 1 < 2 ^ 64
      → ((process_archive w fl a fresh).0 ≡ ok tt)
        × ((process_archive w fl a fresh).1.written ≡ patched w fl found a)
        × All (λ r. r.ino ≤ last_kept fl a) (kept fl a a.order)
        × ((segment : Bytes)
            → w.parse segment ≡ ok a
            → process_segment w fl segment ≡ ok (w.encode (patched w fl found a)))
  unfolding process_archive fresh process_segment
  process_archive-patched a small =
      let s = passed fl a a.order fresh in
      let ks = replaced w fl a in
      let t = with_file (s.last_ino + length ks) (added w fl found s.last_ino ks) s in
      let u =
        with_file (after_init t.has_init t.last_ino) (init_in fl found t.has_init t.last_ino) t in
      let all : process_archive w fl a fresh
          ≡ (ok tt, record u { written = u.written ++ trailer ∷ [] }) =
        bind-ok (pass_all w fl a a.order)
          (λ _. replace_modules w fl >> (replace_init w fl >> write_record w fl trailer)) fresh s tt
          (pass_all-Works w fl found h a a.order fresh)
        ∙ bind-ok (replace_modules w fl) (λ _. replace_init w fl >> write_record w fl trailer) s t
            tt (replace_modules-Works s (omega arith))
        ∙ bind-ok (replace_init w fl) (λ _. write_record w fl trailer) t u tt
            (replace_init-Works t (omega arith))
        ∙ write_record-Works w fl found h trailer u in
      (
        ap (λ r. r.0) all,
        ap (λ r. r.1.written) all,
        kept-le fl a a.order 0,
        λ segment e.
            ap
              (λ p.
                (continue p (λ b. process_archive w fl b >> (λ s. (ok (w.encode s.written), s)))
                  fresh).0)
              e
            ∙ ap (λ r. (continue r.0 (λ _ s. (ok (w.encode s.written), s)) r.1).0) all,
      )

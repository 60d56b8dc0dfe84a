-- ===== src/Builder/Ramdisk/Records.antt =====
-- Which records the archive of builder/cmd/patchramdisk.go holds, and under which inodes.
use droidmole.Base.{
  ℕ, suc, ◌+◌, ◌%◌, ◌^◌, ◌<◌, ◌≡◌, refl, sym, ap, ◌∙◌, ltb, Bool, true, false, ◌||◌, if◌then◌else◌,
  none, List, [], ◌∷◌, ◌++◌, map, append-nil, append_assoc, length, Bytes, trim_prefix, arith,
  Bool-cases, inl, inr,
}
use droidmole.Go.{ok, lift, bind-ok}
use droidmole.Builder.Ramdisk.{
  Record, Archive, Entry, file, Flags, World, Segment, module_dir, is_module, is_init, insert,
  write_as, write_record, renamed, marked, pass, pass_all, new_record, put_in, replace_module,
  replace_all,
}

-- Every write succeeds, and every file can be read.
pub record Works (w : World) (found : Bytes → Bytes) : Type 0 where
  pub writes : (es : List Entry) (e : Entry) → w.write_error es e ≡ none
  pub reads : (path : Bytes) → w.read_file path ≡ ok (found path)

-- What is passed through: all that are no modules, in order.
module _ (fl : Flags) (a : Archive) where
  abbrev pub kept : List Bytes → List Record
  kept [] = []
  kept (n ∷ ns) = if is_module fl n then kept ns else renamed fl n (a.files n) ∷ kept ns

  -- The largest inode of those, and of `m`.
  abbrev pub last_ino : ℕ → List Bytes → ℕ
  last_ino m [] = m
  last_ino m (n ∷ ns) =
      last_ino (if is_module fl n then m else if ltb m (a.files n).ino then (a.files n).ino else m)
        ns

abbrev pub modules_of : Flags → List Bytes → List Bytes → List Bytes
modules_of fl ks [] = ks
modules_of fl ks (n ∷ ns) =
    modules_of fl (if is_module fl n then insert (trim_prefix module_dir n) ks else ks) ns

abbrev pub has_module : Flags → Bool → List Bytes → Bool
has_module fl b [] = b
has_module fl b (n ∷ ns) = has_module fl (if is_module fl n then true else b) ns

abbrev pub has_init : Flags → Bool → List Bytes → Bool
has_init fl b [] = b
has_init fl b (n ∷ ns) = has_init fl (if is_module fl n then b else is_init fl n || b) ns

abbrev pub passed : Flags → Archive → List Bytes → Segment → Segment
passed fl a ns s = record {
  written = s.written ++ map file (kept fl a ns);
  last_ino = last_ino fl a s.last_ino ns;
  has_modules = has_module fl s.has_modules ns;
  old_modules = modules_of fl s.old_modules ns;
  has_init = has_init fl s.has_init ns;
}

kept_or :
    (b : Bool) (r : Record) (rs : List Record)
    → map file (if b then [] else r ∷ []) ++ map file rs ≡ map file (if b then rs else r ∷ rs)
kept_or true r rs = refl
kept_or false r rs = refl

-- The new modules, under the inodes behind `m`.
abbrev pub added : World → Flags → (Bytes → Bytes) → ℕ → List Bytes → List Record
added w fl found m [] = []
added w fl found m (k ∷ ks) =
    new_record (m + 1) 0x81a4 (module_dir ++ k) (found (w.join fl.modules k))
    ∷ added w fl found (m + 1) ks

abbrev pub with_file : ℕ → List Record → Segment → Segment
with_file m rs s = record s { written = s.written ++ map file rs; last_ino = m }

module _ (w : World) (fl : Flags) (found : Bytes → Bytes) (h : Works w found) where
  pub write_record-Works :
      (e : Entry) (s : Segment)
      → write_record w fl e s ≡ (ok tt, record s { written = s.written ++ e ∷ [] })
  unfolding write_record
  write_record-Works e s = ap (λ o. write_as o e s) (h.writes s.written e)

  pass-Works :
      (a : Archive) (n : Bytes) (s : Segment) → pass w fl a n s ≡ (ok tt, passed fl a (n ∷ []) s)
  unfolding pass
  pass-Works a n s = elim (Bool-cases (is_module fl n)) [
    | inl e ↦ rw (e, append-nil) refl
    | inr e ↦
        rw e (write_record-Works (file (renamed fl n (a.files n))) (marked fl n (a.files n) s))
  ]

  pub pass_all-Works :
      (a : Archive) (ns : List Bytes) (s : Segment)
      → pass_all w fl a ns s ≡ (ok tt, passed fl a ns s)
  unfolding pass_all
  pass_all-Works a [] s = rw append-nil refl
  pass_all-Works a (n ∷ ns) s =
      bind-ok (pass w fl a n) (λ _. pass_all w fl a ns) s (passed fl a (n ∷ []) s) tt
        (pass-Works a n s)
      ∙ pass_all-Works a ns (passed fl a (n ∷ []) s)
      ∙ ap (λ es. (ok tt, record (passed fl a (n ∷ ns) s) { written = es }))
          (append_assoc s.written (map file (kept fl a (n ∷ []))) (map file (kept fl a ns))
            ∙ ap (λ es. s.written ++ es)
                (kept_or (is_module fl n) (renamed fl n (a.files n)) (kept fl a ns)))

  pub put_in-Works :
      (mode : ℕ) (name content : Bytes) (s : Segment)
      → s.last_ino + 1 < 2 ^ 64
      → put_in w fl mode name content s
        ≡ (ok tt, with_file (s.last_ino + 1) (new_record (s.last_ino + 1) mode name content ∷ []) s)
  unfolding put_in
  put_in-Works mode name content s small =
      let e : (s.last_ino + 1) % 2 ^ 64 ≡ s.last_ino + 1 = omega arith in
      ap
        (λ ino.
          write_record w fl (file (new_record ino mode name content)) (record s { last_ino = ino }))
        e
      ∙ write_record-Works (file (new_record (s.last_ino + 1) mode name content))
          (record s { last_ino = s.last_ino + 1 })

  replace_module-Works :
      (k : Bytes) (s : Segment)
      → s.last_ino + 1 < 2 ^ 64
      → replace_module w fl k s
        ≡ (ok tt, with_file (s.last_ino + 1) (added w fl found s.last_ino (k ∷ [])) s)
  unfolding replace_module
  replace_module-Works k s small =
      bind-ok (lift (w.read_file (w.join fl.modules k))) (put_in w fl 0x81a4 (module_dir ++ k)) s s
        (found (w.join fl.modules k)) (ap (λ r. (r, s)) (h.reads (w.join fl.modules k)))
      ∙ put_in-Works 0x81a4 (module_dir ++ k) (found (w.join fl.modules k)) s small

  pub replace_all-Works :
      (ks : List Bytes) (s : Segment)
      → s.last_ino + length ks < 2 ^ 64
      → replace_all w fl ks s
        ≡ (ok tt, with_file (s.last_ino + length ks) (added w fl found s.last_ino ks) s)
  unfolding replace_all
  replace_all-Works [] s small =
      ap (λ es. (ok tt, record s { written = es })) (sym (append-nil s.written))
      ∙ ap (λ m. (ok tt, record s { written = s.written ++ []; last_ino = m }))
          (let e : s.last_ino ≡ s.last_ino + 0 = omega arith in e)
  replace_all-Works (k ∷ ks) s small =
      let t = with_file (s.last_ino + 1) (added w fl found s.last_ino (k ∷ [])) s in
      let e : s.last_ino + 1 + length ks ≡ s.last_ino + suc (length ks) = omega arith in
      bind-ok (replace_module w fl k) (λ _. replace_all w fl ks) s t tt
        (replace_module-Works k s (omega arith))
      ∙ replace_all-Works ks t (omega arith)
      ∙ ap (λ es. (ok tt, record s { written = es; last_ino = s.last_ino + 1 + length ks }))
          (append_assoc s.written (map file (added w fl found s.last_ino (k ∷ [])))
            (map file (added w fl found (s.last_ino + 1) ks)))
      ∙ ap (λ m. (ok tt, with_file m (added w fl found s.last_ino (k ∷ ks)) s)) e

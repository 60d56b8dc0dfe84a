-- ===== src/Builder/Selection.antt =====
-- builder/repository/format.go and repository.go, and builder/cmd/download: which archive is
-- downloaded. The response and encoding/xml are arguments; `log.Fatal` ends the program, as an error.
pub mod Best
use droidmole.Base.{
  ℕ, ◌==◌, ℤ, pos, negsuc, pos_part, neg_part, int_ltb, Bool, true, false, not, ◌&&◌, ◌||◌,
  if◌then◌else◌, Option, none, some, List, [], ◌∷◌, ◌++◌, Bytes, bytes, bytes_eq, format_d,
}
use droidmole.Go.{Error, text, Result, ok, err, panic}

pub record ArchiveComplete : Type 0 where
  pub size : ℤ
  pub checksum : Bytes
  pub url : Bytes

pub record Archive : Type 0 where
  pub host_os : Bytes
  pub host_arch : Bytes
  pub complete : ArchiveComplete

pub record TypeDetail : Type 0 where
  pub id : Bytes
  pub display : Bytes

pub record TypeDetails : Type 0 where
  pub api_level : Bytes
  pub tag : TypeDetail
  pub vendor : TypeDetail
  pub abi : Bytes

pub record RemotePackage : Type 0 where
  pub path : Bytes
  pub display_name : Bytes
  -- the field Major of Revision, and the field Ref of ChannelRef
  pub major : ℤ
  pub type_details : TypeDetails
  pub channel : Bytes
  pub archives : List Archive

abbrev pub Manifest : Type 0
Manifest = List RemotePackage

-- What http.Get gives: the status code, and what ReadAll makes of the body.
pub record Response : Type 0 where
  pub status_code : ℕ
  pub body : Result Bytes

-- The text of an error is `message`.
module _ (message : Error → Bytes) where
  wrapped : {A B : Type 0} → Bytes → Result A → (A → Result B) → Result B
  wrapped prefix (ok a) f = f a
  wrapped prefix (err e) f = err (text (prefix ++ message e))
  wrapped prefix panic f = panic

  unfoldable pub get_manifest : Result Response → (Bytes → Result Manifest) → Result Manifest
  unfolding wrapped
  get_manifest answer unmarshal = wrapped (bytes "GET error: ") answer λ resp.
      if resp.status_code == 200
      then wrapped (bytes "read body: ") resp.body unmarshal
      else err (text (bytes "status error: " ++ format_d resp.status_code))

-- The flags of `sysimg`.
pub record SysimgFlags : Type 0 where
  pub kind : Bytes
  pub api : Bytes
  pub abi : Bytes
  pub channel : Bytes

unfoldable pub manifest_url : Bytes → Option Bytes
manifest_url kind =
    if bytes_eq kind (bytes "default")
    then some (bytes "https://dl.google.com/android/repository/sys-img/android/sys-img2-1.xml")
    else if bytes_eq kind (bytes "google")
    then some (bytes "https://dl.google.com/android/repository/sys-img/google_apis/sys-img2-1.xml")
    else if bytes_eq kind (bytes "playstore")
    then some (
        bytes
          "https://dl.google.com/android/repository/sys-img/google_apis_playstore/sys-img2-1.xml")
    else none

unfoldable pub is_wanted : SysimgFlags → RemotePackage → Bool
is_wanted fl p =
    bytes_eq p.channel fl.channel
    && bytes_eq p.type_details.abi fl.abi
    && bytes_eq p.type_details.api_level fl.api

-- `currentMajor` and `rpkg`, at first the zero value.
pub record Current : Type 0 where
  pub major : ℤ
  pub rpkg : Option RemotePackage

unfoldable pub consider : SysimgFlags → RemotePackage → Current → Current
unfolding is_wanted
consider fl p c =
    if is_wanted fl p && not (int_ltb p.major c.major)
    then record { major = p.major; rpkg = some p }
    else c

unfoldable pub consider_all : SysimgFlags → List RemotePackage → Current → Current
consider_all fl [] c = c
consider_all fl (p ∷ ps) c = consider_all fl ps (consider fl p c)

abbrev pub nothing : Current
nothing = record { major = negsuc 0; rpkg = none }

-- `currentMajor == -1` is that there is none.
abbrev pub is_minus_one : ℤ → Bool
is_minus_one (pos n) = false
is_minus_one (negsuc n) = n == 0

unfoldable pub pick : SysimgFlags → List RemotePackage → Option RemotePackage
pick fl ps = let c = consider_all fl ps nothing in if is_minus_one c.major then none else c.rpkg

-- The first archive for the host, with its own test.
unfoldable pub first_archive : (Archive → Bool) → List Archive → Option Archive
first_archive test [] = none
first_archive test (a ∷ more) = if test a then some a else first_archive test more

unfoldable pub runs_on_linux : Archive → Bool
runs_on_linux a = bytes_eq a.host_os [] || bytes_eq a.host_os (bytes "linux")

-- The url and the checksum for DownloadArchive.
abbrev pub Choice : Type 0
Choice = Bytes × Bytes

abbrev sysimg_choice : RemotePackage → Archive → Choice
sysimg_choice p a = (
  bytes "https://dl.google.com/android/repository/sys-img/"
      ++ (p.type_details.tag.id ++ (bytes "/" ++ a.complete.url)),
  a.complete.checksum,
)

sysimg_of : Option RemotePackage → Result Choice
unfolding runs_on_linux first_archive
sysimg_of none = err (text (bytes "Failed to find sysimg"))
sysimg_of (some p) = elim (first_archive runs_on_linux p.archives) [
  | none ↦ err (text (bytes "Failed to find download"))
  | some a ↦ ok (sysimg_choice p a)
]

-- What `sysimg` downloads from the manifest at its url.
unfoldable pub execute_sysimg : SysimgFlags → Manifest → Result Choice
unfolding sysimg_of
execute_sysimg fl ps = sysimg_of (pick fl ps)

-- The loops of `emulator` and `platform-tools`: the first archive that fits, in the first package that
-- fits and has one.
unfoldable pub first_in : (RemotePackage → Bool) → (Archive → Bool) → Manifest → Option Archive
unfolding first_archive
first_in fits test [] = none
first_in fits test (p ∷ ps) =
    let rest = first_in fits test ps in
    if fits p then elim (first_archive test p.archives) [ none ↦ rest | some a ↦ some a ] else rest

choice_of : Option Archive → Result Choice
choice_of none = err (text (bytes "Failed to find download"))
choice_of (some a) =
    ok (bytes "https://dl.google.com/android/repository/" ++ a.complete.url, a.complete.checksum)

unfoldable pub execute_emulator : Bytes → Bytes → Bytes → Manifest → Result Choice
unfolding choice_of
execute_emulator channel host_os host_arch ps = choice_of (
    first_in (λ p. bytes_eq p.channel channel && bytes_eq p.path (bytes "emulator"))
      (λ a. bytes_eq a.host_os host_os && bytes_eq a.host_arch host_arch) ps)

unfoldable pub execute_platform : Bytes → Bytes → Manifest → Result Choice
unfolding choice_of
execute_platform channel host_os ps = choice_of (
    first_in (λ p. bytes_eq p.channel channel && bytes_eq p.path (bytes "platform-tools"))
      (λ a. bytes_eq a.host_os host_os) ps)

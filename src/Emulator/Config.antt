-- ===== src/Emulator/Config.antt =====
-- agent/server/emulator/config.go, and Start of emulator.go up to the start of the process. A file of
-- package ini is the list of the calls of SetValue on its keys, in order.
use droidmole.Base.{
  ◌≡◌, refl, subst, Bool, true, false, not, ◌&&◌, ◌||◌, if◌then◌else◌, Option, none, some, List, [],
  ◌∷◌, ◌++◌, Bytes, bytes, bytes_eq, format_d,
}
use droidmole.Go.{text, Result, ok, err, panic}
use droidmole.Client.Agent.{BootRequest}
use droidmole.Emulator.Life
use droidmole.Emulator.Life.{begun}

abbrev pub Ini : Type 0
Ini = List (Bytes × Bytes)

-- The settings up to the display.
unfoldable pub settings : BootRequest → Ini
settings r =
    (bytes "AvdId", bytes "Custom")
    ∷ (bytes "avd.ini.displayname", bytes "Custom")
    ∷ (bytes "avd.ini.encoding", bytes "UTF-8")
    ∷ (bytes "hw.ramSize", format_d r.ram_size)
    ∷ (bytes "hw.cpu.ncore", format_d r.core_count)
    ∷ (bytes "disk.dataPartition.size", bytes "512MB")
    ∷ (bytes "fastboot.forceColdBoot", bytes "no")
    ∷ (bytes "hw.accelerometer", bytes "yes")
    ∷ (bytes "hw.audioInput", bytes "yes")
    ∷ (bytes "hw.battery", bytes "yes")
    ∷ (bytes "hw.camera.back", bytes "emulated")
    ∷ (bytes "hw.camera.front", bytes "emulated")
    ∷ (bytes "hw.dPad", bytes "no")
    ∷ (bytes "hw.device.hash2", bytes "MD5:bc5032b2a871da511332401af3ac6bb0")
    ∷ (bytes "hw.device.manufacturer", bytes "Google")
    ∷ (bytes "hw.gps", bytes "yes")
    ∷ (bytes "hw.gpu.enabled", bytes "yes")
    ∷ (bytes "hw.gpu.mode", bytes "auto")
    ∷ (bytes "hw.initialOrientation", bytes "Portrait")
    ∷ (bytes "hw.keyboard", bytes "yes")
    ∷ (bytes "hw.mainKeys", bytes "no")
    ∷ (bytes "hw.sensors.orientation", bytes "yes")
    ∷ (bytes "hw.sensors.proximity", bytes "yes")
    ∷ (bytes "hw.trackBall", bytes "no")
    ∷ (bytes "runtime.network.latency", bytes "none")
    ∷ (bytes "runtime.network.speed", bytes "full")
    ∷ (bytes "hw.lcd.density", format_d r.lcd_density)
    ∷ (bytes "hw.lcd.width", format_d r.lcd_width)
    ∷ (bytes "hw.lcd.height", format_d r.lcd_height)
    ∷ []

-- GetImageCpu: the property of the image, or the error of reading it; `none` is a missing key.
unfoldable pub get_image_cpu : Result (Option Bytes) → Result Bytes
get_image_cpu (ok (some abi)) = ok abi
get_image_cpu (ok none) = err (text (bytes "ro.product.cpu.abi missing"))
get_image_cpu (err e) = err e
get_image_cpu panic = panic

-- The switch on the ABI.
unfoldable pub cpu_arch : Bytes → Option Bytes
cpu_arch abi =
    if bytes_eq abi (bytes "x86_64")
    then some (bytes "x86_64")
    else if bytes_eq abi (bytes "arm64-v8a")
    then some (bytes "arm64")
    else none

with_arch : BootRequest → Bytes → Option Bytes → Result Ini
with_arch r abi none = err (text (bytes "unknown abi " ++ abi))
with_arch r abi (some arch) = ok (
    settings r
    ++ ((bytes "abi.type", abi)
        ∷ (bytes "hw.cpu.arch", arch)
        ∷ (bytes "image.sysdir.1", bytes "/android/system-image/")
        ∷ []))

with_abi : BootRequest → Result Bytes → Result Ini
unfolding with_arch
with_abi r (ok abi) = with_arch r abi (cpu_arch abi)
with_abi r (err e) = err e
with_abi r panic = panic

unfoldable pub create_config : BootRequest → Result (Option Bytes) → Result Ini
unfolding with_abi
create_config r property = with_abi r (get_image_cpu property)

-- What the calls of startEmulator return: MkdirAll, WriteFile, SaveTo and the start of the command.
pub record Launch : Type 0 where
  pub mkdir : Result (Unit {0})
  pub write_ini : Result (Unit {0})
  pub image_property : Result (Option Bytes)
  pub save : Ini → Result (Unit {0})
  pub run : Result (Unit {0})

then_do : {A B : Type 0} → Result A → (A → Result B) → Result B
then_do (ok a) f = f a
then_do (err e) f = err e
then_do panic f = panic

-- The first error is that of Start; else the process and the goroutines run.
unfoldable pub start : Launch → BootRequest → Result Life.Emulator
unfolding then_do
start l r = then_do l.mkdir λ _. then_do l.write_ini λ _.
    then_do (create_config r l.image_property) λ cfg.
      then_do (l.save cfg) λ _. then_do l.run λ _. ok (begun r.root_adb r.lcd_width r.lcd_height)

abbrev or_nil : Result Ini → Ini
or_nil (ok i) = i
or_nil _ = []

mem : Bytes → Ini → Bool
mem k [] = false
mem k ((j, w) ∷ rest) = bytes_eq k j || mem k rest

-- No key is set twice.
unfoldable pub is_distinct : Ini → Bool
unfolding mem
is_distinct [] = true
is_distinct ((k, v) ∷ rest) = not (mem k rest) && is_distinct rest

-- Every configuration sets each of its keys once, so that no setting replaces another; and there is
-- one for the two known ABIs only.
pub create_config-distinct :
    (r : BootRequest) (property : Result (Option Bytes)) (cfg : Ini)
    → create_config r property ≡ ok cfg
    → (is_distinct cfg ≡ true)
      × (abi : Bytes) × (arch : Bytes) × (property ≡ ok (some abi))
      × (cpu_arch abi ≡ some arch)
unfolding create_config get_image_cpu settings is_distinct
create_config-distinct r (ok (some abi)) cfg h = go (cpu_arch abi) refl h
  where
    go :
        (o : Option Bytes)
        → cpu_arch abi ≡ o
        → with_arch r abi o ≡ ok cfg
        → (is_distinct cfg ≡ true)
          × (b : Bytes) × (arch : Bytes) × (ok (some abi) ≡ ok (some b))
          × (cpu_arch b ≡ some arch)
    go none e h = absurd (cc h)
    go (some arch) e h = (subst (λ x. is_distinct (or_nil x) ≡ true) h refl, abi, arch, refl, e)
create_config-distinct r (ok none) cfg h = absurd (cc h)
create_config-distinct r (err e) cfg h = absurd (cc h)
create_config-distinct r panic cfg h = absurd (cc h)

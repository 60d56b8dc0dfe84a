-- ===== src/Adb/Client/Tests.antt =====
-- The theorems about agent/server/adb/client.go at concrete inputs.
use droidmole.Base.{◌≡◌, refl, ◌≢◌, true, false, none, some, [], ◌∷◌, ◌++◌, arith, Bytes, bytes}
use droidmole.Go.{eof, ok, panic}
use droidmole.Net.Laws.{arriving}
use droidmole.Net.{Conn}
use droidmole.Net.Samples.{line, line-IsOpen}
use droidmole.Adb.Dial.{connected}
use droidmole.Adb.Client.{has_device, wait_for_emulator}
use droidmole.Adb.Client.Wait.{verdict, frames, wait_for_emulator-verdict, wait_for_emulator-ends}

-- A message of the tracker before the emulator has come up, and one after.
abbrev offline : Bytes
offline = bytes "emulator-5554\toffline\n"

abbrev device : Bytes
device = bytes "emulator-5554\tdevice\n"

-- A line of one field panics.
one_field : has_device (bytes "emulator-5554\n") ≡ panic
unfolding has_device
one_field = refl

not_yet : has_device offline ≡ ok false
unfolding has_device
not_yet = refl

now : has_device device ≡ ok true
unfolding has_device
now = refl

wait_for_emulator-verdict_example :
    let (r, left) =
      wait_for_emulator
        (connected (arriving (bytes "OKAY" ++ frames (offline ∷ device ∷ [])) line)) in
    (r ≡ verdict eof (offline ∷ device ∷ [])) × (d : Conn) × (left ≡ some d) × (d.closed ≡ true)
wait_for_emulator-verdict_example =
    wait_for_emulator-verdict (offline ∷ device ∷ []) line line-IsOpen
      (omega arith, (omega arith, tt))

wait_for_emulator-ends_example : (wait_for_emulator (connected line)).0 ≢ ok none
wait_for_emulator-ends_example = wait_for_emulator-ends (connected line)

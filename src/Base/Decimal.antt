-- ===== src/Base/Decimal.antt =====
-- fmt's %d of a uint32.
use Prim.Native.Nat.{ℕ, zero, suc, ◌+◌, ◌/◌, ◌%◌}
use mathlib.Core.List.{[], ◌∷◌}
use droidmole.Base.Tests.{◌==◌, if◌then◌else◌}
use droidmole.Base.Text.{Bytes}

digits : ℕ → ℕ → Bytes → Bytes
digits zero n acc = acc
digits (suc more) n acc =
    let rest = digits more (n / 10) ((48 + n % 10) ∷ acc) in
    if n / 10 == 0 then (48 + n % 10) ∷ acc else rest

-- A uint32 has at most ten digits.
unfoldable pub format_d : ℕ → Bytes
unfolding digits
format_d n = digits 10 n []

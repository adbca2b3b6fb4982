-- ===== src/Prelude/Ints.antt =====
-- Signed integers over the native numbers, as far as the program adds them to a count.
use Prim.Native.Nat.{ℕ, suc, ◌+◌, ◌-◌}
use mathlib.Core.Option.{Option, none, some}
use private_cloud.Prelude.Tests.{ltb, if◌then◌else◌}

-- `negsuc n` is -(n + 1).
pub data ℤ : Type 0 where
  pos : ℕ → ℤ
  negsuc : ℕ → ℤ

-- n + z, where that is not negative.
abbrev pub offset_by : ℕ → ℤ → Option ℕ
offset_by n (pos m) = some (n + m)
offset_by n (negsuc m) = if ltb m n then some (n - suc m) else none

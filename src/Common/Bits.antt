-- ===== src/Common/Bits.antt =====
-- Bitwise operations, bit by bit.
use Prim.Native.Nat.{ℕ, zero, suc, ◌+◌, ◌*◌, ◌/◌, ◌%◌}
use mathlib.Core.Bool.{Bool, true, false, not}
use go_ds.Common.Tests.{◌==◌, if◌then◌else◌}

-- an operation on each of the lowest `n` bits
unfoldable pub bitwise : (Bool → Bool → Bool) → ℕ → ℕ → ℕ → ℕ
bitwise op zero a b = 0
bitwise op (suc n) a b =
    (if op (a % 2 == 1) (b % 2 == 1) then 1 else 0) + 2 * bitwise op n (a / 2) (b / 2)

abbrev pub differ : Bool → Bool → Bool
differ true b = not b
differ false b = b

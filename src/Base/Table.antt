-- ===== src/Base/Table.antt =====
-- Facts about a small range, checked at every value by evaluation.
use Prim.Native.Nat.{ℕ, zero, suc, ◌<◌}
use mathlib.Core.Path.{◌≡◌}
use mathlib.Core.Bool.{Bool, true, ◌&&◌}
use native.Mathlib.Omega.{arith}

unfoldable pub all_below : ℕ → (ℕ → Bool) → Bool
all_below zero test = true
all_below (suc size) test = test size && all_below size test

-- A table that passes a test throughout passes it at each index.
pub all_below_sound :
    (size : ℕ) (test : ℕ → Bool) (i : ℕ) → i < size → all_below size test ≡ true → test i ≡ true
unfolding all_below
all_below_sound zero test i inside passed = absurd (omega arith)
all_below_sound (suc size) test i inside passed = ground (arith, all_below_sound size test i)

-- ===== src/Base/Tables.antt =====
-- Facts about a small range of numbers, checked value by value.
use Prim.Native.Nat.{ℕ, zero, suc, ◌<◌}
use mathlib.Core.Path.{◌≡◌}
use mathlib.Core.Bool.{Bool, true, ◌&&◌}
use native.Mathlib.Omega.{arith}

-- The test holds of every number below the bound.
unfoldable pub all_below : ℕ → (ℕ → Bool) → Bool
all_below zero test = true
all_below (suc top) test = all_below top test && test top

pub all_below_sound :
    (bound : ℕ) (test : ℕ → Bool) (b : ℕ) → all_below bound test ≡ true → b < bound → test b ≡ true
unfolding all_below
all_below_sound zero test b table below = absurd (omega arith)
all_below_sound (suc top) test b table below = ground (arith, all_below_sound top test b)

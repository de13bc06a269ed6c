-- ===== src/Prelude/Int.antt =====
-- Signed integers over the native numbers, as `math/big` has them.
use Prim.Native.Nat.{ℕ, suc, ◌+◌, ◌-◌}
use mathlib.Core.Path.{◌≡◌}
use mathlib.Core.Bool.{Bool}
use native.Mathlib.Omega.{arith}
use assertoor.Prelude.Tests.{ltb, leb, if◌then◌else◌}

-- `negsuc n` stands for -(n + 1).
pub data ℤ : Type 0 where
  pos : ℕ → ℤ
  negsuc : ℕ → ℤ

-- Every integer is the difference of these two, one of which is 0.
abbrev pub above : ℤ → ℕ
above (pos n) = n
above (negsuc n) = 0

abbrev pub below : ℤ → ℕ
below (pos n) = 0
below (negsuc n) = suc n

abbrev difference : ℕ → ℕ → ℤ
difference a b = if leb b a then pos (a - b) else negsuc (b - a - 1)

infixl 65 ◌+ℤ◌ ◌-ℤ◌
unfoldable pub ◌+ℤ◌ : ℤ → ℤ → ℤ
x +ℤ y = difference (above x + above y) (below x + below y)

unfoldable pub ◌-ℤ◌ : ℤ → ℤ → ℤ
x -ℤ y = difference (above x + below y) (below x + above y)

abbrev pub ltb_ℤ : ℤ → ℤ → Bool
ltb_ℤ x y = ltb (above x + below y) (above y + below x)

-- `omega` computes with the two parts.
pub +ℤ-parts :
    (x y : ℤ) → above (x +ℤ y) + (below x + below y) ≡ below (x +ℤ y) + (above x + above y)
unfolding ◌+ℤ◌
+ℤ-parts x y = ground arith

pub -ℤ-parts :
    (x y : ℤ) → above (x -ℤ y) + (below x + above y) ≡ below (x -ℤ y) + (above x + below y)
unfolding ◌-ℤ◌
-ℤ-parts x y = ground arith

pub ℤ-parts_eq : (x y : ℤ) → above x + below y ≡ above y + below x → x ≡ y
ℤ-parts_eq x y h = ground arith

pub ruleset int_arith = (arith, +ℤ-parts, -ℤ-parts, ℤ-parts_eq)

-- ===== src/Common/Sums.antt =====
-- Sums over a list.
use Prim.Native.Nat.{ℕ, ◌+◌}
use mathlib.Core.Path.{◌≡◌}
use mathlib.Core.List.{List, [], ◌∷◌, ◌++◌}
use native.Mathlib.Omega.{arith}

module _ {A : Type 0} where
  abbrev pub total : (A → ℕ) → List A → ℕ
  total w [] = 0
  total w (x ∷ xs) = w x + total w xs

  pub total-append : (w : A → ℕ) (xs ys : List A) → total w (xs ++ ys) ≡ total w xs + total w ys
  total-append w [] ys = omega arith
  total-append w (x ∷ xs) ys = omega (arith, total-append w xs ys)

  pub total-move :
      (w : A → ℕ) (before : List A) (x y : A) (after : List A)
      → total w (before ++ y ∷ after) + w x ≡ total w (before ++ x ∷ after) + w y
  total-move w [] x y after = omega arith
  total-move w (z ∷ before) x y after = omega (arith, total-move w before x y after)

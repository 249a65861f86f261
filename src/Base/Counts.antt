-- ===== src/Base/Counts.antt =====
-- How often a number is another, and how often it is in a list.
use pingfs.Base.Logic.{◌==◌, if◌then◌else◌}
use Prim.Native.Nat.{ℕ, ◌+◌}
use mathlib.Core.Path.{◌≡◌}
use mathlib.Core.List.{List, [], ◌∷◌, ◌++◌}
use native.Mathlib.Omega.{arith}

abbrev pub hit : ℕ → ℕ → ℕ
hit j i = if i == j then 1 else 0

abbrev pub count : ℕ → List ℕ → ℕ
count j [] = 0
count j (i ∷ ids) = hit j i + count j ids

pub count-append : (j : ℕ) (xs ys : List ℕ) → count j (xs ++ ys) ≡ count j xs + count j ys
count-append j [] ys = omega arith
count-append j (x ∷ xs) ys = omega (arith, count-append j xs ys)

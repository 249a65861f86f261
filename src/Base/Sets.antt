-- ===== src/Base/Sets.antt =====
-- `std::unordered_set` of numbers as a list: only membership is read.
use pingfs.Base.Logic.{◌==◌, if◌then◌else◌}
use Prim.Native.Nat.{ℕ}
use mathlib.Core.Path.{◌≡◌, refl}
use mathlib.Core.Bool.{Bool, true, false, ◌&&◌, ◌||◌, not}
use mathlib.Core.List.{List, [], ◌∷◌, ◌++◌}
use native.Mathlib.Omega.{arith}

unfoldable pub mem : ℕ → List ℕ → Bool
mem k [] = false
mem k (j ∷ s) = k == j || mem k s

-- `insert`, which leaves a member as it is.
unfoldable pub add : ℕ → List ℕ → List ℕ
unfolding mem
add k s = if mem k s then s else s ++ k ∷ []

-- `erase`.
unfoldable pub remove : ℕ → List ℕ → List ℕ
remove k [] = []
remove k (j ∷ s) = if k == j then remove k s else j ∷ remove k s

-- `empty`.
abbrev pub is_empty {ℓ} : {A : Type ℓ} → List A → Bool
is_empty [] = true
is_empty (x ∷ s) = false

-- The set of the elements of a vector.
unfoldable pub add_all : List ℕ → List ℕ → List ℕ
unfolding add
add_all [] s = s
add_all (k ∷ ks) s = add_all ks (add k s)

pub mem-append : (j : ℕ) (s t : List ℕ) → mem j (s ++ t) ≡ (mem j s || mem j t)
unfolding mem
mem-append j [] t = refl
mem-append j (i ∷ s) t = ground (arith, mem-append j s t)

pub mem-add : (j k : ℕ) (s : List ℕ) → mem j (add k s) ≡ (j == k || mem j s)
unfolding add mem
mem-add j k [] = ground arith
mem-add j k (i ∷ s) = ground (arith, mem-append j s (k ∷ []), mem-add j k s)

pub mem-remove : (j k : ℕ) (s : List ℕ) → mem j (remove k s) ≡ (not (k == j) && mem j s)
unfolding mem remove
mem-remove j k [] = ground arith
mem-remove j k (i ∷ s) = ground (arith, mem-remove j k s)

pub remove-absent : (k : ℕ) (s : List ℕ) → mem k s ≡ false → remove k s ≡ s
unfolding mem remove
remove-absent k [] h = refl
remove-absent k (j ∷ s) h = ground (arith, remove-absent k s)

pub mem-add_all : (j : ℕ) (ks s : List ℕ) → mem j (add_all ks s) ≡ (mem j ks || mem j s)
unfolding add_all mem
mem-add_all j [] s = refl
mem-add_all j (k ∷ ks) s = ground (arith, mem-add_all j ks (add k s), mem-add j k s)

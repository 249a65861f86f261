-- ===== src/Base/Maps.antt =====
-- `std::unordered_map` with numbers for keys, as an association list: the order of the entries is
-- never read. A new key goes to the end.
use pingfs.Base.Logic.{◌==◌, if◌then◌else◌}
use pingfs.Base.Lists.{length}
use Prim.Native.Nat.{ℕ, suc}
use mathlib.Core.Path.{◌≡◌, refl}
use mathlib.Core.Option.{Option, none, some}
use mathlib.Core.List.{List, [], ◌∷◌}
use native.Mathlib.Omega.{arith}

module _ {ℓ} {V : Type ℓ} where
  -- `find`.
  unfoldable pub lookup : ℕ → List (ℕ × V) → Option V
  lookup k [] = none
  lookup k ((j, value) ∷ entries) = if j == k then some value else lookup k entries

  -- `m[k] = v`.
  unfoldable pub insert : ℕ → V → List (ℕ × V) → List (ℕ × V)
  insert k value [] = (k, value) ∷ []
  insert k value ((j, other) ∷ entries) =
      if j == k then (k, value) ∷ entries else (j, other) ∷ insert k value entries

  -- `erase`.
  unfoldable pub erase : ℕ → List (ℕ × V) → List (ℕ × V)
  erase k [] = []
  erase k ((j, other) ∷ entries) = if j == k then entries else (j, other) ∷ erase k entries

  -- No key twice.
  abbrev pub Keys : List (ℕ × V) → Type ℓ
  Keys [] = Unit
  Keys ((j, other) ∷ entries) = (lookup j entries ≡ none) × Keys entries

module _ {ℓ} {V : Type ℓ} where
  pub lookup-insert :
      (k j : ℕ) (value : V) (entries : List (ℕ × V))
      → lookup j (insert k value entries) ≡ (if k == j then some value else lookup j entries)
  unfolding lookup insert
  lookup-insert k j value [] = refl
  lookup-insert k j value ((i, other) ∷ entries) = ground (arith, lookup-insert k j value entries)

  pub Keys-insert :
      (k : ℕ) (value : V) (entries : List (ℕ × V)) → Keys entries → Keys (insert k value entries)
  unfolding insert
  Keys-insert k value [] h = (unfold lookup in refl, tt)
  Keys-insert k value ((i, other) ∷ entries) (fresh, h) =
      ground (arith, Keys-insert k value entries, lookup-insert k i value entries)

  pub erase-absent :
      (k : ℕ) (entries : List (ℕ × V)) → lookup k entries ≡ none → erase k entries ≡ entries
  unfolding lookup erase
  erase-absent k [] h = refl
  erase-absent k ((i, other) ∷ entries) h = ground (arith, erase-absent k entries)

  pub lookup-erase :
      (k j : ℕ) (entries : List (ℕ × V))
      → Keys entries
      → lookup j (erase k entries) ≡ (if k == j then none else lookup j entries)
  unfolding lookup erase
  lookup-erase k j [] h = ground arith
  lookup-erase k j ((i, other) ∷ entries) (fresh, h) = ground (arith, lookup-erase k j entries)

  pub Keys-erase : (k : ℕ) (entries : List (ℕ × V)) → Keys entries → Keys (erase k entries)
  unfolding erase
  Keys-erase k [] h = h
  Keys-erase k ((i, other) ∷ entries) (fresh, h) =
      ground (arith, Keys-erase k entries, lookup-erase k i entries)

  pub length-insert :
      (k : ℕ) (value : V) (entries : List (ℕ × V))
      → lookup k entries ≡ none
      → length (insert k value entries) ≡ suc (length entries)
  unfolding lookup insert
  length-insert k value [] h = refl
  length-insert k value ((i, other) ∷ entries) h = ground (arith, length-insert k value entries)

  pub length-erase :
      (k : ℕ) (value : V) (entries : List (ℕ × V))
      → lookup k entries ≡ some value
      → suc (length (erase k entries)) ≡ length entries
  unfolding lookup erase
  length-erase k value [] h = cc
  length-erase k value ((i, other) ∷ entries) h = ground (arith, length-erase k value entries)

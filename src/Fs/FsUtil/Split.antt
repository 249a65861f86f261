-- ===== src/Fs/FsUtil/Split.antt =====
-- The parts of a text by recursion on its bytes, and the loop of `separate_path` against it.
use pingfs.Base.{
  ℕ, zero, suc, ◌+◌, ◌-◌, ◌≤◌, ◌<◌, none, some, List, [], ◌∷◌, ◌++◌, Bytes, length, take, drop,
  ◌==◌, if◌then◌else◌, ok, arith, ◌≡◌, refl, ap, ◌∙◌, append_assoc, take-all, length-drop, inl, inr,
  All, ◌≢◌, Option-cases, le→ltb-false,
}
use pingfs.Fs.FsUtil.{find_char, find, substr, separator, separate_loop}

abbrev pub Lacks : ℕ → Bytes → Type 0
Lacks c = All (λ x. x ≢ c)

-- Puts a byte in front of the first part.
abbrev pub onto_first : ℕ → List Bytes → List Bytes
onto_first c [] = (c ∷ []) ∷ []
onto_first c (p ∷ ps) = (c ∷ p) ∷ ps

unfoldable pub split : Bytes → List Bytes
split [] = [] ∷ []
split (c ∷ s) = if c == separator then [] ∷ split s else onto_first c (split s)

drop-nil {ℓ} : {A : Type ℓ} (n : ℕ) → drop n (let e : List A = [] in e) ≡ []
drop-nil zero = refl
drop-nil (suc n) = refl

pub drop-drop {ℓ} : {A : Type ℓ} (n m : ℕ) (s : List A) → drop m (drop n s) ≡ drop (n + m) s
drop-drop zero m s = ap (λ k. drop k s) (omega arith)
drop-drop (suc n) m [] = let e : suc n + m ≡ suc (n + m) = omega arith in rw e (drop-nil m)
drop-drop (suc n) m (x ∷ s) =
    let e : suc n + m ≡ suc (n + m) = omega arith in rw e (drop-drop n m s)

-- Without a separator the text is one part.
split-none : (s : Bytes) → find_char separator s ≡ none → split s ≡ s ∷ []
unfolding find_char split
split-none [] h = refl
split-none (c ∷ s) h = ground (arith, split-none s)

-- At the first separator the text falls into the part before it and what is behind it.
split-some :
    (s : Bytes) (i : ℕ)
    → find_char separator s ≡ some i
    → (split s ≡ take i s ∷ split (drop (suc i) s)) × (i < length s)
unfolding find_char split
split-some [] i h = cc
split-some (c ∷ s) zero h = ground (arith, split-some s)
split-some (c ∷ s) (suc i) h = ground (arith, split-some s i)

pub split-ne-nil : (s : Bytes) → split s ≢ []
unfolding split
split-ne-nil [] = ground arith
split-ne-nil (c ∷ s) = ground (arith, split-ne-nil s)

module _ (abs_path : Bytes) where
  -- One round of the loop, by the first separator behind `from_index`.
  pub separate_loop-split :
      (fuel from_index : ℕ) (out : List Bytes)
      → from_index ≤ length abs_path
      → length (drop from_index abs_path) < fuel
      → separate_loop fuel abs_path from_index out ≡ ok (out ++ split (drop from_index abs_path))
  unfolding separate_loop find substr
  separate_loop-split zero from out le lt = absurd (omega arith)
  separate_loop-split (suc fuel) from out le lt =
      elim (Option-cases (find_char separator (drop from abs_path))) [
        | inl last ↦
            rw (last, separate_loop)
              (rw (le→ltb-false (length abs_path) from le) (
                rw (split-none _ last) (
                  rw (
                    take-all (length abs_path) (drop from abs_path)
                      (omega (arith, length-drop from abs_path))))))
        | inr (i, at) ↦
            let (parts, inside) = split-some (drop from abs_path) i at in
            let low = length-drop from abs_path in
            let next : from + i + 1 ≤ length abs_path = omega (arith, low) in
            let behind = drop-drop from (suc i) abs_path in
            let e : from + i - from ≡ i = omega arith in
            let e' : from + suc i ≡ from + i + 1 = omega arith in
            rw (at, separate_loop)
              (rw (le→ltb-false (length abs_path) from le) (
                rw (e, parts, behind, e')
                  (separate_loop-split fuel (from + i + 1) (out ++ take i (drop from abs_path) ∷ [])
                      next (omega (arith, low, length-drop (from + i + 1) abs_path))
                    ∙ ap ok (
                        append_assoc out (take i (drop from abs_path) ∷ [])
                          (split (drop (from + i + 1) abs_path))))))
      ]

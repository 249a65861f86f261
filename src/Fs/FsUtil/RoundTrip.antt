-- ===== src/Fs/FsUtil/RoundTrip.antt =====
-- `separate_path` and `join` of lib/src/fs/fs_util.cc undo one another on absolute paths.
use pingfs.Base.{
  ℕ, suc, ◌+◌, false, List, [], ◌∷◌, ◌++◌, Bytes, length, ok, fail, Failure, ◌>>=◌, arith, ◌≡◌,
  refl, ap, ◌∙◌, append_assoc, All, ◌≢◌, list_beq, nat_eq, Bool-cases, inl, inr, ◌⊎◌,
}
use pingfs.Fs.FsUtil.{
  find, substr, separate_loop, separator, get_separator, separate_path, join_loop, join,
}
use pingfs.Fs.FsUtil.Split.{Lacks, onto_first, split, split-ne-nil, separate_loop-split}

-- The parts behind the root: none if nothing stands behind the first separator.
names : Bytes → List Bytes
names [] = []
names (c ∷ s) = split (c ∷ s)

separate_path-names : (s : Bytes) → separate_path (separator ∷ s) ≡ ok (get_separator ∷ names s)
unfolding separate_path names list_beq
separate_path-names [] = refl
separate_path-names (c ∷ s) =
    separate_loop-split (separator ∷ c ∷ s) (suc (suc (length s)) + 1) 1 (get_separator ∷ [])
      (omega arith) (omega arith)

-- The parts of a text with a separator between them.
glue : List Bytes → Bytes
glue [] = []
glue (p ∷ []) = p
glue (p ∷ q ∷ ps) = p ++ separator ∷ glue (q ∷ ps)

glue-onto_first : (c : ℕ) (ps : List Bytes) → glue (onto_first c ps) ≡ c ∷ glue ps
unfolding glue
glue-onto_first c [] = refl
glue-onto_first c (p ∷ []) = refl
glue-onto_first c (p ∷ q ∷ ps) = refl

glue-nil : (ps : List Bytes) → ps ≢ [] → glue ([] ∷ ps) ≡ separator ∷ glue ps
unfolding glue
glue-nil [] h = absurd (h refl)
glue-nil (p ∷ ps) h = refl

glue-split : (s : Bytes) → glue (split s) ≡ s
unfolding split glue
glue-split [] = refl
glue-split (c ∷ s) =
    ground (arith, glue-split s, glue-onto_first c (split s), glue-nil (split s) (split-ne-nil s))

split-append : (p s : Bytes) → Lacks separator p → split (p ++ separator ∷ s) ≡ p ∷ split s
unfolding split
split-append [] s h = ground arith
split-append (c ∷ p) s h = ground (arith, split-append p s)

split_alone : (p : Bytes) → Lacks separator p → split p ≡ p ∷ []
unfolding split
split_alone [] h = refl
split_alone (c ∷ p) h = ground (arith, split_alone p)

split-glue :
    (p : Bytes) (ps : List Bytes) → All (Lacks separator) (p ∷ ps) → split (glue (p ∷ ps)) ≡ p ∷ ps
unfolding glue
split-glue p [] h = split_alone p h.0
split-glue p (q ∷ ps) h = split-append p (glue (q ∷ ps)) h.0 ∙ ap (◌∷◌ p) (split-glue q ps h.1)

-- A part that lacks the separator is not the root.
not_root : (p : Bytes) → Lacks separator p → list_beq p get_separator ≡ false
unfolding list_beq get_separator
not_root [] h = refl
not_root (c ∷ p) h = ground arith

join_loop-glue :
    (joined p : Bytes) (ps : List Bytes)
    → All (Lacks separator) (p ∷ ps)
    → join_loop joined p ps ≡ joined ++ glue (p ∷ ps)
unfolding join_loop glue
join_loop-glue joined p [] h = refl
join_loop-glue joined p (q ∷ ps) h =
    rw (not_root p h.0, join_loop-glue ((joined ++ p) ++ get_separator) q ps h.1)
      (unfold get_separator in simp append_assoc)

split-Lacks : (s : Bytes) → All (Lacks separator) (split s)
unfolding split
split-Lacks [] = (tt, tt)
split-Lacks (c ∷ s) = ground (arith, split-Lacks s, split-ne-nil s)

names-Lacks : (s : Bytes) → All (Lacks separator) (names s)
unfolding names
names-Lacks [] = tt
names-Lacks (c ∷ s) = split-Lacks (c ∷ s)

join-root :
    (ps : List Bytes)
    → All (Lacks separator) ps
    → ps ≢ []
    → join (get_separator ∷ ps) ≡ ok (separator ∷ glue ps)
unfolding join join_loop list_beq get_separator
join-root [] h ne = absurd (ne refl)
join-root (p ∷ ps) h ne = rw (join_loop-glue (separator ∷ []) p ps h)

split-cons-glue : (ps : List Bytes) → All (Lacks separator) ps → ps ≢ [] → split (glue ps) ≡ ps
split-cons-glue [] h ne = absurd (ne refl)
split-cons-glue (p ∷ ps) h ne = split-glue p ps h

names-split : (s : Bytes) → s ≢ [] → names s ≡ split s
unfolding names
names-split [] h = absurd (h refl)
names-split (c ∷ s) h = refl

glue-ne-nil : (ps : List Bytes) → ps ≢ [] → ps ≢ [] ∷ [] → glue ps ≢ []
unfolding glue
glue-ne-nil [] h k = absurd (h refl)
glue-ne-nil ([] ∷ []) h k = absurd (k refl)
glue-ne-nil ((c ∷ p) ∷ []) h k = ground arith
glue-ne-nil ([] ∷ q ∷ ps) h k = ground arith
glue-ne-nil ((c ∷ p) ∷ q ∷ ps) h k = ground arith

-- Every path that begins with the separator is rebuilt exactly by `join` from the parts that
-- `separate_path` cuts it into; neither call throws.
pub join-separate_path : (s : Bytes) → (separate_path (separator ∷ s) >>= join) ≡ ok (separator ∷ s)
join-separate_path [] =
    rw (separate_path-names []) (unfold join join_loop names get_separator in refl)
join-separate_path (c ∷ s) =
    rw (separate_path-names (c ∷ s), names-split (c ∷ s) (cc))
      (join-root (split (c ∷ s)) (split-Lacks (c ∷ s)) (split-ne-nil (c ∷ s))
        ∙ ap (λ t. ok (separator ∷ t)) (glue-split (c ∷ s)))

-- Joining the root with names that hold no separator, other than the single empty name, gives a
-- path that `separate_path` cuts into the root and those names again.
pub separate_path-join :
    (ps : List Bytes)
    → All (Lacks separator) ps
    → ps ≢ [] ∷ []
    → (join (get_separator ∷ ps) >>= separate_path) ≡ ok (get_separator ∷ ps)
separate_path-join [] h ne = unfold join join_loop separate_path list_beq get_separator in refl
separate_path-join (p ∷ ps) h ne =
    let filled : p ∷ ps ≢ [] = cc in
    rw (
      join-root (p ∷ ps) h filled,
      separate_path-names (glue (p ∷ ps)),
      names-split (glue (p ∷ ps)) (glue-ne-nil (p ∷ ps) filled ne),
      split-glue p ps h,
    )

cut_behind :
    (c : ℕ) (s : Bytes)
    → separate_loop (length (c ∷ s) + 1) (c ∷ s) 1 (get_separator ∷ [])
      ≡ ok (get_separator ∷ split s)
cut_behind c s =
    separate_loop-split (c ∷ s) (length (c ∷ s) + 1) 1 (get_separator ∷ []) (omega arith)
      (omega arith)

-- For every path but the empty one `separate_path` returns, its first part is the separator and no
-- other part holds a separator. The empty path makes `substr` throw.
pub separate_path_parts :
    (path : Bytes)
    → ((path ≡ []) × (separate_path path ≡ fail Failure.out_of_range))
      ⊎ ((parts : List Bytes) × (separate_path path ≡ ok (get_separator ∷ parts))
          × All (Lacks separator) parts)
separate_path_parts [] = inl (refl, unfold separate_path find substr list_beq get_separator in refl)
separate_path_parts (c ∷ s) = elim (Bool-cases (list_beq (c ∷ s) get_separator)) [
  | inl e ↦ inr ([], unfold separate_path in rw e, tt)
  | inr e ↦ inr (split s, unfold separate_path in rw e (cut_behind c s), split-Lacks s)
]

-- ===== src/Fs/BlockFuse/Represents/Parents.antt =====
-- Paths of lib/src/fs/block_fuse.cc in parts: those of the parent, and the last one.
use pingfs.Base.{List, [], ◌∷◌, ◌++◌, some, Bytes, ok, ◌≡◌, ◌≢◌, refl, ap, subst, All, inl, inr}
use pingfs.Fs.FsUtil.{get_separator, separator, separate_path, join, join_loop}
use pingfs.Fs.FsUtil.Split.{Lacks}
use pingfs.Fs.FsUtil.RoundTrip.{separate_path-join, separate_path_parts}
use pingfs.Fs.BlockFuse.{back}
use pingfs.Fs.BlockFuse.Directories.{pop_back}

pub back-snoc : {A : Type 0} (xs : List A) (x : A) → back (xs ++ x ∷ []) ≡ some x
unfolding back
back-snoc [] x = refl
back-snoc (y ∷ []) x = refl
back-snoc (y ∷ z ∷ xs) x = back-snoc (z ∷ xs) x

pub pop_back-snoc : {A : Type 0} (xs : List A) (x : A) → pop_back (xs ++ x ∷ []) ≡ xs
unfolding pop_back
pop_back-snoc [] x = refl
pop_back-snoc (y ∷ []) x = refl
pop_back-snoc (y ∷ z ∷ xs) x = ap (◌∷◌ y) (pop_back-snoc (z ∷ xs) x)

-- A path in parts: those of its parent, and its last one. A parent `//` is read as the root.
pub record Parts (path : Bytes) (parents : List Bytes) (name : Bytes) : Type 0 where
  pub cut : separate_path path ≡ ok (get_separator ∷ (parents ++ name ∷ []))
  pub plain : parents ≢ [] ∷ []

pub record Parent (parents : List Bytes) : Type 0 where
  pub path : Bytes
  pub joined : join (get_separator ∷ parents) ≡ ok path
  pub cut : separate_path path ≡ ok (get_separator ∷ parents)

All-front : {A : Type 0} (P : A → Type 0) (xs ys : List A) → All P (xs ++ ys) → All P xs
All-front P [] ys h = tt
All-front P (x ∷ xs) ys (p, h) = (p, All-front P xs ys h)

pub parent_of :
    {path : Bytes} {parents : List Bytes} {name : Bytes} → Parts path parents name → Parent parents
unfolding join
parent_of {path} {parents} {name} p = elim (separate_path_parts path) [
  | inl (_, out) ↦ absurd (cc (p.cut, out))
  | inr (parts, cut, lacks) ↦
      let same : parts ≡ parents ++ name ∷ [] = cc (p.cut, cut) in
      let lacks' =
        All-front (Lacks separator) parents (name ∷ [])
          (subst (All (Lacks separator)) same lacks) in
      record {
        path = join_loop [] get_separator parents;
        joined = refl;
        cut = separate_path-join parents lacks' p.plain;
      }
]

-- ===== src/Fs/BlockFuse/Represents/Removing.antt =====
-- The entry that `rmdir` in lib/src/fs/block_fuse.cc takes away: the way to its directory, and the
-- entries without it.
use pingfs.Base.{
  ℕ, ◌+◌, ◌≤◌, List, [], ◌∷◌, ◌++◌, some, Bytes, ◌≡◌, refl, sym, ap, subst, ◌∙◌, arith, append-nil,
}
use mathlib.Core.List.{reverse, reverse_aux}
use pingfs.BlockData.Data.{BlockId}
use pingfs.BlockData.Block.{Block}
use pingfs.Fs.BlockUtil.{remove_ids}
use pingfs.Fs.BlockUtil.Stores.{View}
use pingfs.Fs.BlockUtil.Layers.{ids_of, ids_of-append}
use pingfs.Fs.Tree.{Entry, without}
use Entry.{directory}
use pingfs.Fs.BlockFuse.{back}
use pingfs.Fs.BlockFuse.Represents.{Holds, HoldsAll, of_directory, count, under, uses_all, uses}
use pingfs.Fs.BlockFuse.Represents.Found.{Found, count-uses_all}
use pingfs.Fs.BlockFuse.Represents.Frame.{HoldsAll-append}
use pingfs.Fs.BlockFuse.Represents.Walk.{Way}
use pingfs.Fs.BlockFuse.Represents.Rebuild.{Change}
use pingfs.Fs.BlockFuse.Represents.Rounds.{remove_ids-one}
use pingfs.Fs.BlockFuse.Represents.Inserting.{AsDirectory}
use Way.{here, into}

-- The way to an entry, as the way to its directory and the last step.
pub record Above {look : View} {n : ℕ} {b : Block} {e : Entry} (h : Holds look n b e)
    (parents : List Bytes) (name : Bytes) (path : List Block) (b' : Block) (e' : Entry)
    : Type 0 where
  pub front_path : List Block
  pub block : Block
  pub entry : Entry
  pub holds : Holds look n block entry
  pub way : Way b e h parents front_path block entry holds
  pub dir : AsDirectory holds
  pub found : Found dir.kids name
  pub path_is : path ≡ front_path ++ found.target ∷ []
  pub target_is : found.target ≡ b'
  pub entry_is : found.entry ≡ e'

pub above :
    {look : View} {n : ℕ} (parents : List Bytes) {b b' : Block} {e e' : Entry}
    {h : Holds look n b e} {name : Bytes} {path : List Block} {h' : Holds look n b' e'}
    → Way b e h (parents ++ name ∷ []) path b' e' h'
    → Above h parents name path b' e'
unfolding under
above [] (into {b} {d} {inner} {es} {at} {is} {type} {children} {kids} r here) = record {
  front_path = [];
  block = b;
  entry = directory d.name d.stat es;
  holds = of_directory at is type children kids;
  way = here;
  dir = record {
    d = d;
    inner = inner;
    es = es;
    is = is;
    type = type;
    children = children;
    entry = refl;
    kids = kids;
    used = λ j. refl;
  };
  found = r;
  path_is = refl;
  target_is = refl;
  entry_is = refl;
}
above (p ∷ parents) (into r w) =
    let q = above parents w in
    record {
      front_path = r.target ∷ q.front_path;
      block = q.block;
      entry = q.entry;
      holds = q.holds;
      way = into r q.way;
      dir = q.dir;
      found = q.found;
      path_is = ap (◌∷◌ r.target) q.path_is;
      target_is = q.target_is;
      entry_is = q.entry_is;
    }

-- The entries without the first of a name.
pub record Removed {look : View} {n : ℕ} {b : Block} {e : Entry} {h : Holds look n b e}
    (dir : AsDirectory h) {name : Bytes} (r : Found dir.kids name) : Type 0 where
  pub change : Change look n b e ((r.target).block_id ∷ []) [] (without name)
  pub sums :
      (j : BlockId) → uses_all j change.holds ≡ uses_all j r.front_holds + uses_all j r.behind_holds

pub removed :
    {look : View} {n : ℕ} {b : Block} {e : Entry} {h : Holds look n b e} (dir : AsDirectory h)
    {name : Bytes} (r : Found dir.kids name)
    → ((j : BlockId) → uses j h ≤ 1)
    → Removed dir r
removed {look} {n} dir {name} r single =
    let (whole, sum) = HoldsAll-append r.front_holds r.behind_holds in
    let (holds, sums) : (m : HoldsAll look n (r.front ++ r.behind) (without name dir.es))
        × ((j : BlockId) → uses_all j m ≡ uses_all j r.front_holds + uses_all j r.behind_holds) =
      subst
        (λ es.
          (m : HoldsAll look n (r.front ++ r.behind) es) × ((j : BlockId)
            → uses_all j m ≡ uses_all j r.front_holds + uses_all j r.behind_holds))
        (sym r.others) (whole, sum) in
    let split = dir.children ∙ ap ids_of r.whole ∙ ids_of-append r.front (r.target ∷ r.behind) in
    let first : count (r.target).block_id (ids_of r.front) ≡ 0 = ground (
      arith,
      single (r.target).block_id,
      dir.used (r.target).block_id,
      r.used (r.target).block_id,
      count-uses_all (r.target).block_id r.front_holds,
    ) in
    record {
      change = record {
        d = dir.d;
        es = dir.es;
        is = dir.is;
        type = dir.type;
        entry = dir.entry;
        kept = ids_of r.front ++ ids_of r.behind;
        removed =
            ap (λ ids. remove_ids ids ((r.target).block_id ∷ [])) split
            ∙ remove_ids-one (ids_of r.front) (ids_of r.behind) (r.target).block_id first;
        blocks = r.front ++ r.behind;
        listed =
            append-nil (ids_of r.front ++ ids_of r.behind) ∙ sym (ids_of-append r.front r.behind);
        holds = holds;
      };
      sums = sums;
    }

-- Reversed paths.
pub reverse-snoc : {A : Type 0} (xs : List A) (x : A) → reverse (xs ++ x ∷ []) ≡ x ∷ reverse xs
reverse-snoc {A} xs x = go xs []
  where
    go : (ys acc : List A) → reverse_aux (ys ++ x ∷ []) acc ≡ x ∷ reverse_aux ys acc
    go [] acc = refl
    go (y ∷ ys) acc = go ys (y ∷ acc)

back-init :
    {A : Type 0} (xs : List A) {x : A} → back xs ≡ some x → (init : List A) × (xs ≡ init ++ x ∷ [])
unfolding back
back-init [] h = absurd (cc h)
back-init (y ∷ []) h = ([], cc h)
back-init (y ∷ z ∷ xs) h = let (init, e) = back-init (z ∷ xs) h in (y ∷ init, ap (◌∷◌ y) e)

pub reverse-back :
    {A : Type 0} (xs : List A) {x : A}
    → back xs ≡ some x
    → (rest : List A) × (reverse xs ≡ x ∷ rest)
reverse-back xs {x} h =
    let (init, e) = back-init xs h in (reverse init, ap reverse e ∙ reverse-snoc init x)

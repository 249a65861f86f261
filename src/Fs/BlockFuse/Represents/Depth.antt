-- ===== src/Fs/BlockFuse/Represents/Depth.antt =====
-- How deep a tree of blocks is in lib/src/fs/block_fuse.cc, for the recursion that frees it.
use pingfs.Base.{ℕ, zero, suc, ◌+◌, ◌≤◌, List, none, some, Bytes, ◌≡◌, refl, ap, ◌∙◌, arith}
use pingfs.Base.Counts.{count}
use pingfs.BlockData.Data.{
  BlockId, DirFileBlockData, LinkBlockData, FileContentsBlockData, link, dir_file, file_contents,
}
use pingfs.BlockData.Block.{Block}
use pingfs.Fs.BlockUtil.{get_children, try_cast_link, try_cast_dir_file}
use pingfs.Fs.BlockUtil.Stores.{View, Stores, level}
use Stores.{nil, leaf, node}
use pingfs.Fs.BlockUtil.Layers.{ids_of}
use pingfs.Fs.BlockUtil.Freeing.{Subtree, Subtrees, below, below_all}
use Subtree.{childless, parent}
use Subtrees.{no_more, child}
use pingfs.Fs.Tree.{Entry, Entries, depth, depth_all}
use pingfs.Fs.BlockFuse.Represents.Found.{look-Holds}
use pingfs.Fs.BlockFuse.Represents.{
  Holds, HoldsAll, of_directory, of_file, none_left, one_more, cells, under, uses_all,
}

-- Every block has the id that it is found under.
abbrev pub SameIds : View → Type 0
SameIds look = (i : BlockId) (b : Block) → look i ≡ some b → b.block_id ≡ i

leaf-children :
    (b : Block) {c : FileContentsBlockData} → b.data_ ≡ file_contents c → get_children b ≡ none
unfolding get_children try_cast_link try_cast_dir_file
leaf-children b is = rw is

link-children :
    (b : Block) {l : LinkBlockData} → b.data_ ≡ link l → get_children b ≡ some l.children
unfolding get_children try_cast_link try_cast_dir_file
link-children b is = rw is

dir_file-children :
    (b : Block) {d : DirFileBlockData} → b.data_ ≡ dir_file d → get_children b ≡ some d.children
unfolding get_children try_cast_link try_cast_dir_file
dir_file-children b is = rw is

module _ {look : View} (same : SameIds look) where
  ids-level :
      {d : ℕ} {ids : List BlockId} {text : Bytes} (t : Stores look d ids text)
      → ids ≡ ids_of (level t)
  unfolding level
  ids-level nil = refl
  ids-level (leaf {i} {b} at is rest) = cc (same i b at, ids-level rest)
  ids-level (node {i} {b} at is inner rest) = cc (same i b at, ids-level rest)

  -- The contents of a file, as a tree of blocks.
  record Contents {d : ℕ} {ids : List BlockId} {text : Bytes} (t : Stores look d ids text) (k : ℕ)
      : Type 0 where
    trees : Subtrees look k (level t)
    counts : (j : BlockId) → cells j t ≡ count j ids + below_all j trees

  contents :
      {d : ℕ} {ids : List BlockId} {text : Bytes} (t : Stores look d ids text) (k : ℕ)
      → d ≤ k
      → Contents t k
  unfolding level cells below below_all
  contents nil k le = record { trees = no_more; counts = λ j. omega arith }
  contents (leaf {i} {b} at is rest) k le =
      let r = contents rest k le in
      record {
        trees = child (ap look (same i b at) ∙ at) (childless (leaf-children b is)) r.trees;
        counts = λ j. omega (arith, r.counts j);
      }
  contents (node at is inner rest) zero le = absurd (omega (arith, le))
  contents (node {i} {b} {l} at is inner rest) (suc k) le =
      let q = contents inner k (omega (arith, le)) in
      let r = contents rest (suc k) le in
      record {
        trees =
            child (ap look (same i b at) ∙ at)
              (parent (link-children b is ∙ ap some (ids-level inner)) q.trees) r.trees;
        counts = λ j. omega (arith, q.counts j, r.counts j, ap (count j) (ids-level inner));
      }

  -- A tree of names, as a tree of blocks.
  record Trees {n : ℕ} {bs : List Block} {es : Entries} (hs : HoldsAll look n bs es) (d : ℕ)
      : Type 0 where
    trees : Subtrees look d bs
    counts : (j : BlockId) → uses_all j hs ≡ count j (ids_of bs) + below_all j trees

  pub record OneTree {n : ℕ} {b : Block} {e : Entry} (h : Holds look n b e) (d : ℕ) : Type 0 where
    pub tree : Subtree look d b
    pub counts : (j : BlockId) → under j h ≡ below j tree

  mutual
    unfolding under uses_all below below_all depth

    pub subtree :
        {n : ℕ} {b : Block} {e : Entry} (h : Holds look n b e) (d : ℕ) → depth n e ≤ d → OneTree h d
    subtree (of_directory at is type children kids) zero le = absurd (omega (arith, le))
    subtree (of_file at is type stored) zero le = absurd (omega (arith, le))
    subtree {b} (of_directory at is type children kids) (suc d) le =
        let r = subtrees kids d (omega (arith, le)) in
        record {
          tree = parent (dir_file-children b is ∙ ap some children) r.trees;
          counts = r.counts;
        }
    subtree {b} (of_file at is type stored) (suc d) le =
        let r = contents stored d (omega (arith, le)) in
        record {
          tree = parent (dir_file-children b is ∙ ap some (ids-level stored)) r.trees;
          counts = λ j. omega (arith, r.counts j, ap (count j) (ids-level stored));
        }

    subtrees :
        {n : ℕ} {bs : List Block} {es : Entries} (hs : HoldsAll look n bs es) (d : ℕ)
        → depth_all n es ≤ d
        → Trees hs d
    subtrees none_left d le = record { trees = no_more; counts = λ j. omega arith }
    subtrees (one_more {b} h hs) d le =
        let r = subtree h d (omega (arith, le)) in
        let q = subtrees hs d (omega (arith, le)) in
        record {
          trees = child (look-Holds h) r.tree q.trees;
          counts = λ j. omega (arith, r.counts j, q.counts j);
        }

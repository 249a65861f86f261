-- ===== src/Fs/BlockFuse/Represents.antt =====
-- How the blocks of lib/src/fs/block_fuse.cc stand for a tree of names: a directory's children are
-- its entries, without links between, and a file's children store its text.
pub mod Found
pub mod Nameless
pub mod Search
pub mod Walk
pub mod Rounds
pub mod Rebuild
pub mod Frame
pub mod Answers
pub mod Replacing
pub mod Inserting
pub mod Parents
pub mod Mkdir
pub mod Made
pub mod Depth
pub mod Removing
pub mod Rmdir
pub mod History
pub mod Run
pub mod Readdir
pub mod Create
pub mod After
use pingfs.Base.{
  ℕ, ◌+◌, ◌≤◌, ◌==◌, if◌then◌else◌, true, false, List, [], ◌∷◌, some, Bytes, ◌≡◌, arith,
}
pub use pingfs.Base.Counts.{hit, count}
use pingfs.BlockData.Data.{BlockId, DirFileBlockData, dir_file, is_dir}
use pingfs.BlockData.Block.{Block}
use pingfs.Fs.BlockUtil.Stores.{View, Stores}
use pingfs.Fs.BlockUtil.Layers.{ids_of}
use Stores.{nil, leaf, node}
use pingfs.Fs.Tree.{Entry, Entries}
use Entry.{directory, file}
use Entries.{nothing, more}

-- `n` bounds the layers of links below a file.
mutual
  pub data Holds (look : View) (n : ℕ) : Block → Entry → Type 0 where
    of_directory :
        {b : Block} {d : DirFileBlockData} {inner : List Block} {es : Entries}
        → look b.block_id ≡ some b
        → b.data_ ≡ dir_file d
        → is_dir d ≡ true
        → d.children ≡ ids_of inner
        → HoldsAll look n inner es
        → Holds look n b (directory d.name d.stat es)
    of_file :
        {b : Block} {d : DirFileBlockData} {text : Bytes}
        → look b.block_id ≡ some b
        → b.data_ ≡ dir_file d
        → is_dir d ≡ false
        → Stores look n d.children text
        → Holds look n b (file d.name d.stat text)

  pub data HoldsAll (look : View) (n : ℕ) : List Block → Entries → Type 0 where
    none_left : HoldsAll look n [] nothing
    one_more :
        {b : Block} {e : Entry} {bs : List Block} {es : Entries}
        → Holds look n b e
        → HoldsAll look n bs es
        → HoldsAll look n (b ∷ bs) (more e es)

-- How often an id occurs below a file, and in a tree.
module _ {look : View} (j : BlockId) where
  unfoldable pub cells : {d : ℕ} {ids : List BlockId} {text : Bytes} → Stores look d ids text → ℕ
  cells nil = 0
  cells (leaf {i} at is rest) = hit j i + cells rest
  cells (node {i} at is inner rest) = hit j i + cells inner + cells rest

  module _ {n : ℕ} where
    unfoldable mutual
      unfolding cells

      pub under : {b : Block} {e : Entry} → Holds look n b e → ℕ
      under (of_directory at is type children kids) = uses_all kids
      under (of_file at is type stored) = cells stored

      pub uses_all : {bs : List Block} {es : Entries} → HoldsAll look n bs es → ℕ
      uses_all none_left = 0
      uses_all (one_more {b} h hs) = hit j b.block_id + under h + uses_all hs

    abbrev pub uses : {b : Block} {e : Entry} → Holds look n b e → ℕ
    uses {b} h = hit j b.block_id + under h

-- No block is used twice.
abbrev pub Distinct : {look : View} {n : ℕ} {b : Block} {e : Entry} → Holds look n b e → Type 0
Distinct h = (j : BlockId) → uses j h ≤ 1

-- ===== src/Fs/BlockFuse/Represents/Frame.antt =====
-- A tree of blocks in lib/src/fs/block_fuse.cc stands for the same names as long as the blocks that it
-- uses are there.
use pingfs.Base.{ℕ, ◌+◌, ◌≤◌, List, ◌++◌, none, some, Bytes, ◌≡◌, refl, arith}
use pingfs.BlockData.Data.{BlockId}
use pingfs.BlockData.Block.{Block}
use pingfs.Fs.BlockUtil.Stores.{View, Stores}
use Stores.{nil, leaf, node}
use pingfs.Fs.Tree.{Entry, Entries, ◌+++◌}
use pingfs.Fs.BlockFuse.Represents.{
  Holds, HoldsAll, of_directory, of_file, none_left, one_more, hit, cells, under, uses_all, uses,
}

-- The blocks with the ids of which a function counts one or more are still there.
abbrev pub Keeps : View → View → (BlockId → ℕ) → Type 0
Keeps look look' used = (j : BlockId) (x : Block) → 1 ≤ used j → look j ≡ some x → look' j ≡ some x

hit_self : (i : BlockId) → hit i i ≡ 1
hit_self i = ground arith

module _ {look look' : View} where
  cells-Keeps :
      {d : ℕ} {ids : List BlockId} {text : Bytes} (t : Stores look d ids text)
      → Keeps look look' (λ j. cells j t)
      → (t' : Stores look' d ids text) × ((j : BlockId) → cells j t' ≡ cells j t)
  unfolding cells
  cells-Keeps nil keeps = (nil, λ j. refl)
  cells-Keeps (leaf {i} {b} at is rest) keeps =
      let (rest', same) = cells-Keeps rest (λ j x le. keeps j x (omega (arith, le))) in
      (leaf (keeps i b (omega (arith, hit_self i)) at) is rest', λ j. omega (arith, same j))
  cells-Keeps (node {i} {b} at is inner rest) keeps =
      let (inner', same1) = cells-Keeps inner (λ j x le. keeps j x (omega (arith, le))) in
      let (rest', same2) = cells-Keeps rest (λ j x le. keeps j x (omega (arith, le))) in
      (
        node (keeps i b (omega (arith, hit_self i)) at) is inner' rest',
        λ j. omega (arith, same1 j, same2 j),
      )

  module _ {n : ℕ} where
    mutual
      unfolding under uses_all

      pub Holds-Keeps :
          {b : Block} {e : Entry} (h : Holds look n b e)
          → Keeps look look' (λ j. uses j h)
          → (h' : Holds look' n b e) × ((j : BlockId) → under j h' ≡ under j h)
      Holds-Keeps {b} (of_directory at is type children kids) keeps =
          let (kids', same) = HoldsAll-Keeps kids (λ j x le. keeps j x (omega (arith, le))) in
          (
            of_directory (keeps b.block_id b (omega (arith, hit_self b.block_id)) at) is type
                children kids',
            same,
          )
      Holds-Keeps {b} (of_file at is type stored) keeps =
          let (stored', same) = cells-Keeps stored (λ j x le. keeps j x (omega (arith, le))) in
          (
            of_file (keeps b.block_id b (omega (arith, hit_self b.block_id)) at) is type stored',
            same,
          )

      pub HoldsAll-Keeps :
          {bs : List Block} {es : Entries} (hs : HoldsAll look n bs es)
          → Keeps look look' (λ j. uses_all j hs)
          → (hs' : HoldsAll look' n bs es) × ((j : BlockId) → uses_all j hs' ≡ uses_all j hs)
      HoldsAll-Keeps none_left keeps = (none_left, λ j. refl)
      HoldsAll-Keeps (one_more h hs) keeps =
          let (h', same1) = Holds-Keeps h (λ j x le. keeps j x (omega (arith, le))) in
          let (hs', same2) = HoldsAll-Keeps hs (λ j x le. keeps j x (omega (arith, le))) in
          (one_more h' hs', λ j. omega (arith, same1 j, same2 j))

-- What is used is there.
module _ {look : View} (j : BlockId) where
  cells-there :
      {d : ℕ} {ids : List BlockId} {text : Bytes} (t : Stores look d ids text)
      → look j ≡ none
      → cells j t ≡ 0
  unfolding cells
  cells-there nil out = refl
  cells-there (leaf at is rest) out = ground (arith, cells-there rest)
  cells-there (node at is inner rest) out = ground (arith, cells-there inner, cells-there rest)

  mutual
    unfolding under uses_all

    pub uses-there :
        {n : ℕ} {b : Block} {e : Entry} (h : Holds look n b e) → look j ≡ none → uses j h ≡ 0
    uses-there (of_directory at is type children kids) out = ground (arith, uses_all-there kids)
    uses-there (of_file at is type stored) out = ground (arith, cells-there stored)

    pub uses_all-there :
        {n : ℕ} {bs : List Block} {es : Entries} (hs : HoldsAll look n bs es)
        → look j ≡ none
        → uses_all j hs ≡ 0
    uses_all-there none_left out = refl
    uses_all-there (one_more h hs) out = ground (arith, uses-there h, uses_all-there hs)

-- Lists of children, joined.
module _ {look : View} {n : ℕ} where
  pub HoldsAll-append :
      {bs cs : List Block} {es fs : Entries} (hs : HoldsAll look n bs es)
      (ks : HoldsAll look n cs fs)
      → (m : HoldsAll look n (bs ++ cs) (es +++ fs)) × ((j : BlockId)
          → uses_all j m ≡ uses_all j hs + uses_all j ks)
  unfolding uses_all
  HoldsAll-append none_left ks = (ks, λ j. omega arith)
  HoldsAll-append (one_more h hs) ks =
      let (m, same) = HoldsAll-append hs ks in (one_more h m, λ j. omega (arith, same j))

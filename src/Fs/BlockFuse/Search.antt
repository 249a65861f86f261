-- ===== src/Fs/BlockFuse/Search.antt =====
-- The search of lib/src/fs/block_fuse.cc for a name in a directory whose children are directories and
-- files, with no links between.
use pingfs.Base.{
  ℕ, suc, ◌==◌, Bool, true, false, List, [], ◌∷◌, ◌++◌, map, none, some, Bytes, Result, ok, ◌>>=◌,
  ◌≡◌, refl, ap, All, list_beq, nat_eq, ==-self,
}
use pingfs.Base.Maps.{lookup, insert}
use pingfs.BlockData.Data.{BlockId, DirFileBlockData, dir_file}
use pingfs.BlockData.Block.{Block}
use pingfs.Fs.BlockUtil.{
  try_cast_dir_file, try_cast_link, find_in_children, find_path, get_children,
}
use pingfs.Fs.FsUtil.{get_separator}
use pingfs.BlockManager.Interface.{BlockManager, IsBlockManager}
use pingfs.Fs.BlockFuse.{
  BlockFuse, search_layers, get_path_part, is_named, children_of_link, get_path_part_helper,
}

-- The blocks that the search has seen.
abbrev pub seen : List (BlockId × Block) → List Block → List (BlockId × Block)
seen retrieved [] = retrieved
seen retrieved (block ∷ blocks) = seen (insert block.block_id block retrieved) blocks

-- A directory or file that is not the one that is asked for.
abbrev pub IsOther : Bytes → Block → Type 0
IsOther name block = (is_named block name ≡ false) × (children_of_link block ≡ [])

-- The first block of the name ends the round.
pub get_path_part_helper-first :
    (name : Bytes) (front behind : List Block) (target : Block) (retrieved : List (BlockId × Block))
    → All (IsOther name) front
    → is_named target name ≡ true
    → get_path_part_helper [] retrieved (map some (front ++ target ∷ behind)) name
      ≡ ok (some target, ([], insert target.block_id target (seen retrieved front)))
unfolding get_path_part_helper
get_path_part_helper-first name [] behind target retrieved others named = rw named
get_path_part_helper-first name (b ∷ front) behind target retrieved ((other, flat), others) named =
    rw (
      other,
      flat,
      get_path_part_helper-first name front behind target (insert b.block_id b retrieved) others
          named,
    )

pub get_path_part_helper-absent :
    (name : Bytes) (blocks : List Block) (retrieved : List (BlockId × Block))
    → All (IsOther name) blocks
    → get_path_part_helper [] retrieved (map some blocks) name
      ≡ ok (none, ([], seen retrieved blocks))
unfolding get_path_part_helper
get_path_part_helper-absent name [] retrieved others = refl
get_path_part_helper-absent name (b ∷ blocks) retrieved ((other, flat), others) =
    rw (other, flat, get_path_part_helper-absent name blocks (insert b.block_id b retrieved) others)

-- No child of a block that was passed over has been seen.
abbrev pub NotSeen : List (BlockId × Block) → List BlockId → Type 0
NotSeen retrieved = All (λ id. lookup id retrieved ≡ none)

find_in_children-NotSeen :
    (find : Block → List Block → Result (Bool × List Block)) (retrieved : List (BlockId × Block))
    (ids : List BlockId) (path : List Block)
    → NotSeen retrieved ids
    → find_in_children find retrieved ids path ≡ ok (false, path)
unfolding find_in_children
find_in_children-NotSeen find retrieved [] path h = refl
find_in_children-NotSeen find retrieved (id ∷ ids) path (out, h) =
    rw (out, find_in_children, find_in_children-NotSeen find retrieved ids path h)

-- What the walk to the target relies on at each sibling before it.
pub record IsSibling (retrieved : List (BlockId × Block)) (target b : Block) : Type 0 where
  pub there : lookup b.block_id retrieved ≡ some b
  pub differs : (b.block_id == target.block_id) ≡ false
  pub children : List BlockId
  pub has : get_children b ≡ some children
  pub apart : NotSeen retrieved children

find_path-sibling :
    (fuel : ℕ) (retrieved : List (BlockId × Block)) (target b : Block) (path : List Block)
    → IsSibling retrieved target b
    → find_path (suc fuel) retrieved b target path ≡ ok (false, path)
unfolding find_path
find_path-sibling fuel retrieved target b path h =
    rw (h.differs, h.has, find_in_children-NotSeen _ retrieved h.children path h.apart)

find_path-itself :
    (fuel : ℕ) (retrieved : List (BlockId × Block)) (target : Block) (path : List Block)
    → find_path (suc fuel) retrieved target target path ≡ ok (true, path)
unfolding find_path
find_path-itself fuel retrieved target path = rw (==-self target.block_id)

find_in_children-target :
    (fuel : ℕ) (retrieved : List (BlockId × Block)) (target : Block) (front : List Block)
    (rest : List BlockId) (path : List Block)
    → All (IsSibling retrieved target) front
    → lookup target.block_id retrieved ≡ some target
    → find_in_children
        (λ child path'. find_path (suc fuel) retrieved child target path')
        retrieved
        (map (λ b. b.block_id) front ++ target.block_id ∷ rest)
        path
      ≡ ok (true, path ++ target ∷ [])
unfolding find_in_children
find_in_children-target fuel retrieved target [] rest path siblings there =
    rw (there, find_in_children, find_path-itself fuel retrieved target path)
find_in_children-target fuel retrieved target (b ∷ front) rest path (h, siblings) there = rw (
  h.there,
  find_in_children,
  find_path-sibling fuel retrieved target b path h,
  find_in_children-target fuel retrieved target front rest path siblings there,
)

abbrev pub ids : List Block → List BlockId
ids = map (λ b. b.block_id)

get_children-directory :
    (from : Block) (d : DirFileBlockData)
    → from.data_ ≡ dir_file d
    → get_children from ≡ some d.children
unfolding get_children try_cast_link try_cast_dir_file
get_children-directory from d is = rw is

find_path-directory :
    (fuel : ℕ) (retrieved : List (BlockId × Block)) (from target : Block) (d : DirFileBlockData)
    (front behind : List Block)
    → from.data_ ≡ dir_file d
    → d.children ≡ ids front ++ target.block_id ∷ ids behind
    → (from.block_id == target.block_id) ≡ false
    → All (IsSibling retrieved target) front
    → lookup target.block_id retrieved ≡ some target
    → find_path (suc (suc fuel)) retrieved from target [] ≡ ok (true, target ∷ [])
unfolding find_path
find_path-directory fuel retrieved from target d front behind is children apart siblings there =
    rw (
      apart,
      get_children-directory from d is,
      children,
      find_in_children-target fuel retrieved target front (ids behind) [] siblings there,
    )

module _ {S : Type 0} (manager : BlockManager S) where
  search_layers-first :
      (fuel : ℕ) (name : Bytes) (front behind : List Block) (target : Block) (s : S)
      → manager.get_blocks (ids front ++ target.block_id ∷ ids behind) s
        ≡ ok (map some (front ++ target ∷ behind), s)
      → All (IsOther name) front
      → is_named target name ≡ true
      → search_layers manager (suc fuel) name (ids front ++ target.block_id ∷ ids behind) [] s
        ≡ ok (some target, (insert target.block_id target (seen [] front), s))
  unfolding search_layers
  search_layers-first fuel name [] behind target s got others named =
      rw (got, get_path_part_helper-first name [] behind target [] others named)
  search_layers-first fuel name (b ∷ front) behind target s got others named =
      rw (got, get_path_part_helper-first name (b ∷ front) behind target [] others named)

  abbrev with_path : BlockFuse S → Bool × List Block → Result (List Block × BlockFuse S)
  with_path fuse (found, path) = ok (path, fuse)

  -- In a directory whose children can all be fetched, the search for a name other than the separator
  -- finds the first child of that name, if every child before it is a directory or file with an id
  -- of its own, and has itself no child among the blocks that the search has seen. The path to the
  -- target is that block alone. Nothing changes.
  pub get_path_part-first :
      (contract : IsBlockManager manager) (fuel : ℕ) (name : Bytes) (from : Block)
      (d : DirFileBlockData) (front behind : List Block) (target : Block) (fuse : BlockFuse S)
      → contract.IsValid fuse.blocks
      → list_beq name get_separator ≡ false
      → from.data_ ≡ dir_file d
      → d.children ≡ ids front ++ target.block_id ∷ ids behind
      → map (contract.look fuse.blocks) (ids front ++ target.block_id ∷ ids behind)
        ≡ map some (front ++ target ∷ behind)
      → All (IsOther name) front
      → is_named target name ≡ true
      → (from.block_id == target.block_id) ≡ false
      → All (IsSibling (insert target.block_id target (seen [] front)) target) front
      → lookup target.block_id (insert target.block_id target (seen [] front)) ≡ some target
      → get_path_part manager (suc fuel) name (some from) fuse ≡ ok (target ∷ [], fuse)
  unfolding get_path_part try_cast_dir_file
  get_path_part-first contract fuel name from d front behind target fuse valid part is children look
        others named apart siblings there =
      let retrieved : List (BlockId × Block) = insert target.block_id target (seen [] front) in
      let got =
        contract.get (ids front ++ target.block_id ∷ ids behind) (front ++ target ∷ behind)
          fuse.blocks valid look in
      let searched =
        search_layers-first fuel name front behind target fuse.blocks got others named in
      let walk =
        find_path-directory fuel retrieved from target d front behind is children apart siblings
          there in
      rw (part, is, children, searched) (ap (λ r. r >>= with_path fuse) walk)

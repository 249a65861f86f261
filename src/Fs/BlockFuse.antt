-- ===== src/Fs/BlockFuse.antt =====
-- lib/src/fs/block_fuse.cc: the state of the file system, and the search for the blocks on a path.
-- The children hold its operations.
pub mod Directories
pub mod Contents
pub mod Errors
pub mod Reading
pub mod Revertible
pub mod Search
pub mod Represents
pub mod Distributed
use pingfs.Base.{
  ℕ, zero, suc, ◌==◌, if◌then◌else◌, Bool, true, false, List, [], ◌∷◌, ◌++◌, map, Option, none,
  some, Bytes, Result, ok, fail, Failure, ◌>>=◌, list_beq, nat_eq,
}
use Failure.{undefined, out_of_fuel}
use pingfs.Base.Maps.{insert}
use pingfs.Base.Numbers.{ℤ, pos, neg}
use pingfs.BlockData.Stat.{StatBuffer, update_stat}
use pingfs.BlockData.Data.{BlockId, DirFileBlockData}
use pingfs.BlockData.Block.{Block}
use pingfs.BlockManager.Interface.{BlockManager}
use pingfs.Fs.FsUtil.{separate_path, get_separator}
use pingfs.Fs.BlockUtil.{try_cast_dir_file, try_cast_link, find_path}

-- `blocks` is the state of the block manager; `errno` is that of the calling thread.
pub record BlockFuse (S : Type 0) : Type 0 where
  pub blocks : S
  pub root_block : Block
  pub dev : ℕ
  pub errno : ℕ

-- The values of errno.h on Linux.
abbrev pub enoent : ℕ
enoent = 2

abbrev pub eexist : ℕ
eexist = 17

abbrev pub eisdir : ℕ
eisdir = 21

unfoldable pub set_no_such_file_or_dir : {S : Type 0} → BlockFuse S → ℤ × BlockFuse S
set_no_such_file_or_dir fuse = (neg enoent, record fuse { errno = enoent })

unfoldable pub set_file_exists : {S : Type 0} → BlockFuse S → ℤ × BlockFuse S
set_file_exists fuse = (neg eexist, record fuse { errno = eexist })

unfoldable pub set_error_because_dir : {S : Type 0} → BlockFuse S → ℤ × BlockFuse S
set_error_because_dir fuse = (neg eisdir, record fuse { errno = eisdir })

-- `back` of a vector.
unfoldable pub back : {A : Type 0} → List A → Option A
back [] = none
back (x ∷ []) = some x
back (x ∷ y ∷ xs) = back (y ∷ xs)

unfoldable pub is_named : Block → Bytes → Bool
unfolding try_cast_dir_file
is_named block target_name = elim (try_cast_dir_file block) [
  | some d ↦ list_beq d.name target_name
  | none ↦ false
]

unfoldable pub children_of_link : Block → List BlockId
unfolding try_cast_link
children_of_link block = elim (try_cast_link block) [ some l ↦ l.children | none ↦ [] ]

-- What the helper leaves: the target if it was there, the ids to check next, and the blocks seen.
abbrev pub Searched : Type 0
Searched = Option Block × (List BlockId × List (BlockId × Block))

unfoldable pub get_path_part_helper :
    List BlockId → List (BlockId × Block) → List (Option Block) → Bytes → Result Searched
unfolding is_named children_of_link
get_path_part_helper blocks_to_check retrieved_blocks [] target_name =
    ok (none, (blocks_to_check, retrieved_blocks))
get_path_part_helper blocks_to_check retrieved_blocks (none ∷ resp_blocks) target_name =
    fail undefined
get_path_part_helper blocks_to_check retrieved_blocks (some block ∷ resp_blocks) target_name =
    let retrieved = insert block.block_id block retrieved_blocks in
    let rest =
      get_path_part_helper (blocks_to_check ++ children_of_link block) retrieved resp_blocks
        target_name in
    if is_named block target_name then ok (some block, (blocks_to_check, retrieved)) else rest

module _ {S : Type 0} (manager : BlockManager S) where
  -- The breadth-first search, a layer of links for each round.
  unfoldable pub search_layers :
      ℕ
      → Bytes
      → List BlockId
      → List (BlockId × Block)
      → S
      → Result (Option Block × (List (BlockId × Block) × S))
  unfolding get_path_part_helper
  search_layers fuel target_name [] retrieved_blocks s = ok (none, (retrieved_blocks, s))
  search_layers zero target_name (id ∷ ids) retrieved_blocks s = fail out_of_fuel
  search_layers (suc fuel) target_name (id ∷ ids) retrieved_blocks s =
      manager.get_blocks (id ∷ ids) s >>= λ (response, s').
      get_path_part_helper [] retrieved_blocks response target_name
      >>= λ (target, (blocks_to_check, retrieved)). elim target [
        | some block ↦ ok (some block, (retrieved, s'))
        | none ↦ search_layers fuel target_name blocks_to_check retrieved s'
      ]

  -- `fuel` bounds the layers of links between a directory and a block in it.
  unfoldable pub get_path_part :
      ℕ → Bytes → Option Block → BlockFuse S → Result (List Block × BlockFuse S)
  unfolding search_layers
  get_path_part fuel rel_file_dir_name from_block fuse =
      if list_beq rel_file_dir_name get_separator
      then ok (fuse.root_block ∷ [], fuse)
      else elim from_block [
        | none ↦ fail undefined
        | some from ↦ elim (try_cast_dir_file from) [
          | none ↦ fail undefined
          | some d ↦
              search_layers fuel rel_file_dir_name d.children [] fuse.blocks
              >>= λ (target_inode, (retrieved_blocks, s)). elim target_inode [
                | none ↦ ok ([], record fuse { blocks = s })
                | some target ↦
                    find_path (suc fuel) retrieved_blocks from target [] >>= λ (found, block_path).
                    ok (block_path, record fuse { blocks = s })
              ]
        ]
      ]

  -- The loop of `get_path` over the parts of a path.
  unfoldable pub walk_parts :
      ℕ → List Bytes → Option Block → List Block → BlockFuse S → Result (List Block × BlockFuse S)
  unfolding get_path_part back
  walk_parts fuel [] from_block blocks fuse = ok (blocks, fuse)
  walk_parts fuel (part ∷ parts) from_block blocks fuse =
      get_path_part fuel part from_block fuse >>= λ (block_path, fuse'). elim (back block_path) [
        | none ↦ ok ([], fuse')
        | some last ↦ walk_parts fuel parts (some last) (blocks ++ block_path) fuse'
      ]

  unfoldable pub get_path : ℕ → Bytes → BlockFuse S → Result (List Block × BlockFuse S)
  unfolding walk_parts
  get_path fuel path fuse = separate_path path >>= λ parts. walk_parts fuel parts none [] fuse

  unfoldable pub resolve_inode : ℕ → Bytes → BlockFuse S → Result (Option Block × BlockFuse S)
  unfolding get_path back
  resolve_inode fuel path fuse =
      get_path fuel path fuse >>= λ (blocks, fuse'). ok (back blocks, fuse')

  unfoldable pub getattr :
      ℕ → Bytes → StatBuffer → BlockFuse S → Result (ℤ × (StatBuffer × BlockFuse S))
  unfolding resolve_inode set_no_such_file_or_dir
  getattr fuel path stbuf fuse = resolve_inode fuel path fuse >>= λ (resolved, fuse').
      elim resolved [
        | none ↦ let (code, fuse'') = set_no_such_file_or_dir fuse' in ok (code, (stbuf, fuse''))
        | some block ↦ elim (try_cast_dir_file block) [
          | none ↦ fail undefined
          | some d ↦ ok (pos 0, (update_stat d.stat fuse'.dev 1 stbuf, fuse'))
        ]
      ]

-- ===== src/Fs/BlockUtil.antt =====
-- lib/src/fs/block_util.cc: walks over trees of blocks, over any block manager.
pub mod Links
pub mod Stores
pub mod Extends
pub mod Layers
pub mod LinkLayers
pub mod Write
pub mod Freeing
use pingfs.Base.{
  ℕ, zero, suc, ◌+◌, ◌-◌, ◌*◌, ◌/◌, ◌==◌, if◌then◌else◌, Bool, true, false, not, List, [], ◌∷◌,
  ◌++◌, map, Option, none, some, Bytes, length, get_elem?, Result, ok, fail, Failure, ◌>>=◌,
}
use Failure.{thrown, undefined, out_of_fuel}
use Prim.Native.Nat.{max}
use pingfs.Base.Maps.{lookup}
use pingfs.BlockData.Data.{
  BlockId, BlockData, DirFileBlockData, LinkBlockData, FileContentsBlockData, dir_file, link,
  file_contents, with_children, is_dir,
}
use pingfs.BlockData.Block.{Block}
use pingfs.BlockManager.Interface.{BlockManager}
use pingfs.Fs.FsUtil.{substr}

as_dir_file : BlockData → Option DirFileBlockData
as_dir_file (dir_file d) = some d
as_dir_file _ = none

as_link : BlockData → Option LinkBlockData
as_link (link d) = some d
as_link _ = none

as_contents : BlockData → Option FileContentsBlockData
as_contents (file_contents d) = some d
as_contents _ = none

-- The casts of the data of a block.
unfoldable pub try_cast_dir_file : Block → Option DirFileBlockData
unfolding as_dir_file
try_cast_dir_file block = as_dir_file block.data_

unfoldable pub try_cast_link : Block → Option LinkBlockData
unfolding as_link
try_cast_link block = as_link block.data_

unfoldable pub try_cast_contents : Block → Option FileContentsBlockData
unfolding as_contents
try_cast_contents block = as_contents block.data_

-- `none` is the result `false`.
unfoldable pub get_children : Block → Option (List BlockId)
unfolding try_cast_link try_cast_dir_file
get_children block = elim (try_cast_link block) [
  | some d ↦ some d.children
  | none ↦ elim (try_cast_dir_file block) [ some d ↦ some d.children | none ↦ none ]
]

-- The loop of `find_path` over the children; `find` is the call for one of them.
unfoldable pub find_in_children :
    (Block → List Block → Result (Bool × List Block))
    → List (BlockId × Block)
    → List BlockId
    → List Block
    → Result (Bool × List Block)
find_in_children find retrieved_blocks [] block_path = ok (false, block_path)
find_in_children find retrieved_blocks (child_id ∷ children) block_path =
    elim (lookup child_id retrieved_blocks) [
      | none ↦ find_in_children find retrieved_blocks children block_path
      | some child ↦ find child block_path >>= λ (found, path').
          let rest = find_in_children find retrieved_blocks children path' in
          if found then ok (true, path' ++ child ∷ []) else rest
    ]

unfoldable pub find_path :
    ℕ → List (BlockId × Block) → Block → Block → List Block → Result (Bool × List Block)
unfolding find_in_children get_children
find_path zero retrieved_blocks from_block target_block block_path = fail out_of_fuel
find_path (suc fuel) retrieved_blocks from_block target_block block_path =
    if from_block.block_id == target_block.block_id
    then ok (true, block_path)
    else elim (get_children from_block) [
      | none ↦ ok (false, block_path)
      | some children ↦
          find_in_children (λ child path. find_path fuel retrieved_blocks child target_block path)
            retrieved_blocks children block_path
    ]

unfoldable pub file_blocks_to_contents : List FileContentsBlockData → Bytes → Bytes
file_blocks_to_contents [] contents = contents
file_blocks_to_contents (b ∷ file_blocks) contents =
    file_blocks_to_contents file_blocks (contents ++ b.data_)

-- Takes each id of the second list off the first, and asserts that it is there.
unfoldable pub erase_first : BlockId → List BlockId → Option (List BlockId)
erase_first id [] = none
erase_first id (x ∷ xs) =
    if x == id then some xs else elim (erase_first id xs) [ none ↦ none | some r ↦ some (x ∷ r) ]

unfoldable pub remove_ids : List BlockId → List BlockId → Result (List BlockId)
unfolding erase_first
remove_ids to_remove_from [] = ok to_remove_from
remove_ids to_remove_from (id ∷ to_remove) = elim (erase_first id to_remove_from) [
  | none ↦ fail undefined
  | some rest ↦ remove_ids rest to_remove
]

module _ {S : Type 0} (manager : BlockManager S) where
  -- The loop of `get_file_contents` over a response; `descend` is the call for a link. A null
  -- pointer in the response is followed.
  unfoldable pub collect_contents :
      (List BlockId → List FileContentsBlockData → S → Result (List FileContentsBlockData × S))
      → List (Option Block)
      → List FileContentsBlockData
      → S
      → Result (List FileContentsBlockData × S)
  unfolding try_cast_contents try_cast_link
  collect_contents descend [] file_blocks s = ok (file_blocks, s)
  collect_contents descend (none ∷ blocks) file_blocks s = fail undefined
  collect_contents descend (some block ∷ blocks) file_blocks s = elim (try_cast_contents block) [
    | some c ↦ collect_contents descend blocks (file_blocks ++ c ∷ []) s
    | none ↦ elim (try_cast_link block) [
      | some l ↦ descend l.children file_blocks s >>= λ (file_blocks', s').
          collect_contents descend blocks file_blocks' s'
      | none ↦ collect_contents descend blocks file_blocks s
    ]
  ]

  -- The recursion into links runs on fuel: the depth of the tree of links.
  unfoldable pub get_file_contents :
      ℕ → List BlockId → List FileContentsBlockData → S → Result (List FileContentsBlockData × S)
  unfolding collect_contents
  get_file_contents zero blocks_to_check file_blocks s = fail out_of_fuel
  get_file_contents (suc fuel) blocks_to_check file_blocks s =
      manager.get_blocks blocks_to_check s >>= λ (response, s').
      collect_contents (get_file_contents fuel) response file_blocks s'

  unfoldable pub read_file_contents : ℕ → Bytes → DirFileBlockData → S → Result (Bytes × S)
  unfolding get_file_contents file_blocks_to_contents
  read_file_contents fuel result file_inode s =
      if is_dir file_inode
      then fail undefined
      else (get_file_contents fuel file_inode.children [] s >>= λ (file_blocks, s').
          ok (file_blocks_to_contents file_blocks result, s'))

  unfoldable pub replace_block_with_diff_children : Block → List BlockId → S → Result (Block × S)
  unfolding try_cast_link try_cast_dir_file with_children
  replace_block_with_diff_children block new_children s = elim (try_cast_link block) [
    | some l ↦ manager.create_block (link (record { children = new_children })) s
    | none ↦ elim (try_cast_dir_file block) [
      | some d ↦ manager.create_block (dir_file (with_children d new_children)) s
      | none ↦ fail thrown
    ]
  ]

  -- One round of `replace_chain`; a block that has no children counts as one with none.
  unfoldable pub replace_round :
      Block → List BlockId → Option Block → List BlockId → S → Result (Block × S)
  unfolding get_children remove_ids replace_block_with_diff_children
  replace_round block to_remove last_replaced children_to_add s =
      let children : List BlockId = elim (get_children block) [
        | none ↦ []
        | some children ↦ children
      ] in
      remove_ids children to_remove >>= λ kept.
      replace_block_with_diff_children block
        (elim last_replaced [
          | some last ↦ kept ++ last.block_id ∷ []
          | none ↦ kept ++ children_to_add
        ])
        s

  -- The blocks come from the last one back to the root. With no block the result is null.
  unfoldable pub replace_chain :
      List Block → List BlockId → Option Block → List BlockId → S → Result (Option Block × S)
  unfolding replace_round
  replace_chain [] to_remove last_replaced children_to_add s = ok (last_replaced, s)
  replace_chain (block ∷ blocks) to_remove last_replaced children_to_add s =
      replace_round block to_remove last_replaced children_to_add s >>= λ (new_block, s').
      replace_chain blocks (block.block_id ∷ []) (some new_block) children_to_add s'

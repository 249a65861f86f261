-- ===== src/Fs/BlockFuse/Distributed.antt =====
-- lib/src/fs/distributed_block_fuse.cc: a file system whose root several nodes share.
use pingfs.Base.{
  ltb, if◌then◌else◌, Bool, false, true, not, Option, none, some, list_beq, Result, ok, fail,
  Failure, ◌>>=◌, nat_eq,
}
use Failure.{undefined}
use pingfs.BlockData.Data.{DirFileBlockData, is_dir}
use pingfs.Fs.FsUtil.{get_separator}
use pingfs.BlockData.Block.{Block}
use pingfs.BlockManager.Interface.{BlockManager}
use pingfs.BlockManager.IdSupplier.{UpdatingIdSupplier, update_if_less_than}
use pingfs.Fs.BlockUtil.{try_cast_dir_file}
use pingfs.Fs.BlockFuse.{BlockFuse}
use pingfs.Fs.BlockFuse.Directories.{Virtuals}

-- The supplier is shared with the block manager.
pub record DistributedBlockFuse (S : Type 0) : Type 0 where
  pub fuse : BlockFuse S
  pub id_supplier : UpdatingIdSupplier

-- A pointer that may be null, as a test and followed.
unfoldable pub is_set : Option DirFileBlockData → Bool
is_set none = false
is_set (some d) = true

unfoldable pub dereference : Option DirFileBlockData → Result DirFileBlockData
dereference none = fail undefined
dereference (some d) = ok d

-- The cast is tested the wrong way round: the null pointer that a failed cast gives is followed.
unfoldable pub is_root_block : Block → Result Bool
unfolding is_set dereference
is_root_block block =
    let resolved_data = try_cast_dir_file block in
    if is_set resolved_data
    then ok false
    else (dereference resolved_data >>= λ d.
        if not (is_dir d)
        then ok false
        else (dereference resolved_data >>= λ d'. ok (list_beq d'.name get_separator)))

module _ {S : Type 0} where
  unfoldable pub set_root_block_no_update : Block → DistributedBlockFuse S → DistributedBlockFuse S
  set_root_block_no_update new_root fuse = record fuse {
    fuse = record fuse.fuse { root_block = new_root };
  }

  unfoldable pub process : Block → DistributedBlockFuse S → Result (DistributedBlockFuse S)
  unfolding is_root_block set_root_block_no_update
  process block fuse =
      let updated = record fuse {
        id_supplier = update_if_less_than block.block_id fuse.id_supplier;
      } in
      is_root_block block >>= λ is_root.
      if not is_root
      then ok updated
      else if ltb ((updated.fuse).root_block).block_id block.block_id
      then ok (set_root_block_no_update block updated)
      else ok updated

  -- `register_root` is the service's, which sends the root to the other nodes.
  abbrev pub distributed_virtuals : BlockManager S → (Block → S → Result S) → Virtuals S
  distributed_virtuals manager register_root = record {
    free_block = manager.free_block;
    announce_root = register_root;
  }

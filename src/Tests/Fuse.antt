-- ===== src/Tests/Fuse.antt =====
-- Runs of the file system over the block manager in memory.
use pingfs.Base.{◌≡◌, refl, [], ◌∷◌, List, some, none, Bytes, ok, codes, true, false, list_beq}
use pingfs.Base.Maps.{insert}
use pingfs.Base.Numbers.{pos, neg}
use pingfs.BlockData.FileType
use pingfs.BlockData.FileType.{FileType, file_type_beq}
use pingfs.BlockData.Mode
use pingfs.BlockData.Mode.{Mode, of_mode_t}
use pingfs.BlockData.Data.{dir_file}
use pingfs.BlockData.Block.{Block}
use pingfs.BlockManager.IdSupplier.{counter_next_id}
use pingfs.BlockManager.Memory.{create_block}
use pingfs.BlockManager.Memory.Contract.{Store}
use pingfs.Fs.BlockUtil.{replace_chain}
use pingfs.Fs.FsUtil.{separate_path, join}
use pingfs.Fs.BlockFuse.{getattr}
use pingfs.Fs.BlockFuse.Directories
use pingfs.Fs.BlockFuse.Directories.{System, block_fuse_virtuals, readdir, rmdir}
use pingfs.Fs.BlockFuse.Revertible
use pingfs.Fs.BlockFuse.Revertible.{
  RevertibleBlockFuse, starts_with, revert_dir_sentinel, rmdir-mkdir,
}
use pingfs.Tests.Fixture.{manager, sys, blank, stat_of, directory}

abbrev new_root : Block
new_root = record { block_id = 1; data_ = directory (codes "/") [] }

abbrev before : RevertibleBlockFuse Store
before = record {
  fuse = record {
    blocks = record { id_supplier = record { next_id_ = 2 }; map_ = (1, some new_root) ∷ [] };
    root_block = new_root;
    dev = 1;
    errno = 0;
  };
  checkpoint_requested = false;
  checkpoints = [];
}

abbrev made_dir : Block
made_dir = record {
  block_id = 2;
  data_ =
      dir_file
        (record { name = codes "__checkpoint_1"; stat = stat_of FileType.dir 1; children = [] });
}

abbrev replaced_root : Block
replaced_root = record { block_id = 3; data_ = directory (codes "/") (2 ∷ []) }

abbrev after : RevertibleBlockFuse Store
after = record {
  fuse = record {
    blocks = record {
      id_supplier = record { next_id_ = 4 };
      map_ = (1, some new_root) ∷ (2, some made_dir) ∷ (3, some replaced_root) ∷ [];
    };
    root_block = replaced_root;
    dev = 1;
    errno = 2;
  };
  checkpoint_requested = true;
  checkpoints = (codes "/__checkpoint_1", new_root) ∷ [];
}

mkdir_checkpoint :
    Revertible.mkdir manager sys 2 blank (codes "/__checkpoint_1") 0o751 before ≡ ok (pos 0, after)
unfolding Revertible.mkdir Directories.mkdir separate_path list_beq getattr neg join of_mode_t
    FileType.from_mode_t create_block counter_next_id replace_chain insert
    Mode.user_mode_from_mode_t Mode.group_mode_from_mode_t Mode.other_mode_from_mode_t Mode.bits_set
mkdir_checkpoint = refl

rmdir-mkdir_example :
    (rest : List (Bytes × Block)) × (Revertible.rmdir manager 2
        (codes "/__checkpoint_1")
        (record after { fuse = after.fuse })
      ≡ ok (
        none,
        record {
          fuse = record after.fuse { root_block = new_root };
          checkpoint_requested = true;
          checkpoints = rest;
        },
      ))
unfolding starts_with
rmdir-mkdir_example =
    rmdir-mkdir manager sys 2 2 blank (codes "/__checkpoint_1") 0o751 before after (pos 0)
      after.fuse refl mkdir_checkpoint

-- ===== src/Tests/Fixture.antt =====
-- A file system of four blocks over the block manager in memory, for the runs of the other modules.
use pingfs.Base.{[], ◌∷◌, List, some, Bytes, codes, ℕ, arith}
use pingfs.Base.Maps.{lookup}
use pingfs.BlockData.ReadWriteExecute.{ReadWriteExecute}
use pingfs.BlockData.FileType.{FileType}
use pingfs.BlockData.Stat.{Stat, StatBuffer}
use pingfs.BlockData.Data.{DirFileBlockData, BlockData, dir_file, link, file_contents}
use pingfs.BlockData.Block.{Block}
use pingfs.BlockManager.IdSupplier.{counter_ids}
use pingfs.BlockManager.Interface.{BlockManager}
use pingfs.BlockManager.Memory.{memory_block_manager}
use pingfs.BlockManager.Memory.Contract.{Store, IsStore}
use pingfs.Fs.BlockFuse.{BlockFuse}
use pingfs.Fs.BlockFuse.Directories.{System}

abbrev pub manager : BlockManager Store
manager = memory_block_manager counter_ids

abbrev pub sys : System
sys = record { time = 100; getuid = 1000; getgid = 1000 }

abbrev pub blank : StatBuffer
blank = record {
  st_ino = 0;
  st_dev = 0;
  st_mode = 0;
  st_uid = 0;
  st_gid = 0;
  st_size = 0;
  st_atime = 0;
  st_mtime = 0;
  st_ctime = 0;
  st_nlink = 0;
  st_rdev = 0;
  st_blksize = 0;
  st_blocks = 0;
}

abbrev pub stat_of : FileType → ℕ → Stat
stat_of type size = record {
  mode = record {
    user_mode = ReadWriteExecute.read_write_execute;
    group_mode = ReadWriteExecute.read_execute;
    other_mode = ReadWriteExecute.execute;
    file_type = type;
  };
  uid = 1000;
  gid = 1000;
  size = size;
  access_time = 100;
  mod_time = 100;
  status_change_time = 100;
}

abbrev pub directory : Bytes → List ℕ → BlockData
directory name children =
    dir_file (record { name = name; stat = stat_of FileType.dir 0; children = children })

abbrev pub file_inode : DirFileBlockData
file_inode = record { name = codes "a"; stat = stat_of FileType.regular 5; children = 3 ∷ [] }

abbrev pub leaf_block : Block
leaf_block = record { block_id = 2; data_ = file_contents (record { data_ = codes "hello" }) }

abbrev pub link_block : Block
link_block = record { block_id = 3; data_ = link (record { children = 2 ∷ [] }) }

abbrev pub inode : Block
inode = record { block_id = 4; data_ = dir_file file_inode }

abbrev pub root : Block
root = record { block_id = 5; data_ = directory (codes "/") (4 ∷ []) }

-- The root, a file "a" below it, a link and a leaf.
abbrev pub store : Store
store = record {
  id_supplier = record { next_id_ = 6 };
  map_ = (2, some leaf_block) ∷ (3, some link_block) ∷ (4, some inode) ∷ (5, some root) ∷ [];
}

pub store-IsStore : IsStore store
unfolding lookup
store-IsStore = record {
  keys = ground arith;
  range = omega arith;
  below = λ k v at. ground arith;
  named = λ k b at. ground arith;
}

abbrev pub fuse : BlockFuse Store
fuse = record { blocks = store; root_block = root; dev = 1; errno = 0 }

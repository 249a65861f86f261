-- ===== src/Tests/Files.antt =====
-- Files in the block manager in memory: one leaf below one link is read, and a text is written.
use pingfs.Base.{◌>>=◌, ◌≡◌, refl, List, [], ◌∷◌, some, ok, codes, arith}
use pingfs.Base.Maps.{lookup}
use pingfs.BlockData.ReadWriteExecute.{ReadWriteExecute}
use pingfs.BlockData.FileType.{FileType, file_type_beq}
use pingfs.BlockData.Stat
use pingfs.BlockData.Data.{DirFileBlockData, link, file_contents, is_dir, BlockId, with_children}
use pingfs.BlockData.Block.{Block}
use pingfs.BlockManager.IdSupplier.{counter_ids}
use pingfs.BlockManager.Memory.{memory_block_manager}
use pingfs.BlockManager.Memory.Contract.{Store, IsStore, look, memory_contract}
use pingfs.Fs.BlockUtil.{read_file_contents}
use pingfs.Fs.BlockUtil.Stores.{Stores, read_file_contents-Stores}
use pingfs.Fs.BlockUtil.Links.{replace_blocks_for_contents, num_leaves}
use pingfs.Fs.BlockUtil.Extends.{Extends}
use pingfs.Fs.BlockUtil.Write.{
  written, replace_blocks_for_contents-Stores, read_file_contents-replace_blocks_for_contents,
}
use Stores.{nil, leaf, node}

abbrev leaf_block : Block
leaf_block = record { block_id = 2; data_ = file_contents (record { data_ = codes "hello" }) }

abbrev link_block : Block
link_block = record { block_id = 3; data_ = link (record { children = 2 ∷ [] }) }

abbrev store : Store
store = record {
  id_supplier = record { next_id_ = 4 };
  map_ = (3, some link_block) ∷ (2, some leaf_block) ∷ [];
}

store-IsStore : IsStore store
unfolding lookup
store-IsStore = record {
  keys = ground arith;
  range = omega arith;
  below = λ k v at. ground arith;
  named = λ k b at. ground arith;
}

abbrev inode : DirFileBlockData
inode = record {
  name = codes "a.txt";
  stat = record {
    mode = record {
      user_mode = ReadWriteExecute.read_write;
      group_mode = ReadWriteExecute.read;
      other_mode = ReadWriteExecute.none;
      file_type = FileType.regular;
    };
    uid = 0;
    gid = 0;
    size = 5;
    access_time = 1;
    mod_time = 1;
    status_change_time = 1;
  };
  children = 3 ∷ [];
}

read_file_contents-Stores_example :
    read_file_contents (memory_block_manager counter_ids) 2 [] inode store
    ≡ ok (codes "hello", store)
unfolding lookup is_dir Stat.is_dir file_type_beq memory_contract
read_file_contents-Stores_example =
    read_file_contents-Stores (memory_block_manager counter_ids) memory_contract store store-IsStore
      inode refl (node {b = link_block} refl refl (leaf {b = leaf_block} refl refl nil) nil)

replace_blocks_for_contents-Stores_example :
    (ids : List BlockId) × (s' : Store) × (replace_blocks_for_contents
        (memory_block_manager counter_ids)
        (λ n b. 1)
        (codes "hello")
        1000
        4
        store
      ≡ ok (ids, s'))
    × IsStore s'
    × Extends (look store) (look s')
    × Stores (look s') 1 ids (written (codes "hello"))
unfolding memory_contract num_leaves
replace_blocks_for_contents-Stores_example =
    replace_blocks_for_contents-Stores (memory_block_manager counter_ids) memory_contract (λ n b. 1)
      (codes "hello") store store-IsStore (omega arith) (omega arith)

read_file_contents-replace_blocks_for_contents_example :
    (replace_blocks_for_contents
        (memory_block_manager counter_ids)
        (λ n b. 1)
        (codes "hello")
        1000
        4
        store
      >>= λ (ids, s').
          read_file_contents (memory_block_manager counter_ids) 2 [] (with_children inode ids) s'
          >>= λ (text, s''). ok text)
    ≡ ok (codes "hello")
unfolding memory_contract is_dir Stat.is_dir file_type_beq
read_file_contents-replace_blocks_for_contents_example =
    read_file_contents-replace_blocks_for_contents (memory_block_manager counter_ids)
      memory_contract (λ n b. 1) (codes "hello") inode store store-IsStore (omega arith)
      (omega arith) (omega arith) refl

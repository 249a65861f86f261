-- ===== src/BlockManager/Memory.antt =====
-- lib/src/block/block_manager/memory_block_manager.cc and block_manager.cc: blocks in a map. Each
-- method is one step: `get_blocks` takes no lock, and is modelled for callers that do not overlap.
pub mod Contract
use pingfs.Base.{ℕ, List, [], ◌∷◌, ◌++◌, Option, none, some, Result, ok, ◌>>=◌, length}
use pingfs.Base.Maps.{lookup, insert, erase}
use pingfs.BlockData.Data.{BlockId, BlockData}
use pingfs.BlockData.Block.{Block}
use pingfs.BlockManager.IdSupplier.{IdSupplier}
use pingfs.BlockManager.Interface.{BlockManager}

pub record MemoryBlockManager (I : Type 0) : Type 0 where
  pub id_supplier : I
  pub map_ : List (BlockId × Option Block)

module _ {I : Type 0} (ids : IdSupplier I) where
  -- `BlockManager::next_id` and `BlockManager::free_id`.
  unfoldable pub next_id : MemoryBlockManager I → Result (BlockId × MemoryBlockManager I)
  next_id s = do
    (id, supplier) ← ids.next_id s.id_supplier
    ok (id, record s { id_supplier = supplier })

  unfoldable pub free_id : BlockId → MemoryBlockManager I → MemoryBlockManager I
  free_id block_id s = record s { id_supplier = ids.free_id block_id s.id_supplier }

  unfoldable pub create_block :
      BlockData → MemoryBlockManager I → Result (Block × MemoryBlockManager I)
  unfolding next_id
  create_block d s = do
    (id, s') ← next_id s
    let block : Block = record { block_id = id; data_ = d }
    ok (block, record s' { map_ = insert id (some block) s'.map_ })

  unfoldable pub free_block : BlockId → MemoryBlockManager I → Result (MemoryBlockManager I)
  unfolding free_id
  free_block block_id s =
      let s' = free_id block_id s in ok (record s' { map_ = erase block_id s'.map_ })

-- `map_[id]`: a key that is missing is inserted with a null pointer.
unfoldable pub at :
    BlockId → List (BlockId × Option Block) → Option Block × List (BlockId × Option Block)
at id m = elim (lookup id m) [ none ↦ (none, insert id none m) | some block ↦ (block, m) ]

-- The loop of `get_blocks`.
unfoldable pub get_loop :
    List BlockId
    → List (BlockId × Option Block)
    → List (Option Block)
    → List (Option Block) × List (BlockId × Option Block)
unfolding at
get_loop [] m retrieved_blocks = (retrieved_blocks, m)
get_loop (id ∷ request_blocks) m retrieved_blocks =
    let (block, m') = at id m in get_loop request_blocks m' (retrieved_blocks ++ block ∷ [])

module _ {I : Type 0} where
  unfoldable pub get_blocks :
      List BlockId → MemoryBlockManager I → Result (List (Option Block) × MemoryBlockManager I)
  unfolding get_loop
  get_blocks block_request s =
      let (blocks, m) = get_loop block_request s.map_ [] in ok (blocks, record s { map_ = m })

  unfoldable pub num_blocks : MemoryBlockManager I → ℕ
  num_blocks s = length s.map_

abbrev pub memory_block_manager : {I : Type 0} → IdSupplier I → BlockManager (MemoryBlockManager I)
memory_block_manager ids = record {
  create_block = create_block ids;
  free_block = free_block ids;
  get_blocks = get_blocks;
}

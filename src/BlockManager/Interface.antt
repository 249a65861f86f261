-- ===== src/BlockManager/Interface.antt =====
-- lib/include/pingfs/block/block_manager/block_manager.hpp: the operations of a block manager, and
-- the contract that the file system relies on.
use pingfs.Base.{ℕ, suc, ◌<◌, ◌==◌, if◌then◌else◌, List, map, Option, none, some, Result, ok, ◌≡◌}
use pingfs.BlockData.Data.{BlockId, BlockData}
use pingfs.BlockData.Block.{Block}

-- A pointer to a block may be null. `BlockRequest` and `BlockResponse` hold their vector and
-- nothing else.
pub record BlockManager (S : Type 0) : Type 0 where
  pub create_block : BlockData → S → Result (Block × S)
  pub free_block : BlockId → S → Result S
  pub get_blocks : List BlockId → S → Result (List (Option Block) × S)

-- What a call of `create_block` promises: a fresh id, the data stored under it, nothing else
-- changed.
pub record IsCreated {S : Type 0} (look : S → BlockId → Option Block) (d : BlockData) (s : S)
    (b : Block) (s' : S) : Type 0 where
  pub holds : b.data_ ≡ d
  pub fresh : look s b.block_id ≡ none
  pub stored : (j : BlockId) → look s' j ≡ (if b.block_id == j then some b else look s j)

-- The contract: `look` is the abstract view, a partial map from ids to blocks. `capacity` bounds the
-- number of blocks that can still be created.
pub record IsBlockManager {S : Type 0} (m : BlockManager S) : Type 1 where
  pub look : S → BlockId → Option Block
  pub IsValid : S → Type 0
  pub capacity : S → ℕ
  pub same_id : (i : BlockId) (b : Block) (s : S) → IsValid s → look s i ≡ some b → b.block_id ≡ i
  pub create :
      (d : BlockData) (s : S)
      → IsValid s
      → 0 < capacity s
      → (b : Block) × (s' : S) × (m.create_block d s ≡ ok (b, s'))
        × IsCreated look d s b s'
        × IsValid s'
        × (capacity s ≡ suc (capacity s'))
  pub free :
      (i : BlockId) (s : S)
      → IsValid s
      → (s' : S) × (m.free_block i s ≡ ok s')
        × ((j : BlockId) → look s' j ≡ (if i == j then none else look s j))
        × IsValid s'
        × (capacity s' ≡ capacity s)
  pub get :
      (ids : List BlockId) (blocks : List Block) (s : S)
      → IsValid s
      → map (look s) ids ≡ map some blocks
      → m.get_blocks ids s ≡ ok (map some blocks, s)

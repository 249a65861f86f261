-- ===== src/Tests/Managers.antt =====
-- The managers of blocks, with inputs like those of test/lib/block/block_manager/.
use pingfs.Base.{◌≡◌, ◌≢◌, refl, [], ◌∷◌, ok, ◌>>=◌, codes, arith, ℕ, ◌+◌, ◌<◌, ◌/◌, ◌*◌, none, ◌⊎◌}
use pingfs.Base.Maps.{lookup}
use pingfs.Base.Sets.{mem}
use pingfs.BlockData.Data.{file_contents}
use pingfs.BlockData.Block.{Block}
use pingfs.BlockManager.IdSupplier.{updating_id_supplier, updating_next_id, update_if_less_than}
use pingfs.BlockManager.IdSupplier.Fresh.{updating_next_id-update_if_less_than}
use pingfs.BlockManager.Memory.{get_blocks, num_blocks}
use pingfs.BlockManager.Memory.Contract.{Store, look, initial, get_blocks-absent}
use pingfs.BlockManager.Async.{AsyncBlockManager, request_blocks, future}
use pingfs.BlockManager.Async.Wakeup.{IsManager}
use pingfs.BlockManager.Async.Progress.{processes, answer, request_blocks-future}

abbrev block_at : ℕ → Block
block_at i = record { block_id = i; data_ = file_contents (record { data_ = codes "data" }) }

updating_next_id-update_if_less_than_example :
    ((1 ≢ 1027 / 256) × (1027 < 1285)) ⊎ ((1 ≡ 1027 / 256) × (1285 ≡ 1027 / 256 * 256 + 5))
unfolding updating_next_id update_if_less_than updating_id_supplier
updating_next_id-update_if_less_than_example =
    updating_next_id-update_if_less_than 1027 (updating_id_supplier 5) (omega arith) (omega arith)
      (omega arith) refl

get_blocks-absent_example :
    (s' : Store) × (get_blocks (9 ∷ []) initial ≡ ok (none ∷ [], s'))
    × (num_blocks s' ≡ num_blocks initial + 1)
    × (look s' 9 ≡ none)
unfolding lookup
get_blocks-absent_example = get_blocks-absent 9 initial refl

-- Nobody waits.
abbrev idle : AsyncBlockManager
idle = record { responses = []; waiting = [] }

idle-IsManager : IsManager idle
unfolding lookup mem
idle-IsManager = record {
  keys = _;
  promises = λ p r at. absurd (ground arith);
  bounded = λ id p h. absurd (ground arith);
  indexed = λ p r id at h. absurd (ground arith);
}

request_blocks-future_example :
    (request_blocks (1 ∷ 2 ∷ []) idle >>= λ (p, m').
    processes (block_at 2 ∷ block_at 5 ∷ []) m' >>= λ m''. ok (future p m''))
    ≡ ok (answer (1 ∷ 2 ∷ []) (block_at 2 ∷ block_at 5 ∷ []))
request_blocks-future_example =
    request_blocks-future (1 ∷ 2 ∷ []) (block_at 2 ∷ block_at 5 ∷ []) idle idle-IsManager

-- ===== src/PingService/Manager.antt =====
-- lib/src/block/block_manager/ping/ping_block_manager.cc and duplicate_ping_block_manager.cc: a block
-- manager whose blocks are in flight. It is an asynchronous block manager that subscribes to its
-- service.
use pingfs.Base.{
  ℕ, zero, suc, List, [], ◌∷◌, ◌++◌, Option, none, some, Result, ok, ◌>>=◌, length, drop,
}
use pingfs.BlockData.Data.{BlockId, BlockData}
use pingfs.BlockData.Block.{Block}
use pingfs.BlockManager.IdSupplier.{IdSupplier}
use pingfs.BlockManager.Async
use pingfs.BlockManager.Async.{AsyncBlockManager}
use pingfs.BlockManager.Async.Progress.{processes}
use pingfs.Ping.EchoResponse.{EchoResponse}
use pingfs.PingService.Translator.{BlockPingTranslator}
use pingfs.PingService.Service
use pingfs.PingService.Service.{TrackFreedService}

-- `asleep` are the blocks with which the threads of `delayed_send` wait.
pub record PingBlockManager (S Endpoint : Type 0) : Type 0 where
  pub id_supplier : S
  pub requests : AsyncBlockManager
  pub ping_block_service : TrackFreedService Endpoint
  pub asleep : List Block

-- The element at an index, and the others.
unfoldable pub take_out {ℓ} : {A : Type ℓ} → ℕ → List A → Option (A × List A)
take_out i [] = none
take_out zero (x ∷ xs) = some (x, xs)
take_out (suc i) (x ∷ xs) = elim (take_out i xs) [
  | none ↦ none
  | some (y, rest) ↦ some (y, x ∷ rest)
]

module _ {S Endpoint : Type 0} where
  -- The constructor.
  unfoldable pub ping_block_manager : S → TrackFreedService Endpoint → PingBlockManager S Endpoint
  ping_block_manager id_supplier ping_block_service = record {
    id_supplier = id_supplier;
    requests = record { responses = []; waiting = [] };
    ping_block_service = ping_block_service;
    asleep = [];
  }

  -- The id is not given back to the supplier.
  unfoldable pub free_block : BlockId → PingBlockManager S Endpoint → PingBlockManager S Endpoint
  free_block block_id m = record m {
    ping_block_service = Service.free_block block_id m.ping_block_service;
  }

  -- `get_blocks` up to the wait for the future, as it is inherited.
  unfoldable pub request_blocks :
      List BlockId → PingBlockManager S Endpoint → Result (ℕ × PingBlockManager S Endpoint)
  request_blocks ids m = Async.request_blocks ids m.requests >>= λ (p, requests).
      ok (p, record m { requests = requests })

module _ {S Endpoint : Type 0} (translator : BlockPingTranslator) where
  unfoldable pub register : Block → PingBlockManager S Endpoint → PingBlockManager S Endpoint
  register block m = record m {
    ping_block_service = Service.register_block translator block m.ping_block_service;
  }

  -- A response reaches the service, which calls `process` of the manager for the block that it
  -- publishes. That call does not touch the service, so it may as well come last.
  unfoldable pub receive :
      EchoResponse → PingBlockManager S Endpoint → Result (PingBlockManager S Endpoint)
  receive resp m = Service.process translator resp m.ping_block_service >>= λ service.
      processes (drop (length m.ping_block_service.published) service.published) m.requests
      >>= λ requests. ok (record m { requests = requests; ping_block_service = service })

  module _ (ids : IdSupplier S) where
    unfoldable pub create_block :
        BlockData → PingBlockManager S Endpoint → Result (Block × PingBlockManager S Endpoint)
    unfolding register
    create_block data' m = ids.next_id m.id_supplier >>= λ (id, id_supplier).
        let block : Block = record { block_id = id; data_ = data' } in
        ok (block, register block (record m { id_supplier = id_supplier }))

    -- `DuplicatePingBlockManager::create_block`, up to the start of the thread.
    unfoldable pub duplicate_create_block :
        BlockData → PingBlockManager S Endpoint → Result (Block × PingBlockManager S Endpoint)
    unfolding create_block
    duplicate_create_block data' m =
        create_block data' m >>= λ (ptr, m'). ok (ptr, record m' { asleep = m'.asleep ++ ptr ∷ [] })

  -- One of the threads wakes up.
  unfoldable pub delayed_send : ℕ → PingBlockManager S Endpoint → PingBlockManager S Endpoint
  unfolding take_out register
  delayed_send i m = elim (take_out i m.asleep) [
    | none ↦ m
    | some (to_send, asleep) ↦ register to_send (record m { asleep = asleep })
  ]

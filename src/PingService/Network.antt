-- ===== src/PingService/Network.antt =====
-- The manager of lib/src/block/block_manager/ping/ping_block_manager.cc with the requests that are in
-- flight: what happens to it is a call, the return of one of the requests, in any order, or a thread
-- of duplicate_ping_block_manager.cc that wakes up. No request is lost on the way.
pub mod View
pub mod Tidy
pub mod Carried
pub mod Arrive
pub mod Calls
pub mod Aloft
pub mod Track
pub mod Fetch
pub mod Round
use pingfs.Base.{
  ℕ, suc, ◌+◌, ◌<◌, ◌^◌, ◌==◌, if◌then◌else◌, List, [], ◌∷◌, ◌++◌, map, none, some, Bytes, Result,
  ok, ◌>>=◌, ◌≡◌, length, drop,
}
use mathlib.Core.List.{Memᴰ}
use pingfs.BlockData.Data.{BlockId, BlockData}
use pingfs.BlockData.Block.{Block, BlockProto}
use pingfs.BlockManager.IdSupplier.{CounterSupplier, counter_ids, counter_supplier}
use pingfs.Ping.EchoRequest.{EchoRequest}
use pingfs.PingService.Translator.{BlockPingTranslator, pass_through_translator}
use pingfs.PingService.Service.{TrackFreedService, track_freed_service}
use pingfs.PingService.Circulate.{echo}
use pingfs.PingService.Manager.{
  PingBlockManager, ping_block_manager, take_out, receive, create_block, duplicate_create_block,
  delayed_send, free_block, request_blocks,
}

pub record Network (Endpoint : Type 0) : Type 0 where
  pub manager : PingBlockManager CounterSupplier Endpoint
  pub flight : List EchoRequest

-- The blocks without those of an id.
unfoldable pub without_id : BlockId → List Block → List Block
without_id id [] = []
without_id id (b ∷ blocks) =
    if b.block_id == id then without_id id blocks else b ∷ without_id id blocks

module _ {Endpoint : Type 0} where
  -- What was sent on the way from one state of the manager to another, behind what was in flight.
  unfoldable pub launch :
      PingBlockManager CounterSupplier Endpoint
      → List EchoRequest
      → PingBlockManager CounterSupplier Endpoint
      → Network Endpoint
  launch old flight m = record {
    manager = m;
    flight =
        flight
        ++ map (λ (endpoint, request). request)
            (drop (length old.ping_block_service.sent) m.ping_block_service.sent);
  }

  module _ (translator : BlockPingTranslator) where
    -- The request at an index comes back from the host that it was sent to.
    unfoldable pub arrive : ℕ → Network Endpoint → Result (Network Endpoint)
    unfolding take_out launch
    arrive i w = elim (take_out i w.flight) [
      | none ↦ ok w
      | some (request, rest) ↦
          receive translator (echo request) w.manager >>= λ m. ok (launch w.manager rest m)
    ]

    -- What can happen, with the blocks that have been created and not freed before and after it, and
    -- the request that has come back. A block is only freed by who has it.
    pub data Step (live : List Block) (w : Network Endpoint)
        : List EchoRequest → List Block → Network Endpoint → Type 0 where
      created :
          {b : Block} {m : PingBlockManager CounterSupplier Endpoint} (data' : BlockData)
          → (w.manager).id_supplier.next_id_ + 1 < 2 ^ 64
          → create_block translator counter_ids data' w.manager ≡ ok (b, m)
          → Step live w [] (b ∷ live) (launch w.manager w.flight m)
      duplicated :
          {b : Block} {m : PingBlockManager CounterSupplier Endpoint} (data' : BlockData)
          → (w.manager).id_supplier.next_id_ + 1 < 2 ^ 64
          → duplicate_create_block translator counter_ids data' w.manager ≡ ok (b, m)
          → Step live w [] (b ∷ live) (launch w.manager w.flight m)
      woken :
          (i : ℕ)
          → Step live w [] live (launch w.manager w.flight (delayed_send translator i w.manager))
      freed :
          {b : Block}
          → Memᴰ b live
          → Step live w []
              (without_id b.block_id live)
              (record w { manager = free_block b.block_id w.manager })
      requested :
          {p : ℕ} {m : PingBlockManager CounterSupplier Endpoint} (ids : List BlockId)
          → request_blocks ids w.manager ≡ ok (p, m)
          → Step live w [] live (record w { manager = m })
      returned :
          {w' : Network Endpoint} {request : EchoRequest} {rest : List EchoRequest} (i : ℕ)
          → take_out i w.flight ≡ some (request, rest)
          → arrive i w ≡ ok w'
          → Step live w (request ∷ []) live w'

    -- The states that steps lead to, in any order.
    pub data Reaches (fs_id id_ : ℕ) (endpoint : Endpoint)
        : List Block → Network Endpoint → Type 0 where
      start : Reaches fs_id id_ endpoint [] (record {
        manager = ping_block_manager counter_supplier (track_freed_service fs_id endpoint id_).0;
        flight = [];
      })
      then :
          {live live' : List Block} {w w' : Network Endpoint} {back : List EchoRequest}
          → Reaches fs_id id_ endpoint live w
          → Step live w back live' w'
          → Reaches fs_id id_ endpoint live' w'

    -- The steps from one state on, with the requests that come back meanwhile.
    pub data Continues (live : List Block) (w : Network Endpoint)
        : List EchoRequest → List Block → Network Endpoint → Type 0 where
      stay : Continues live w [] live w
      go_on :
          {live1 live2 : List Block} {w1 w2 : Network Endpoint} {back more : List EchoRequest}
          → Continues live w back live1 w1
          → Step live1 w1 more live2 w2
          → Continues live w (back ++ more) live2 w2

-- ===== src/PingService/Network/Aloft.antt =====
-- A block of lib/src/block/block_manager/ping/ping_block_manager.cc that has been created and not
-- freed stays in flight.
use pingfs.Base.{ℕ, List, [], Bytes, ok-injective, ◌≡◌, refl, sym, ap, ◌∙◌, subst, arith}
use mathlib.Core.List.Memᴰ
use mathlib.Core.List.{Memᴰ}
use pingfs.Base.Maps.{lookup}
use pingfs.Base.Sets.{mem}
use pingfs.BlockData.Block.{Block, BlockProto}
use pingfs.BlockManager.IdSupplier.{CounterSupplier, counter_supplier}
use pingfs.BlockManager.Async.Wakeup.{IsManager}
use pingfs.Ping.EchoRequest.{EchoRequest}
use pingfs.PingService.Translator.{pass_through_translator, from_response-to_request}
use pingfs.PingService.Service.{track_freed_service}
use pingfs.PingService.Circulate.{echo}
use pingfs.PingService.Manager.{PingBlockManager, ping_block_manager}
use pingfs.PingService.Network.View.{Moves-IsManager}
use pingfs.PingService.Network.Tidy.{TidyView, start-Tidy, Moves-TidyView}
use pingfs.PingService.Network.{
  Network, Step, created, duplicated, woken, freed, requested, returned, Reaches, start, then,
}
use pingfs.PingService.Network.Carried.{carry, Carried, view_of, Followed}
use pingfs.PingService.Network.Arrive.{returned-Followed}
use pingfs.PingService.Network.Calls.{
  create_block-Followed, delayed_send-Followed, free_block-Followed,
  duplicate_create_block-Followed, request_blocks-Followed,
}

pub empty-IsManager : IsManager (record { responses = []; waiting = [] })
unfolding lookup mem
empty-IsManager = record {
  keys = _;
  promises = λ p r e. cc;
  bounded = λ id p h. absurd (ground arith);
  indexed = λ p r id e h. cc;
}

module _ {Endpoint : Type 0} (serialize : BlockProto → Bytes) (parse : Bytes → BlockProto) where
  -- The requests in flight carry blocks that are tidy with those of the manager.
  pub record Kept (live : List Block) (w : Network Endpoint) : Type 0 where
    pub carried : Carried serialize parse w
    pub tidy : TidyView live (view_of serialize parse w carried.flying)
    pub valid : IsManager (w.manager).requests

  module _ (law : (p : BlockProto) → parse (serialize p) ≡ p) where
    -- Every step is a move of the blocks.
    pub Step-Followed :
        {live live' : List Block} {w w' : Network Endpoint} {back : List EchoRequest}
        (carried : Carried serialize parse w)
        → IsManager (w.manager).requests
        → Step (pass_through_translator serialize parse) live w back live' w'
        → Followed serialize parse live w carried.flying back live' w'
    Step-Followed carried valid (created data' bound e) =
        create_block-Followed serialize parse data' carried bound e
    Step-Followed carried valid (duplicated data' bound e) =
        duplicate_create_block-Followed serialize parse data' carried bound e
    Step-Followed carried valid (woken i) = delayed_send-Followed serialize parse i carried
    Step-Followed carried valid (freed alive) = free_block-Followed serialize parse carried alive
    Step-Followed carried valid (requested ids e) =
        request_blocks-Followed serialize parse ids carried e
    Step-Followed carried valid (returned i at e) =
        returned-Followed serialize parse law i carried valid at e

    -- Whatever happens, in whatever order, and as long as ids are left: the requests in flight carry
    -- the blocks that are alive and perhaps others, none of which has the id of one that is alive.
    pub Reaches-Kept :
        {fs_id id_ : ℕ} {endpoint : Endpoint} {live : List Block} {w : Network Endpoint}
        → Reaches (pass_through_translator serialize parse) fs_id id_ endpoint live w
        → Kept live w
    unfolding track_freed_service ping_block_manager counter_supplier mem
    Reaches-Kept start = record {
      carried = record { flying = []; carries = refl };
      tidy = start-Tidy;
      valid = empty-IsManager;
    }
    Reaches-Kept (then reached step) =
        let kept = Reaches-Kept reached in
        let f = Step-Followed kept.carried kept.valid step in
        record {
          carried = f.carried;
          tidy = Moves-TidyView f.moves kept.tidy;
          valid = Moves-IsManager f.moves kept.valid;
        }

    -- Two blocks in the same request are the same.
    pub carry-injective :
        (m : PingBlockManager CounterSupplier Endpoint) (b b' : Block)
        → carry serialize parse m b ≡ carry serialize parse m b'
        → b ≡ b'
    carry-injective m b b' e =
        let read = from_response-to_request serialize parse law in
        let fs = m.ping_block_service.fs_id in
        let id = m.ping_block_service.id_ in
        ok-injective (
          sym (
            read b fs id (echo (carry serialize parse m b'))
              (ap (λ (r : EchoRequest). r.body) (sym e)))
          ∙ read b' fs id (echo (carry serialize parse m b')) refl)

    -- In every state that can be reached, each block that is alive is carried by a request in flight,
    -- and none of those carries another block under its id. The parser of the protobuf library has to
    -- read what it serialises.
    pub Reaches-Aloft :
        {fs_id id_ : ℕ} {endpoint : Endpoint} {live : List Block} {w : Network Endpoint}
        → Reaches (pass_through_translator serialize parse) fs_id id_ endpoint live w
        → (b : Block) → Memᴰ b live
        → Memᴰ (carry serialize parse w.manager b) w.flight
          × ((b' : Block)
              → Memᴰ (carry serialize parse w.manager b') w.flight
              → b'.block_id ≡ b.block_id
              → b' ≡ b)
    Reaches-Aloft {w} reached b alive =
        let kept = Reaches-Kept reached in
        (
          subst (Memᴰ (carry serialize parse w.manager b)) (sym (kept.carried).carries)
              (Memᴰ.map (carry serialize parse w.manager) (kept.tidy.aloft b alive)),
          λ b' m same.
              let (b2, there, e) =
                Memᴰ.of_map (carry serialize parse w.manager) (kept.carried).flying
                  (subst (Memᴰ (carry serialize parse w.manager b')) (kept.carried).carries m) in
              let named : b2 ≡ b' = carry-injective w.manager b2 b' e in
              sym named
              ∙ sym (
                  (kept.tidy.known_flying b2 there).same b alive
                    (sym same ∙ ap (λ (c : Block). c.block_id) (sym named))),
        )

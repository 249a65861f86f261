-- ===== src/PingService/Network/Carried.antt =====
-- The requests in flight of lib/src/block/block_manager/ping carry the blocks of their manager.
use pingfs.Base.{
  ℕ, zero, suc, List, [], ◌∷◌, ◌++◌, map, Bytes, ◌≡◌, refl, ap, inl, inr, Option-cases,
}
use mathlib.Core.Option
use pingfs.BlockData.Block.{Block, BlockProto}
use pingfs.BlockManager.IdSupplier.{CounterSupplier}
use pingfs.Ping.EchoRequest.{EchoRequest}
use pingfs.PingService.Translator.{to_request}
use pingfs.PingService.Manager.{PingBlockManager, take_out}
use pingfs.PingService.Network.View.{View, Moves}
use pingfs.PingService.Network.{Network}

module _ {A : Type 0} where
  pub take_out-map :
      {B : Type 0} (f : A → B) (i : ℕ) (xs : List A)
      → take_out i (map f xs) ≡ Option.map (λ (x, rest). (f x, map f rest)) (take_out i xs)
  unfolding take_out
  take_out-map f i [] = refl
  take_out-map f zero (x ∷ xs) = refl
  take_out-map f (suc i) (x ∷ xs) = elim (Option-cases (take_out i xs)) [
    | inl e ↦ rw (take_out-map f i xs, e)
    | inr ((y, rest), e) ↦ rw (take_out-map f i xs, e)
  ]

pub map-snoc :
    {A B : Type 0} (f : A → B) (xs : List A) (x : A) → map f (xs ++ x ∷ []) ≡ map f xs ++ f x ∷ []
map-snoc f [] x = refl
map-snoc f (y ∷ xs) x = ap (◌∷◌ (f y)) (map-snoc f xs x)

module _ {Endpoint : Type 0} (serialize : BlockProto → Bytes) (parse : Bytes → BlockProto) where
  -- The request that carries a block.
  abbrev pub carry : PingBlockManager CounterSupplier Endpoint → Block → EchoRequest
  carry m b = to_request serialize parse b m.ping_block_service.fs_id m.ping_block_service.id_

  -- The requests in flight carry blocks.
  pub record Carried (w : Network Endpoint) : Type 0 where
    pub flying : List Block
    pub carries : w.flight ≡ map (carry w.manager) flying

  abbrev pub view_of : (w : Network Endpoint) → List Block → View
  view_of w flying = record {
    next = (w.manager).id_supplier.next_id_;
    freed_ids = (w.manager).ping_block_service.freed_ids;
    asleep = (w.manager).asleep;
    requests = (w.manager).requests;
    flying = flying;
  }

  -- What a step from one state to another is to the blocks, and that the identifier and the sequence
  -- number of the service stay.
  pub record Followed (live : List Block) (w : Network Endpoint) (flying : List Block)
      (back : List EchoRequest) (live' : List Block) (w' : Network Endpoint) : Type 0 where
    pub carried : Carried w'
    pub seen : List Block
    pub moves : Moves live (view_of w flying) seen live' (view_of w' carried.flying)
    pub came : back ≡ map (carry w.manager) seen
    pub same : (b : Block) → carry w'.manager b ≡ carry w.manager b

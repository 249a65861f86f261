-- ===== src/PingService/Network/Calls.antt =====
-- Calls of lib/src/block/block_manager/ping/ping_block_manager.cc and duplicate_ping_block_manager.cc
-- keep the blocks that are alive in flight.
use pingfs.Base.{
  ℕ, ◌+◌, ◌<◌, ◌^◌, ◌%◌, ◌==◌, Bool-cases, List, [], ◌∷◌, ◌++◌, Bytes, ok, fail, Failure,
  ok-injective, bind_ok, ◌≡◌, refl, sym, ap, ◌∙◌, subst, arith, length, drop, drop-append,
  drop-length, append-nil, inl, inr, Option-cases,
}
use mathlib.Core.List.{Memᴰ}
use pingfs.BlockData.Data.{BlockId, BlockData}
use pingfs.BlockData.Block.{Block, BlockProto}
use pingfs.BlockManager.IdSupplier.{CounterSupplier, counter_ids, counter_next_id}
use pingfs.BlockManager.Async.{AsyncBlockManager}
use pingfs.BlockManager.Async.Progress.{request_blocks-ok, after_request}
use pingfs.PingService.Translator.{pass_through_translator}
use pingfs.PingService.Service
use pingfs.PingService.Service.{TrackFreedService, track_freed_service, translate}
use pingfs.PingService.Manager.{
  PingBlockManager, take_out, register, create_block, duplicate_create_block, delayed_send,
  free_block, request_blocks,
}
use pingfs.PingService.Network.View.{
  Moves, take_out-Taken, creates, duplicates, wakes, idles, frees, asks,
}
use pingfs.PingService.Network.{Network, without_id, launch}
use pingfs.PingService.Network.Carried.{map-snoc, carry, Carried, Followed, view_of}

module _ {Endpoint : Type 0} (serialize : BlockProto → Bytes) (parse : Bytes → BlockProto) where
  -- The state with its parts outside the service exchanged.
  abbrev with_parts :
      CounterSupplier
      → AsyncBlockManager
      → List Block
      → PingBlockManager CounterSupplier Endpoint
      → PingBlockManager CounterSupplier Endpoint
  with_parts id_supplier requests asleep m = record {
    id_supplier = id_supplier;
    requests = requests;
    ping_block_service = m.ping_block_service;
    asleep = asleep;
  }

  -- A block is sent from a state with other parts, which is some move of the blocks.
  launched-Followed :
      {live live' : List Block} {w : Network Endpoint} (carried : Carried serialize parse w)
      (b : Block) {id_supplier : CounterSupplier} {requests : AsyncBlockManager}
      {asleep : List Block}
      → Moves live (view_of serialize parse w carried.flying) [] live' (record {
        next = id_supplier.next_id_;
        freed_ids = (w.manager).ping_block_service.freed_ids;
        asleep = asleep;
        requests = requests;
        flying = carried.flying ++ b ∷ [];
      })
      → Followed serialize parse live w carried.flying [] live' (
          launch w.manager w.flight (
            register
              (pass_through_translator serialize parse)
              b
              (with_parts id_supplier requests asleep w.manager)))
  unfolding launch register Service.register_block Service.send_to_endpt Service.ping translate
  launched-Followed {w} carried b moves =
      let m = w.manager in
      let new : drop (length m.ping_block_service.sent) (
            m.ping_block_service.sent
            ++ (m.ping_block_service.endpoint, carry serialize parse m b) ∷ [])
          ≡ (m.ping_block_service.endpoint, carry serialize parse m b) ∷ [] =
        drop-append m.ping_block_service.sent
          ((m.ping_block_service.endpoint, carry serialize parse m b) ∷ []) in
      record {
        carried = record {
          flying = carried.flying ++ b ∷ [];
          carries =
              rw (new, carried.carries) (sym (map-snoc (carry serialize parse m) carried.flying b));
        };
        seen = [];
        moves = moves;
        came = refl;
        same = λ c. refl;
      }

  record Created (b : Block) (m m' : PingBlockManager CounterSupplier Endpoint) : Type 0 where
    named : b.block_id ≡ m.id_supplier.next_id_
    made :
        m'
        ≡ register
            (pass_through_translator serialize parse)
            b
            (record m { id_supplier = record { next_id_ = m.id_supplier.next_id_ + 1 } })

  create_block-Created :
      (data' : BlockData) (b : Block) (m m' : PingBlockManager CounterSupplier Endpoint)
      → m.id_supplier.next_id_ + 1 < 2 ^ 64
      → create_block (pass_through_translator serialize parse) counter_ids data' m ≡ ok (b, m')
      → Created b m m'
  unfolding create_block counter_next_id
  create_block-Created data' b m m' bound e = elim (Bool-cases (m.id_supplier.next_id_ == 0)) [
    | inl h ↦
        let run : create_block (pass_through_translator serialize parse) counter_ids data' m
            ≡ fail Failure.thrown =
          rw h in
        absurd (cc (run, e))
    | inr h ↦
        let next = m.id_supplier.next_id_ in
        let new : Block = record { block_id = next; data_ = data' } in
        let sup : PingBlockManager CounterSupplier Endpoint = record m {
          id_supplier = record { next_id_ = next + 1 };
        } in
        let small : (next + 1) % 2 ^ 64 ≡ next + 1 = omega arith in
        let run : create_block (pass_through_translator serialize parse) counter_ids data' m
            ≡ ok (new, register (pass_through_translator serialize parse) new sup) =
          rw (h, small) in
        let same : ◌≡◌ {A = Block × PingBlockManager CounterSupplier Endpoint}
            (new, register (pass_through_translator serialize parse) new sup) (b, m') =
          ok-injective (sym run ∙ e) in
        record {
          named = ap (λ r. (r.0).block_id) (sym same);
          made =
              ap (λ r. r.1) (sym same)
              ∙ ap (λ c. register (pass_through_translator serialize parse) c sup)
                  (ap (λ r. r.0) same);
        }
  ]

  pub create_block-Followed :
      {live : List Block} {w : Network Endpoint} {b : Block}
      {m' : PingBlockManager CounterSupplier Endpoint} (data' : BlockData)
      (carried : Carried serialize parse w)
      → (w.manager).id_supplier.next_id_ + 1 < 2 ^ 64
      → create_block (pass_through_translator serialize parse) counter_ids data' w.manager
        ≡ ok (b, m')
      → Followed serialize parse live w carried.flying [] (b ∷ live) (launch w.manager w.flight m')
  create_block-Followed {live} {w} {b} {m'} data' carried bound e =
      let new = create_block-Created data' b w.manager m' bound e in
      subst
        (λ m.
          Followed serialize parse live w carried.flying [] (b ∷ live)
            (launch w.manager w.flight m))
        (sym new.made) (launched-Followed carried b (creates b new.named))

  pub delayed_send-Followed :
      {live : List Block} {w : Network Endpoint} (i : ℕ) (carried : Carried serialize parse w)
      → Followed serialize parse live w carried.flying [] live (
          launch w.manager w.flight
            (delayed_send (pass_through_translator serialize parse) i w.manager))
  unfolding delayed_send launch
  delayed_send-Followed {live} {w} i carried = elim (Option-cases (take_out i (w.manager).asleep)) [
    | inl h ↦
        let same : launch w.manager w.flight
              (delayed_send (pass_through_translator serialize parse) i w.manager)
            ≡ w =
          rw (h, delayed_send, drop-length (w.manager).ping_block_service.sent, append-nil) in
        subst (Followed serialize parse live w carried.flying [] live) (sym same)
          (record { carried = carried; seen = []; moves = idles; came = refl; same = λ c. refl })
    | inr ((b, rest), h) ↦
        let t = take_out-Taken i (w.manager).asleep h in
        let woken : delayed_send (pass_through_translator serialize parse) i w.manager
            ≡ register (pass_through_translator serialize parse) b
                (with_parts (w.manager).id_supplier (w.manager).requests rest w.manager) =
          rw (h, delayed_send) in
        subst
          (λ m.
            Followed serialize parse live w carried.flying [] live (launch w.manager w.flight m))
          (sym woken) (launched-Followed carried b (wakes b rest t))
  ]

  pub free_block-Followed :
      {live : List Block} {w : Network Endpoint} {b : Block} (carried : Carried serialize parse w)
      → Memᴰ b live
      → Followed serialize parse live w carried.flying []
          (without_id b.block_id live)
          (record w { manager = free_block b.block_id w.manager })
  unfolding free_block Service.free_block
  free_block-Followed {b} carried alive = record {
    carried = record { flying = carried.flying; carries = carried.carries };
    seen = [];
    moves = frees b alive;
    came = refl;
    same = λ c. refl;
  }

  pub duplicate_create_block-Followed :
      {live : List Block} {w : Network Endpoint} {b : Block}
      {m' : PingBlockManager CounterSupplier Endpoint} (data' : BlockData)
      (carried : Carried serialize parse w)
      → (w.manager).id_supplier.next_id_ + 1 < 2 ^ 64
      → duplicate_create_block (pass_through_translator serialize parse) counter_ids data' w.manager
        ≡ ok (b, m')
      → Followed serialize parse live w carried.flying [] (b ∷ live) (launch w.manager w.flight m')
  unfolding duplicate_create_block register
  duplicate_create_block-Followed {live} {w} {b} {m'} data' carried bound e =
      let (r, first, second) =
        bind_ok (create_block (pass_through_translator serialize parse) counter_ids data' w.manager)
          _ e in
      let new = create_block-Created data' r.0 w.manager r.1 bound first in
      let next : CounterSupplier = record { next_id_ = (w.manager).id_supplier.next_id_ + 1 } in
      let slept =
        launched-Followed {live = live} carried r.0 {id_supplier = next}
          (duplicates r.0 new.named) in
      let same : ◌≡◌ {A = Block × PingBlockManager CounterSupplier Endpoint}
          (r.0, record r.1 { asleep = r.1.asleep ++ r.0 ∷ [] }) (b, m') =
        ok-injective second in
      let made : (record r.1 { asleep = r.1.asleep ++ r.0 ∷ [] })
          ≡ register (pass_through_translator serialize parse) r.0
              (with_parts next (w.manager).requests ((w.manager).asleep ++ r.0 ∷ []) w.manager) =
        ap
          (λ (c : PingBlockManager CounterSupplier Endpoint). record c {
            asleep = c.asleep ++ r.0 ∷ [];
          })
          new.made in
      subst
        (λ (q : Block × PingBlockManager CounterSupplier Endpoint).
          Followed serialize parse live w carried.flying [] (q.0 ∷ live)
            (launch w.manager w.flight q.1))
        same
        (subst
          (λ c.
            Followed serialize parse live w carried.flying [] (r.0 ∷ live)
              (launch w.manager w.flight c))
          (sym made) slept)

  pub request_blocks-Followed :
      {live : List Block} {w : Network Endpoint} {p : ℕ}
      {m' : PingBlockManager CounterSupplier Endpoint} (ids : List BlockId)
      (carried : Carried serialize parse w)
      → request_blocks ids w.manager ≡ ok (p, m')
      → Followed serialize parse live w carried.flying [] live (record w { manager = m' })
  unfolding request_blocks
  request_blocks-Followed {live} {w} {p} {m'} ids carried e =
      let same : ◌≡◌ {A = ℕ × PingBlockManager CounterSupplier Endpoint}
          (
            length (w.manager).requests.responses,
            record w.manager { requests = after_request ids (w.manager).requests },
          )
          (p, m') =
        ok-injective (sym (rw (request_blocks-ok ids (w.manager).requests)) ∙ e) in
      subst
        (λ (r : ℕ × PingBlockManager CounterSupplier Endpoint).
          Followed serialize parse live w carried.flying [] live (record w { manager = r.1 }))
        same
        (record {
          carried = record { flying = carried.flying; carries = carried.carries };
          seen = [];
          moves = asks ids;
          came = refl;
          same = λ c. refl;
        })

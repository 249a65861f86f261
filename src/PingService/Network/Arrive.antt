-- ===== src/PingService/Network/Arrive.antt =====
-- A request of lib/src/block/block_manager/ping comes back: its block is published, and sent again or
-- dropped.
use pingfs.Base.{
  Option-cases, ok-injective, subst, ℕ, if◌then◌else◌, Bool-cases, List, [], ◌∷◌, ◌++◌, map, some,
  Bytes, Result, ok, ◌≡◌, refl, sym, ap, ◌∙◌, drop-append, drop-length, append-nil, inl, inr,
}
use mathlib.Core.Option
use pingfs.Base.Sets.{mem, remove}
use pingfs.BlockData.Block.{Block, BlockProto}
use pingfs.BlockManager.IdSupplier.{CounterSupplier}
use pingfs.BlockManager.Async.Wakeup.{IsManager, process-map}
use pingfs.BlockManager.Async.Progress.{processes, after_process}
use pingfs.Ping.EchoRequest.{EchoRequest}
use pingfs.PingService.Translator.{pass_through_translator}
use pingfs.PingService.Service.{TrackFreedService, translate}
use pingfs.PingService.Circulate.{echo, process-echo}
use pingfs.PingService.Manager.{PingBlockManager, take_out, receive}
use pingfs.PingService.Network.View.{take_out-Taken, lands, returns}
use pingfs.PingService.Network.{Network, launch, arrive}
use pingfs.PingService.Network.Carried.{Carried, Followed, take_out-map, map-snoc, carry}

module _ {Endpoint : Type 0} (serialize : BlockProto → Bytes) (parse : Bytes → BlockProto)
    (law : (p : BlockProto) → parse (serialize p) ≡ p) where
  -- What the return of a block does to the manager.
  abbrev pub returned_service : Block → TrackFreedService Endpoint → TrackFreedService Endpoint
  returned_service b s =
      if mem b.block_id s.freed_ids
      then record s { freed_ids = remove b.block_id s.freed_ids; published = s.published ++ b ∷ [] }
      else record s {
        sent = s.sent ++ (s.endpoint, translate (pass_through_translator serialize parse) b s) ∷ [];
        published = s.published ++ b ∷ [];
      }

  receive-echo :
      (b : Block) (m : PingBlockManager CounterSupplier Endpoint)
      → IsManager m.requests
      → receive (pass_through_translator serialize parse) (echo (carry serialize parse m b)) m
        ≡ ok (record m {
          requests = after_process b m.requests;
          ping_block_service = returned_service b m.ping_block_service;
        })
  unfolding receive processes translate
  receive-echo b m valid = elim (Bool-cases (mem b.block_id m.ping_block_service.freed_ids)) [
    | inl h ↦ rw (
      process-echo serialize parse law b m.ping_block_service,
      h,
      drop-append m.ping_block_service.published (b ∷ []),
      process-map b m.requests valid,
    )
    | inr h ↦ rw (
      process-echo serialize parse law b m.ping_block_service,
      h,
      drop-append m.ping_block_service.published (b ∷ []),
      process-map b m.requests valid,
    )
  ]

  -- What the return of a request in flight leads to.
  pub record Arrived (live : List Block) (w : Network Endpoint) (flying : List Block)
      (call : Result (Network Endpoint)) (b : Block) (rest : List Block) : Type 0 where
    pub w' : Network Endpoint
    pub done : call ≡ ok w'
    pub followed :
        Followed serialize parse live w flying (carry serialize parse w.manager b ∷ []) live w'
    pub requests : (w'.manager).requests ≡ after_process b (w.manager).requests
    pub again : List Block
    pub flown : (followed.carried).flying ≡ rest ++ again

  pub arrive-Arrived :
      (i : ℕ) {live : List Block} {w : Network Endpoint} (carried : Carried serialize parse w)
      {b : Block} {rest : List Block}
      → IsManager (w.manager).requests
      → take_out i carried.flying ≡ some (b, rest)
      → Arrived live w carried.flying (arrive (pass_through_translator serialize parse) i w) b rest
  unfolding arrive launch translate
  arrive-Arrived i {live} {w} carried {b} {rest} valid at =
      let m = w.manager in
      let taken = take_out-Taken i carried.flying at in
      let out : take_out i w.flight
          ≡ some (carry serialize parse m b, map (carry serialize parse m) rest) =
        ap (take_out i) carried.carries
        ∙ take_out-map (carry serialize parse m) i carried.flying
        ∙ rw at in
      let back = receive-echo b m valid in
      elim (Bool-cases (mem b.block_id m.ping_block_service.freed_ids)) [
        | inl h ↦ record {
          w' = record {
            manager = record m {
              requests = after_process b m.requests;
              ping_block_service = record m.ping_block_service {
                freed_ids = remove b.block_id m.ping_block_service.freed_ids;
                published = m.ping_block_service.published ++ b ∷ [];
              };
            };
            flight = map (carry serialize parse m) rest;
          };
          done = rw (out, arrive, back, h, drop-length m.ping_block_service.sent, append-nil);
          followed = record {
            carried = record { flying = rest; carries = refl };
            seen = b ∷ [];
            moves = lands b rest taken h;
            came = refl;
            same = λ c. refl;
          };
          requests = refl;
          again = [];
          flown = sym (append-nil rest);
        }
        | inr h ↦ record {
          w' = record {
            manager = record m {
              requests = after_process b m.requests;
              ping_block_service = record m.ping_block_service {
                sent =
                    m.ping_block_service.sent
                    ++ (m.ping_block_service.endpoint, carry serialize parse m b) ∷ [];
                published = m.ping_block_service.published ++ b ∷ [];
              };
            };
            flight = map (carry serialize parse m) rest ++ carry serialize parse m b ∷ [];
          };
          done = rw (
            out,
            arrive,
            back,
            h,
            drop-append m.ping_block_service.sent
                ((m.ping_block_service.endpoint, carry serialize parse m b) ∷ []),
          );
          followed = record {
            carried = record {
              flying = rest ++ b ∷ [];
              carries = sym (map-snoc (carry serialize parse m) rest b);
            };
            seen = b ∷ [];
            moves = returns b rest taken;
            came = refl;
            same = λ c. refl;
          };
          requests = refl;
          again = b ∷ [];
          flown = refl;
        }
      ]

  -- A request in flight that comes back is taken up without a failure.
  pub returned-Followed :
      (i : ℕ) {live : List Block} {w w' : Network Endpoint} {request : EchoRequest}
      {rest : List EchoRequest} (carried : Carried serialize parse w)
      → IsManager (w.manager).requests
      → take_out i w.flight ≡ some (request, rest)
      → arrive (pass_through_translator serialize parse) i w ≡ ok w'
      → Followed serialize parse live w carried.flying (request ∷ []) live w'
  returned-Followed i {live} {w} {w'} {request} {rest} carried valid at e =
      let read : take_out i w.flight
          ≡ Option.map
              (λ (x, xs).
                (carry serialize parse w.manager x, map (carry serialize parse w.manager) xs))
              (take_out i carried.flying) =
        ap (take_out i) carried.carries
        ∙ take_out-map (carry serialize parse w.manager) i carried.flying in
      elim (Option-cases (take_out i carried.flying)) [
        | inl h ↦ absurd (cc (sym at ∙ read ∙ ap (Option.map _) h))
        | inr ((b, bs), h) ↦
            let a = arrive-Arrived i {live = live} carried valid h in
            let same : a.w' ≡ w' = ok-injective (sym a.done ∙ e) in
            let shown : some (request, rest)
                ≡ some
                    (carry serialize parse w.manager b, map (carry serialize parse w.manager) bs) =
              sym at ∙ read ∙ rw h in
            let which : carry serialize parse w.manager b ≡ request = cc shown in
            subst (λ r. Followed serialize parse live w carried.flying (r ∷ []) live w') which
              (subst
                (Followed serialize parse live w carried.flying
                  (carry serialize parse w.manager b ∷ []) live)
                same a.followed)
      ]

-- ===== src/PingService/Network/Round.antt =====
-- One round of the requests in flight of lib/src/block/block_manager/ping, in the order in which they
-- were sent, after a `get_blocks`.
use pingfs.Base.{
  ℕ, zero, suc, List, [], ◌∷◌, ◌++◌, map, Option, some, Bytes, Result, ok, ◌>>=◌, ◌≡◌, refl, sym,
  ap, ◌∙◌, subst, length, length-map, append_assoc, append-nil, inl, inr,
}
use mathlib.Core.List.Memᴰ
use mathlib.Core.List.{Memᴰ}
use pingfs.BlockData.Data.{BlockId}
use pingfs.BlockData.Block.{Block, BlockProto}
use pingfs.BlockManager.Async.{future}
use pingfs.BlockManager.Async.Wakeup.{IsManager}
use pingfs.BlockManager.Async.Progress.{request_blocks-ok, request-IsManager, after_request}
use pingfs.Ping.EchoRequest.{EchoRequest}
use pingfs.PingService.Translator.{pass_through_translator}
use pingfs.PingService.Manager.{request_blocks, take_out}
use pingfs.PingService.Network.{Network, arrive, returned, Reaches, Continues, stay, go_on}
use pingfs.PingService.Network.View.{Moves-IsManager}
use pingfs.PingService.Network.Carried.{carry, Carried}
use pingfs.PingService.Network.Arrive.{arrive-Arrived}
use pingfs.PingService.Network.Aloft.{Reaches-Kept}
use pingfs.PingService.Network.Fetch.{Answers, AllAlive, Reaches-fetch}

module _ {Endpoint : Type 0} (serialize : BlockProto → Bytes) (parse : Bytes → BlockProto) where
  -- The first request in flight returns, as often as the number says.
  unfoldable pub circulate : ℕ → Network Endpoint → Result (Network Endpoint)
  circulate zero w = ok w
  circulate (suc n) w =
      arrive (pass_through_translator serialize parse) 0 w >>= λ w'. circulate n w'

  -- `get_blocks`, and a number of returns: what the future then holds.
  unfoldable pub fetch : List BlockId → ℕ → Network Endpoint → Result (Option (List Block))
  unfolding circulate
  fetch ids n w = request_blocks ids w.manager >>= λ (p, m).
      circulate n (record w { manager = m }) >>= λ w'. ok (future p (w'.manager).requests)

  module _ (law : (p : BlockProto) → parse (serialize p) ≡ p) where
    record Round (live : List Block) (w0 : Network Endpoint) (back : List EchoRequest)
        (w : Network Endpoint) (bs : List Block) : Type 0 where
      w' : Network Endpoint
      done : circulate (length bs) w ≡ ok w'
      back' : List EchoRequest
      steps : Continues (pass_through_translator serialize parse) live w0 back' live w'
      all_back : (b : Block) → Memᴰ b bs → Memᴰ (carry serialize parse w.manager b) back'
      kept_back : (r : EchoRequest) → Memᴰ r back → Memᴰ r back'

    round :
        (bs more : List Block) {live : List Block} {w0 : Network Endpoint} {back : List EchoRequest}
        {w : Network Endpoint} (carried : Carried serialize parse w)
        → IsManager (w.manager).requests
        → Continues (pass_through_translator serialize parse) live w0 back live w
        → carried.flying ≡ bs ++ more
        → Round live w0 back w bs
    unfolding circulate take_out
    round [] more {back} {w} carried valid before e = record {
      w' = w;
      done = refl;
      back' = back;
      steps = before;
      all_back = λ b m. absurd (Memᴰ.not-nil m);
      kept_back = λ r m. m;
    }
    round (b ∷ bs) more {live} {back} {w} carried valid before e =
        let first : take_out 0 carried.flying ≡ some (b, bs ++ more) = rw (e, take_out) in
        let a = arrive-Arrived serialize parse law 0 {live = live} carried valid first in
        let f = a.followed in
        let out : take_out 0 w.flight
            ≡ some (
              carry serialize parse w.manager b,
              map (carry serialize parse w.manager) (bs ++ more),
            ) =
          rw ((carried.carries), e) in
        let next =
          round bs (more ++ a.again) f.carried (Moves-IsManager f.moves valid)
            (go_on before (returned 0 out a.done)) (a.flown ∙ append_assoc bs more a.again) in
        record {
          w' = next.w';
          done = rw (a.done, next.done);
          back' = next.back';
          steps = next.steps;
          all_back = λ c m. elim (Memᴰ.cases_cons m) [
            | inl h ↦
                next.kept_back _
                  (Memᴰ.append_right back (Memᴰ.head (ap (carry serialize parse w.manager) h)))
            | inr r ↦ subst (λ q. Memᴰ q next.back') (f.same c) (next.all_back c r)
          ];
          kept_back = λ r m. next.kept_back r (Memᴰ.append_left _ m);
        }

    -- A request for blocks that are alive, in any state that can be reached, followed by one return of
    -- each request in flight in the order in which they were sent, runs to its end without a failure,
    -- and is answered then. The parser of the protobuf library has to read what it serialises.
    pub Reaches-round :
        {fs_id id_ : ℕ} {endpoint : Endpoint} {live : List Block} {w : Network Endpoint}
        (ids : List BlockId)
        → Reaches (pass_through_translator serialize parse) fs_id id_ endpoint live w
        → AllAlive ids live
        → (held : Option (List Block)) × (fetch ids (length w.flight) w ≡ ok held)
          × Answers ids live held
    unfolding fetch request_blocks
    Reaches-round {live} {w} ids reached all =
        let kept = Reaches-Kept serialize parse law reached in
        let requests = (w.manager).requests in
        let asked : Network Endpoint = record w {
          manager = record w.manager { requests = after_request ids requests };
        } in
        let carried : Carried serialize parse asked = record {
          flying = (kept.carried).flying;
          carries = (kept.carried).carries;
        } in
        let r =
          round (kept.carried).flying [] {live = live} carried
            (request-IsManager ids requests kept.valid) stay
            (sym (append-nil (kept.carried).flying)) in
        let many : length w.flight ≡ length (kept.carried).flying =
          ap length (kept.carried).carries ∙ length-map _ (kept.carried).flying in
        (
          future (length requests.responses) ((r.w').manager).requests,
          rw (request_blocks-ok ids requests, many, r.done),
          Reaches-fetch serialize parse law ids reached all (rw (request_blocks-ok ids requests))
              r.steps
              λ q m.
                let (c, there, same) =
                  Memᴰ.of_map (carry serialize parse w.manager) (kept.carried).flying
                    (subst (Memᴰ q) (kept.carried).carries m) in
                subst (λ x. Memᴰ x r.back') same (r.all_back c there),
        )

-- ===== src/PingService/Circulate.antt =====
-- A block keeps going round until it is freed (lib/src/block/block_manager/ping).
use pingfs.Base.{
  if◌then◌else◌, true, false, [], ◌∷◌, ◌++◌, ok, ◌>>=◌, ◌≡◌, ◌≢◌, Bytes, refl, arith, ◌⊎◌, ==-self,
  Bool-cases, inl, inr, ◌∙◌,
}
use pingfs.Base.Sets.{mem, add, remove, mem-add, mem-remove}
use pingfs.BlockData.Block.{Block, BlockProto}
use pingfs.Ping.EchoResponse.{EchoResponse}
use pingfs.Ping.EchoRequest.{EchoRequest, echo_request, of_response}
use pingfs.PingService.Translator.{to_request, pass_through_translator, from_response-to_request}
use pingfs.PingService.Service.{TrackFreedService, translate, process, free_block}

-- What a host answers to a request: its identifier, its sequence number and its data.
abbrev pub echo : EchoRequest → EchoResponse
echo request = record {
  identifier = request.identifier;
  sequence_number = request.sequence_number;
  data_ = request.body;
}

module _ {Endpoint : Type 0} (serialize : BlockProto → Bytes) (parse : Bytes → BlockProto) where
  -- A response to a block of one service is ignored by every service with another identifier or
  -- another sequence number.
  pub process-other :
      (b : Block) (s t : TrackFreedService Endpoint)
      → (s.fs_id ≢ t.fs_id) ⊎ (s.id_ ≢ t.id_)
      → process
          (pass_through_translator serialize parse)
          (echo (translate (pass_through_translator serialize parse) b s))
          t
        ≡ ok t
  unfolding process translate to_request echo_request
  process-other b s t h = ground arith

  module _ (law : (p : BlockProto) → parse (serialize p) ≡ p) where
    -- A block that comes back is published. If it has been freed, its id is taken off the freed ids
    -- and nothing is sent; if not, the same request is sent again, unchanged.
    pub process-echo :
        (b : Block) (s : TrackFreedService Endpoint)
        → process
            (pass_through_translator serialize parse)
            (echo (translate (pass_through_translator serialize parse) b s))
            s
          ≡ ok (
              if mem b.block_id s.freed_ids
              then record s {
                freed_ids = remove b.block_id s.freed_ids;
                published = s.published ++ b ∷ [];
              }
              else record s {
                sent =
                    s.sent
                    ++ (s.endpoint, translate (pass_through_translator serialize parse) b s) ∷ [];
                published = s.published ++ b ∷ [];
              })
    unfolding process translate to_request echo_request of_response
    process-echo b s =
        let back = echo (translate (pass_through_translator serialize parse) b s) in
        rw
          (
            ==-self s.fs_id,
            ==-self s.id_,
            from_response-to_request serialize parse law b s.fs_id s.id_ back refl,
          )
          (elim (Bool-cases (mem b.block_id s.freed_ids)) [ inl h ↦ rw h | inr h ↦ rw h ])

    -- Two copies of a block that is freed come back: the first ends its round, and the second is
    -- sent again, since the first has used up the freed id. `DuplicatePingBlockManager` sends every
    -- block twice.
    pub process-process_freed :
        (b : Block) (s : TrackFreedService Endpoint)
        → (process
              (pass_through_translator serialize parse)
              (echo (translate (pass_through_translator serialize parse) b s))
              (free_block b.block_id s)
            >>= process
                (pass_through_translator serialize parse)
                (echo (translate (pass_through_translator serialize parse) b s)))
          ≡ ok (record s {
            freed_ids = remove b.block_id (add b.block_id s.freed_ids);
            sent =
                s.sent
                ++ (s.endpoint, translate (pass_through_translator serialize parse) b s) ∷ [];
            published = (s.published ++ b ∷ []) ++ b ∷ [];
          })
    unfolding translate free_block
    process-process_freed b s =
        let in_set : mem b.block_id (add b.block_id s.freed_ids) ≡ true =
          ground (arith, mem-add b.block_id b.block_id s.freed_ids) in
        let out : mem b.block_id (remove b.block_id (add b.block_id s.freed_ids)) ≡ false =
          ground (arith, mem-remove b.block_id b.block_id (add b.block_id s.freed_ids)) in
        let first = process-echo b (record s { freed_ids = add b.block_id s.freed_ids }) in
        let second = process-echo b (record s {
          freed_ids = remove b.block_id (add b.block_id s.freed_ids);
          published = s.published ++ b ∷ [];
        }) in
        rw (first, in_set) (second ∙ rw out)

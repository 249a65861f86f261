-- ===== src/PingService/Service.antt =====
-- lib/src/block/block_manager/ping/ping_block_service.cc, track_freed_service.cc and
-- distributed_freed_service.cc: blocks are sent out and sent again whenever they come back. What is
-- sent and published is kept in the order in which it happens. Endpoints and addresses are those of
-- boost::asio, and are parameters.
use pingfs.Base.{
  ℕ, ◌+◌, ◌%◌, ◌^◌, ◌==◌, if◌then◌else◌, Bool, true, false, not, List, [], ◌∷◌, ◌++◌, Result, ok,
  ◌>>=◌,
}
use pingfs.Base.Sets.{mem, add, remove}
use pingfs.BlockData.Data.{BlockId}
use pingfs.BlockData.Block.{Block}
use pingfs.Ping.EchoResponse.{EchoResponse}
use pingfs.Ping.EchoRequest.{EchoRequest, of_response}
use pingfs.PingService.Translator.{BlockPingTranslator}

module _ (Endpoint : Type 0) where
  pub record TrackFreedService : Type 0 where
    pub fs_id : ℕ
    pub id_ : ℕ
    pub endpoint : Endpoint
    pub freed_ids : List BlockId
    pub sent : List (Endpoint × EchoRequest)
    pub published : List Block

module _ {Endpoint : Type 0} where
  -- The constructor, which takes the next number of the static `id_generator_`.
  unfoldable pub track_freed_service : ℕ → Endpoint → ℕ → TrackFreedService Endpoint × ℕ
  track_freed_service fs_id endpoint id_generator = (
    record {
      fs_id = fs_id;
      id_ = id_generator;
      endpoint = endpoint;
      freed_ids = [];
      sent = [];
      published = [];
    },
    (id_generator + 1) % 2 ^ 16,
  )

  -- `Ping::ping` of a request.
  unfoldable pub ping :
      EchoRequest → Endpoint → TrackFreedService Endpoint → TrackFreedService Endpoint
  ping request endpoint s = record s { sent = s.sent ++ (endpoint, request) ∷ [] }

  -- The endpoint that is passed in is not looked at.
  unfoldable pub send_to_endpt :
      Endpoint → EchoRequest → TrackFreedService Endpoint → TrackFreedService Endpoint
  unfolding ping
  send_to_endpt endpt request s = ping request s.endpoint s

  -- `Publisher::notify` to the subscribers.
  unfoldable pub notify : Block → TrackFreedService Endpoint → TrackFreedService Endpoint
  notify block s = record s { published = s.published ++ block ∷ [] }

  unfoldable pub free_block : BlockId → TrackFreedService Endpoint → TrackFreedService Endpoint
  free_block block_id s = record s { freed_ids = add block_id s.freed_ids }

  -- A freed id is forgotten when its block comes by.
  unfoldable pub should_recycle :
      BlockId → TrackFreedService Endpoint → Bool × TrackFreedService Endpoint
  should_recycle block_id s =
      if not (mem block_id s.freed_ids)
      then (true, s)
      else (false, record s { freed_ids = remove block_id s.freed_ids })

module _ {Endpoint : Type 0} (translator : BlockPingTranslator) where
  unfoldable pub translate : Block → TrackFreedService Endpoint → EchoRequest
  translate block s = translator.to_request block s.fs_id s.id_

  unfoldable pub register_block : Block → TrackFreedService Endpoint → TrackFreedService Endpoint
  unfolding translate send_to_endpt
  register_block block s = send_to_endpt s.endpoint (translate block s) s

  -- `PingBlockService::process`.
  unfoldable pub process :
      EchoResponse → TrackFreedService Endpoint → Result (TrackFreedService Endpoint)
  unfolding notify should_recycle ping
  process resp s =
      if not (resp.identifier == s.fs_id)
      then ok s
      else if not (resp.sequence_number == s.id_)
      then ok s
      else (translator.from_response resp >>= λ block.
          let (recycle, s') = should_recycle block.block_id (notify block s) in
          ok (if recycle then ping (of_response resp) s'.endpoint s' else s'))

-- A node that mirrors what it registers to others, through packets with a spoofed source.
module _ (Endpoint Address : Type 0) where
  pub record DistributedFreedService : Type 0 where
    pub track : TrackFreedService Endpoint
    pub other_nodes : List (Address × Address)
    pub spoofed : List (EchoRequest × Address × Address)

-- `spoofer_->send` for each of the other nodes.
unfoldable pub send_each :
    {Address : Type 0}
    → EchoRequest
    → List (Address × Address)
    → List (EchoRequest × Address × Address)
    → List (EchoRequest × Address × Address)
send_each request [] spoofed = spoofed
send_each request ((spoofed_src, bounce_target) ∷ nodes) spoofed =
    send_each request nodes (spoofed ++ (request, spoofed_src, bounce_target) ∷ [])

module _ {Endpoint Address : Type 0} (translator : BlockPingTranslator) where
  unfoldable pub send_to_additional_endpts :
      Block → DistributedFreedService Endpoint Address → DistributedFreedService Endpoint Address
  unfolding send_each
  send_to_additional_endpts block s = record s {
    spoofed = send_each (translate translator block s.track) s.other_nodes s.spoofed;
  }

  unfoldable pub distributed_register_block :
      Block → DistributedFreedService Endpoint Address → DistributedFreedService Endpoint Address
  unfolding send_to_additional_endpts
  distributed_register_block block s =
      send_to_additional_endpts block (record s { track = register_block translator block s.track })

  unfoldable pub register_root :
      Block → DistributedFreedService Endpoint Address → DistributedFreedService Endpoint Address
  unfolding send_to_additional_endpts
  register_root root_block s = send_to_additional_endpts root_block s

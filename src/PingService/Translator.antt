-- ===== src/PingService/Translator.antt =====
-- lib/src/block/block_manager/ping/pass_through_translator.cc: a block as the body of an echo
-- request. The protobuf library is a parameter: `serialize` is `SerializeToString`, and `parse` is
-- the message that `ParseFromString` leaves, whose result the code does not look at.
use pingfs.Base.{ℕ, Bytes, Result, ok, ◌≡◌}
use pingfs.BlockData.Block
use pingfs.BlockData.Block.{Block, BlockProto, empty_block_proto}
use pingfs.BlockData.Block.Laws
use pingfs.Ping.EchoResponse.{EchoResponse}
use pingfs.Ping.EchoRequest.{EchoRequest, echo_request}

pub record BlockPingTranslator : Type 0 where
  pub from_response : EchoResponse → Result Block
  pub to_request : Block → ℕ → ℕ → EchoRequest

-- What the code relies on: a request's body is translated back to its block.
abbrev pub Translates : BlockPingTranslator → Type 0
Translates t =
    (b : Block) (identifier sequence_number : ℕ) (resp : EchoResponse)
    → resp.data_ ≡ (t.to_request b identifier sequence_number).body
    → t.from_response resp ≡ ok b

module _ (serialize : BlockProto → Bytes) (parse : Bytes → BlockProto) where
  unfoldable pub from_response : EchoResponse → Result Block
  from_response response = Block.of_proto (parse response.data_)

  unfoldable pub to_request : Block → ℕ → ℕ → EchoRequest
  to_request block identifier sequence_number =
      echo_request identifier sequence_number (serialize (Block.gen_proto block empty_block_proto))

  abbrev pub pass_through_translator : BlockPingTranslator
  pass_through_translator = record { from_response = from_response; to_request = to_request }

  -- If the library parses what it has serialised, the translator reads back every block from any
  -- response that carries the body of its request.
  pub from_response-to_request :
      ((p : BlockProto) → parse (serialize p) ≡ p) → Translates pass_through_translator
  unfolding from_response to_request echo_request
  from_response-to_request law b identifier sequence_number resp e =
      rw (e, law (Block.gen_proto b empty_block_proto)) (Laws.of_proto-gen_proto b)

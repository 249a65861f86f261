-- ===== src/BlockData/Block.antt =====
-- lib/src/block/block.cc: a block is an id and its data.
pub mod Laws
use pingfs.Base.{ℕ, ◌==◌, Bool, ◌&&◌, Option, some, none, Result, ok, ◌>>=◌}
use mathlib.Core.Option
use pingfs.BlockData.Data.{
  BlockId, BlockData, BlockDataProto, data_beq, generate, gen_block_data_proto,
}

pub record Block : Type 0 where
  pub block_id : BlockId
  pub data_ : BlockData

unfoldable pub block_beq : Block → Block → Bool
block_beq a b = a.block_id == b.block_id && data_beq a.data_ b.data_

-- `BlockProto` of proto/block_data.proto.
pub record BlockProto : Type 0 where
  pub id : Option ℕ
  pub data_ : Option BlockDataProto

abbrev pub empty_block_proto : BlockProto
empty_block_proto = record { id = none; data_ = none }

-- The constructor from a message.
unfoldable pub of_proto : BlockProto → Result Block
of_proto proto = do
  data' ← generate (Option.get_or proto.data_ BlockDataProto.not_set)
  ok (record { block_id = Option.get_or proto.id 0; data_ = data' })

unfoldable pub gen_proto : Block → BlockProto → BlockProto
gen_proto b proto = record {
  id = some b.block_id;
  data_ = some (gen_block_data_proto b.data_ (Option.get_or proto.data_ BlockDataProto.not_set));
}

-- ===== src/BlockManager/IdSupplier.antt =====
-- lib/src/block/block_manager/id_supplier: the ids of new blocks.
pub mod Fresh
use pingfs.Base.{ℕ, ◌+◌, ◌*◌, ◌/◌, ◌%◌, ◌^◌, ◌==◌, ltb, if◌then◌else◌, Result, ok, fail, Failure}
use Failure.{thrown}
use pingfs.BlockData.Data.{BlockId}

-- The interface of lib/include/pingfs/block/block_manager/id_supplier/id_supplier.hpp.
pub record IdSupplier (S : Type 0) : Type 0 where
  pub next_id : S → Result (BlockId × S)
  pub free_id : BlockId → S → S

abbrev pub wrap64 : ℕ → ℕ
wrap64 n = n % 2 ^ 64

pub record CounterSupplier : Type 0 where
  pub next_id_ : ℕ

-- The constructor.
unfoldable pub counter_supplier : CounterSupplier
counter_supplier = record { next_id_ = 1 }

-- A counter that has come back to 0 has given out every id.
unfoldable pub counter_next_id : CounterSupplier → Result (BlockId × CounterSupplier)
counter_next_id s =
    if s.next_id_ == 0
    then fail thrown
    else ok (s.next_id_, record { next_id_ = wrap64 (s.next_id_ + 1) })

-- Freed ids are not used again.
unfoldable pub counter_free_id : BlockId → CounterSupplier → CounterSupplier
counter_free_id block_id s = s

abbrev pub counter_ids : IdSupplier CounterSupplier
counter_ids = record { next_id = counter_next_id; free_id = counter_free_id }

-- The low eight bits of an id are those of the node, the high bits count.
pub record UpdatingIdSupplier : Type 0 where
  pub fixed_low_order_bits : ℕ
  pub high_order_bits : ℕ

unfoldable pub updating_id_supplier : ℕ → UpdatingIdSupplier
updating_id_supplier fixed_lower_order_bits = record {
  fixed_low_order_bits = fixed_lower_order_bits;
  high_order_bits = 1;
}

unfoldable pub updating_next_id : UpdatingIdSupplier → Result (BlockId × UpdatingIdSupplier)
updating_next_id s = ok (
  wrap64 (s.high_order_bits * 2 ^ 8 + s.fixed_low_order_bits),
  record s { high_order_bits = wrap64 (s.high_order_bits + 1) },
)

unfoldable pub update_if_less_than : BlockId → UpdatingIdSupplier → UpdatingIdSupplier
update_if_less_than block_id s =
    let just_high_order = block_id / 2 ^ 8 in
    if ltb s.high_order_bits just_high_order
    then record s { high_order_bits = wrap64 (just_high_order + 1) }
    else s

unfoldable pub updating_free_id : BlockId → UpdatingIdSupplier → UpdatingIdSupplier
updating_free_id block_id s = s

abbrev pub updating_ids : IdSupplier UpdatingIdSupplier
updating_ids = record { next_id = updating_next_id; free_id = updating_free_id }

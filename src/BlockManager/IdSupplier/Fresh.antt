-- ===== src/BlockManager/IdSupplier/Fresh.antt =====
-- The ids that lib/src/block/block_manager/id_supplier gives out are not given out twice.
use pingfs.Base.{
  ℕ, zero, suc, ◌+◌, ◌-◌, ◌*◌, ◌/◌, ◌%◌, ◌^◌, ◌<◌, List, [], ◌∷◌, Result, ok, fail, Failure, ◌>>=◌,
  ◌≡◌, ◌≢◌, refl, arith, ◌⊎◌, ne→==-false,
}
use Failure.{thrown}
use pingfs.BlockData.Data.{BlockId}
use pingfs.BlockManager.IdSupplier.{
  IdSupplier, CounterSupplier, counter_next_id, counter_ids, UpdatingIdSupplier, updating_next_id,
  update_if_less_than,
}

-- `n` calls of `next_id`, and the ids that they return in order.
module _ {S : Type 0} (ids : IdSupplier S) where
  unfoldable pub next_ids : ℕ → S → Result (List BlockId × S)
  next_ids zero s = ok ([], s)
  next_ids (suc n) s = do (id, s') ← ids.next_id s; (rest, s'') ← next_ids n s'; ok (id ∷ rest, s'')

-- The numbers from `a` on.
abbrev pub from : ℕ → ℕ → List ℕ
from a zero = []
from a (suc n) = a ∷ from (a + 1) n

abbrev pub counter_at : ℕ → CounterSupplier
counter_at n = record { next_id_ = n }

-- The counter gives out consecutive ids, so no id comes twice, until it has reached the largest
-- 64-bit number.
pub next_ids-counter :
    (n a : ℕ)
    → 0 < a
    → a + n < 2 ^ 64
    → next_ids counter_ids n (counter_at a) ≡ ok (from a n, counter_at (a + n))
unfolding next_ids counter_next_id
next_ids-counter zero a pos fits = let e : a + 0 ≡ a = omega arith in rw e
next_ids-counter (suc n) a pos fits =
    let e : (a + 1) % 2 ^ 64 ≡ a + 1 = omega arith in
    let e' : a + 1 + n ≡ a + suc n = omega arith in
    rw
      (ne→==-false a 0 (omega arith), e, next_ids-counter n (a + 1) (omega arith) (omega arith), e')

-- Behind the largest id the counter throws instead of wrapping around.
pub next_ids-exhausted :
    (n : ℕ) → next_ids counter_ids (suc (suc n)) (counter_at (2 ^ 64 - 1)) ≡ fail thrown
unfolding next_ids counter_next_id
next_ids-exhausted n = refl

-- An id of a node ends in the eight bits of that node, so ids of nodes with different bits differ.
pub updating_next_id-ne :
    (s t : UpdatingIdSupplier) {i j : BlockId} {s' t' : UpdatingIdSupplier}
    → s.fixed_low_order_bits < 256
    → t.fixed_low_order_bits < 256
    → s.fixed_low_order_bits ≢ t.fixed_low_order_bits
    → updating_next_id s ≡ ok (i, s')
    → updating_next_id t ≡ ok (j, t')
    → i ≢ j
unfolding updating_next_id
updating_next_id-ne s t hs ht ne ei ej = ground arith

-- While the counter of a node has not reached 2^56, and for ids below 2^64 - 256: after a node has
-- seen an id its next id is larger, unless the high bits of that id are those that
-- the node counts with. In that case nothing is updated, and the next id has the same high bits and
-- the low bits of the node, whichever of the two ids that makes the larger one.
pub updating_next_id-update_if_less_than :
    (block_id : BlockId) (s : UpdatingIdSupplier) {id : BlockId} {t : UpdatingIdSupplier}
    → s.fixed_low_order_bits < 256
    → s.high_order_bits < 2 ^ 56
    → block_id < 2 ^ 64 - 256
    → updating_next_id (update_if_less_than block_id s) ≡ ok (id, t)
    → ((s.high_order_bits ≢ block_id / 256) × (block_id < id))
      ⊎ ((s.high_order_bits ≡ block_id / 256)
          × (id ≡ block_id / 256 * 256 + s.fixed_low_order_bits))
unfolding updating_next_id update_if_less_than
updating_next_id-update_if_less_than block_id s fits high room e = ground arith

-- ===== src/BlockManager/Memory/Contract.antt =====
-- The block manager in memory, with the counter for ids, keeps the contract of a block manager.
use pingfs.Base.{
  ℕ, suc, ◌+◌, ◌-◌, ◌%◌, ◌^◌, ◌<◌, ◌≤◌, ◌==◌, if◌then◌else◌, List, [], ◌∷◌, ◌++◌, map, Option, none,
  some, ok, ◌≡◌, ◌≢◌, refl, arith, ap, ◌∙◌, append_assoc, append-nil, ne→==-false, Option-cases,
  inl, inr,
}
use pingfs.Base.Maps.{
  lookup, insert, erase, Keys, lookup-insert, Keys-insert, lookup-erase, Keys-erase, length-insert,
}
use pingfs.BlockData.Data.{BlockId, BlockData}
use pingfs.BlockData.Block.{Block}
use pingfs.BlockManager.IdSupplier.{CounterSupplier, counter_next_id, counter_free_id, counter_ids}
use pingfs.BlockManager.Interface.{IsCreated, IsBlockManager}
use pingfs.BlockManager.Memory.{
  MemoryBlockManager, create_block, free_block, at, get_loop, get_blocks, num_blocks,
  memory_block_manager,
}

abbrev pub Store : Type 0
Store = MemoryBlockManager CounterSupplier

abbrev pub entry : Option (Option Block) → Option Block
entry (some (some b)) = some b
entry _ = none

-- The abstract view: a null entry is no block.
abbrev pub look : Store → BlockId → Option Block
look s i = entry (lookup i s.map_)

-- Every id below the ceiling may have been given out, none above it has.
abbrev pub ceiling : Store → ℕ
ceiling s = if (s.id_supplier).next_id_ == 0 then 2 ^ 64 else (s.id_supplier).next_id_

pub record IsStore (s : Store) : Type 0 where
  pub keys : Keys s.map_
  pub range : (s.id_supplier).next_id_ < 2 ^ 64
  pub below : (k : ℕ) (v : Option Block) → lookup k s.map_ ≡ some v → k < ceiling s
  pub named : (k : ℕ) (b : Block) → lookup k s.map_ ≡ some (some b) → b.block_id ≡ k

-- The block that `create_block` returns, and the state that it leaves.
abbrev pub created : BlockData → Store → Block
created d s = record { block_id = (s.id_supplier).next_id_; data_ = d }

abbrev pub after_create : BlockData → Store → Store
after_create d s = record {
  id_supplier = record { next_id_ = ((s.id_supplier).next_id_ + 1) % 2 ^ 64 };
  map_ = insert (s.id_supplier).next_id_ (some (created d s)) s.map_;
}

module _ (d : BlockData) (s : Store) (valid : IsStore s) (room : 0 < 2 ^ 64 - ceiling s) where
  pub next_ne : (s.id_supplier).next_id_ ≢ 0
  next_ne = ground arith

  pub create_block-ok : create_block counter_ids d s ≡ ok (created d s, after_create d s)
  unfolding create_block counter_next_id
  create_block-ok = rw (ne→==-false _ 0 next_ne)

  unused : lookup (s.id_supplier).next_id_ s.map_ ≡ none
  unused = elim (Option-cases (lookup (s.id_supplier).next_id_ s.map_)) [
    | inl e ↦ e
    | inr (v, e) ↦ absurd (ground (arith, valid.below (s.id_supplier).next_id_ v e, next_ne))
  ]

  pub create_block-IsCreated : IsCreated look d s (created d s) (after_create d s)
  create_block-IsCreated = record {
    holds = refl;
    fresh = rw unused;
    stored =
        λ j. ground (arith, lookup-insert (s.id_supplier).next_id_ j (some (created d s)) s.map_);
  }

  pub create_block-IsStore : IsStore (after_create d s)
  create_block-IsStore = record {
    keys = Keys-insert _ _ s.map_ valid.keys;
    range = omega arith;
    below = λ k v e. ground (
      arith,
      lookup-insert (s.id_supplier).next_id_ k (some (created d s)) s.map_,
      valid.below k v,
      valid.range,
      next_ne,
    );
    named = λ k b e. ground (
      arith,
      lookup-insert (s.id_supplier).next_id_ k (some (created d s)) s.map_,
      valid.named k b,
    );
  }

abbrev pub after_free : BlockId → Store → Store
after_free i s = record s { map_ = erase i s.map_ }

module _ (i : BlockId) (s : Store) (valid : IsStore s) where
  pub look-free : (j : BlockId) → look (after_free i s) j ≡ (if i == j then none else look s j)
  look-free j = ground (arith, lookup-erase i j s.map_ valid.keys)

  pub free_block-IsStore : IsStore (after_free i s)
  free_block-IsStore = record {
    keys = Keys-erase i s.map_ valid.keys;
    range = valid.range;
    below = λ k v e. ground (arith, lookup-erase i k s.map_ valid.keys, valid.below k v);
    named = λ k b e. ground (arith, lookup-erase i k s.map_ valid.keys, valid.named k b);
  }

-- A request whose blocks are all there is answered in its order, and the map stays as it is.
pub get_loop-present :
    (ids : List BlockId) (blocks : List Block) (s : Store) (acc : List (Option Block))
    → map (look s) ids ≡ map some blocks
    → get_loop ids s.map_ acc ≡ (acc ++ map some blocks, s.map_)
unfolding get_loop
get_loop-present [] [] s acc e = rw append-nil
get_loop-present [] (b ∷ blocks) s acc e = cc
get_loop-present (i ∷ ids) [] s acc e = cc
get_loop-present (i ∷ ids) (b ∷ blocks) s acc e =
    let found : lookup i s.map_ ≡ some (some b) = ground arith in
    let others : map (look s) ids ≡ map some blocks = ground arith in
    rw (found, at)
      (get_loop-present ids blocks s (acc ++ some b ∷ []) others
        ∙ ap (λ l. (l, s.map_)) (append_assoc acc (some b ∷ []) (map some blocks)))

pub look-block_id :
    (i : BlockId) (b : Block) (s : Store) → IsStore s → look s i ≡ some b → b.block_id ≡ i
look-block_id i b s valid e = ground (arith, valid.named i b)

pub ceiling-after_create :
    (d : BlockData) (s : Store)
    → IsStore s
    → 0 < 2 ^ 64 - ceiling s
    → 2 ^ 64 - ceiling s ≡ suc (2 ^ 64 - ceiling (after_create d s))
ceiling-after_create d s valid room = ground (arith, next_ne d s valid room)

-- The view, the well-formed states and the room of the block manager in memory.
unfoldable pub memory_contract : IsBlockManager (memory_block_manager counter_ids)
unfolding free_block get_blocks counter_free_id
memory_contract = record {
  look = look;
  IsValid = IsStore;
  capacity = λ s. 2 ^ 64 - ceiling s;
  same_id = look-block_id;
  create = λ d s valid room. (
    created d s,
    after_create d s,
    create_block-ok d s valid room,
    create_block-IsCreated d s valid room,
    create_block-IsStore d s valid room,
    ceiling-after_create d s valid room,
  );
  free =
      λ i s valid. (after_free i s, refl, look-free i s valid, free_block-IsStore i s valid, refl);
  get = λ ids blocks s valid e. rw (get_loop-present ids blocks s [] e);
}

-- The initial state, with an empty map.
abbrev pub initial : Store
initial = record { id_supplier = record { next_id_ = 1 }; map_ = [] }

pub initial-IsStore : IsStore initial
unfolding lookup
initial-IsStore = record {
  keys = tt;
  range = omega arith;
  below = λ k v e. cc;
  named = λ k b e. cc;
}

-- The block manager in memory, on ids from the counter, keeps the contract of a block manager, where a
-- state is seen as the map from ids to the blocks that are not null, and the ceiling is the id above
-- all that may have been given out. The initial state is well formed, sees no block, and has a
-- ceiling of 1. In a well-formed state a block stands under its own id. If the ceiling is below
-- 2^64, `create_block` returns a block that holds the data, with an id that is not below the old
-- ceiling and under which nothing stood, puts it there and changes nothing else, and raises the
-- ceiling by 1. `free_block` removes the block of that id and no other. `get_blocks` of blocks that
-- are there returns them in the order of the request, and changes nothing. Each of them leaves a
-- well-formed state.
pub memory-IsBlockManager :
    (IsStore initial × ((i : BlockId) → look initial i ≡ none) × (ceiling initial ≡ 1))
    × ((i : BlockId) (b : Block) (s : Store) → IsStore s → look s i ≡ some b → b.block_id ≡ i)
    × ((d : BlockData) (s : Store)
        → IsStore s
        → ceiling s < 2 ^ 64
        → (b : Block) × (s' : Store) × (create_block counter_ids d s ≡ ok (b, s'))
          × (b.data_ ≡ d)
          × (ceiling s ≤ b.block_id)
          × (look s b.block_id ≡ none)
          × ((j : BlockId) → look s' j ≡ (if b.block_id == j then some b else look s j))
          × IsStore s'
          × (ceiling s' ≡ ceiling s + 1))
    × ((i : BlockId) (s : Store)
        → IsStore s
        → (s' : Store) × (free_block counter_ids i s ≡ ok s')
          × ((j : BlockId) → look s' j ≡ (if i == j then none else look s j))
          × IsStore s'
          × (ceiling s' ≡ ceiling s))
    × ((ids : List BlockId) (blocks : List Block) (s : Store)
        → IsStore s
        → map (look s) ids ≡ map some blocks
        → get_blocks ids s ≡ ok (map some blocks, s))
unfolding free_block get_blocks counter_free_id lookup
memory-IsBlockManager = (
  (initial-IsStore, λ i. refl, refl),
  look-block_id,
  λ d s valid room.
      let left : 0 < 2 ^ 64 - ceiling s = omega (arith, room) in
      let c = create_block-IsCreated d s valid left in
      (
        created d s,
        after_create d s,
        create_block-ok d s valid left,
        c.holds,
        ground (arith, next_ne d s valid left),
        c.fresh,
        c.stored,
        create_block-IsStore d s valid left,
        ground (arith, next_ne d s valid left, valid.range),
      ),
  λ i s valid. (after_free i s, refl, look-free i s valid, free_block-IsStore i s valid, refl),
  λ ids blocks s valid e. rw (get_loop-present ids blocks s [] e),
)

-- Asking for a block that is not there returns a null pointer and leaves an entry for it behind,
-- which `num_blocks` counts as a block.
pub get_blocks-absent :
    (i : BlockId) (s : Store)
    → lookup i s.map_ ≡ none
    → (s' : Store) × (get_blocks (i ∷ []) s ≡ ok (none ∷ [], s'))
      × (num_blocks s' ≡ num_blocks s + 1)
      × (look s' i ≡ none)
unfolding get_blocks num_blocks
get_blocks-absent i s absent = (
  record s { map_ = insert i none s.map_ },
  rw (absent, at),
  omega (arith, length-insert i none s.map_ absent),
  ground (arith, lookup-insert i i none s.map_),
)

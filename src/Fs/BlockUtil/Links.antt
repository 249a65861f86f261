-- ===== src/Fs/BlockUtil/Links.antt =====
-- The part of lib/src/fs/block_util.cc that frees trees of blocks and that builds the blocks of a
-- file.
use pingfs.Base.{
  ℕ, zero, suc, ◌+◌, ◌-◌, ◌*◌, ◌/◌, ◌==◌, if◌then◌else◌, not, List, [], ◌∷◌, ◌++◌, map, Option,
  none, some, Bytes, length, get_elem?, Result, ok, fail, Failure, ◌>>=◌,
}
use Failure.{undefined, out_of_fuel}
use Prim.Native.Nat.{max}
use pingfs.BlockData.Data.{BlockId, link, file_contents}
use pingfs.BlockData.Block.{Block}
use pingfs.BlockManager.Interface.{BlockManager}
use pingfs.Fs.FsUtil.{substr}
use pingfs.Fs.BlockUtil.{get_children}

-- The ids of at most `n` blocks from an index on; the loop breaks at the end of the vector.
unfoldable pub child_links : List Block → ℕ → ℕ → List BlockId
child_links blocks_to_link_to block_index zero = []
child_links blocks_to_link_to block_index (suc n) = elim (get_elem? blocks_to_link_to block_index) [
  | none ↦ []
  | some block ↦ block.block_id ∷ child_links blocks_to_link_to (block_index + 1) n
]

-- `substr(i * bytes_per_block, end)` for each leaf; `i` counts up, `n` leaves are left.
unfoldable pub leaf_data : Bytes → ℕ → ℕ → ℕ → List Bytes → Result (List Bytes)
leaf_data contents bytes_per_block i zero leaves = ok leaves
leaf_data contents bytes_per_block i (suc n) leaves =
    let end = max ((i + 1) * bytes_per_block) (length contents) in
    substr contents (i * bytes_per_block) end >>= λ leaf.
    leaf_data contents bytes_per_block (i + 1) n (leaves ++ leaf ∷ [])

unfoldable pub num_leaves : Bytes → ℕ → ℕ
num_leaves contents bytes_per_block =
    let n = length contents / bytes_per_block in
    if not (n * bytes_per_block == length contents) then n + 1 else n

module _ {S : Type 0} (manager : BlockManager S) where
  -- `free_block` of each id in turn.
  unfoldable pub free_all : List BlockId → S → Result S
  free_all [] s = ok s
  free_all (id ∷ ids) s = manager.free_block id s >>= λ s'. free_all ids s'

  -- The last loop of `recursive_free_children_blocks`; a null pointer is followed.
  unfoldable pub free_each : (Block → S → Result S) → List (Option Block) → S → Result S
  free_each descend [] s = ok s
  free_each descend (none ∷ blocks) s = fail undefined
  free_each descend (some block ∷ blocks) s = descend block s >>= λ s'. free_each descend blocks s'

  unfoldable pub recursive_free_children_blocks : ℕ → Block → S → Result S
  unfolding free_all free_each
  recursive_free_children_blocks zero block s = fail out_of_fuel
  recursive_free_children_blocks (suc fuel) block s = elim (get_children block) [
    | none ↦ ok s
    | some children ↦ manager.get_blocks children s >>= λ (response, s1).
        free_all children s1 >>= λ s2. free_each (recursive_free_children_blocks fuel) response s2
  ]

  -- The outer loop of `add_link_layer`: `n` link blocks are left to make, the next is the `i`-th.
  unfoldable pub link_layer_loop : List Block → ℕ → ℕ → ℕ → List Block → S → Result (List Block × S)
  unfolding child_links
  link_layer_loop blocks_to_link_to branching_factor i zero new_layer s = ok (new_layer, s)
  link_layer_loop blocks_to_link_to branching_factor i (suc n) new_layer s =
      manager.create_block
        (link (record {
          children = child_links blocks_to_link_to (i * branching_factor) branching_factor;
        }))
        s
      >>= λ (block, s').
          link_layer_loop blocks_to_link_to branching_factor (i + 1) n (new_layer ++ block ∷ []) s'

  -- `ceil` of the quotient, which `double` gives exactly for sizes below 2^53.
  unfoldable pub add_link_layer : List Block → ℕ → S → Result (List Block × S)
  unfolding link_layer_loop
  add_link_layer blocks_to_link_to branching_factor s =
      link_layer_loop blocks_to_link_to branching_factor 0
        ((length blocks_to_link_to + branching_factor - 1) / branching_factor) [] s

  unfoldable pub create_leaves : List Bytes → List Block → S → Result (List Block × S)
  create_leaves [] blocks s = ok (blocks, s)
  create_leaves (leaf ∷ leaves) blocks s =
      manager.create_block (file_contents (record { data_ = leaf })) s >>= λ (block, s').
      create_leaves leaves (blocks ++ block ∷ []) s'

  unfoldable pub add_layers : ℕ → List Block → ℕ → S → Result (List Block × S)
  unfolding add_link_layer
  add_layers zero blocks_to_link_to branching_factor s = ok (blocks_to_link_to, s)
  add_layers (suc depth) blocks_to_link_to branching_factor s =
      add_link_layer blocks_to_link_to branching_factor s >>= λ (links, s').
      add_layers depth links branching_factor s'

  -- `depth_of` is `ceil(log(num_leaves) / log(branching_factor))`, computed in floating point by the
  -- system's library. The result is what the code puts into `ids_to_add`. It asserts that there are
  -- contents.
  unfoldable pub replace_blocks_for_contents :
      (ℕ → ℕ → ℕ) → Bytes → ℕ → ℕ → S → Result (List BlockId × S)
  unfolding leaf_data num_leaves create_leaves add_layers
  replace_blocks_for_contents depth_of contents bytes_per_block branching_factor s =
      if length contents == 0
      then fail undefined
      else (let leaves = num_leaves contents bytes_per_block in
          leaf_data contents bytes_per_block 0 leaves [] >>= λ data'.
          create_leaves data' [] s >>= λ (blocks, s').
          add_layers (depth_of leaves branching_factor) blocks branching_factor s' >>= λ (top, s'').
          ok (map (λ b. b.block_id) top, s''))

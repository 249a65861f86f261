-- ===== src/Fs/BlockFuse/Represents/Nameless.antt =====
-- The search of lib/src/fs/block_fuse.cc for a name below a file: its contents and links have none.
use pingfs.Base.{
  ℕ, zero, suc, false, List, [], ◌∷◌, ◌++◌, map, none, some, Bytes, ok, ◌≡◌, refl, ◌∙◌,
  append_assoc, append-nil,
}
use pingfs.Base.Maps.{insert}
use pingfs.BlockData.Data.{BlockId, LinkBlockData, FileContentsBlockData, link, file_contents}
use pingfs.BlockData.Block.{Block}
use pingfs.BlockManager.Interface.{BlockManager, IsBlockManager}
use pingfs.Fs.BlockUtil.{try_cast_dir_file, try_cast_link}
use pingfs.Fs.BlockUtil.Stores.{View, Stores, level, map-level}
use pingfs.Fs.BlockUtil.Extends.{Stores-append}
use Stores.{nil, leaf, node}
use pingfs.Fs.BlockFuse.{get_path_part_helper, search_layers, is_named, children_of_link}
use pingfs.Fs.BlockFuse.Search.{seen}

unnamed-contents :
    (b : Block) (c : FileContentsBlockData) (name : Bytes)
    → b.data_ ≡ file_contents c
    → (is_named b name ≡ false) × (children_of_link b ≡ [])
unfolding is_named children_of_link try_cast_dir_file try_cast_link
unnamed-contents b c name is = (rw is, rw is)

unnamed-link :
    (b : Block) (l : LinkBlockData) (name : Bytes)
    → b.data_ ≡ link l
    → (is_named b name ≡ false) × (children_of_link b ≡ l.children)
unfolding is_named children_of_link try_cast_dir_file try_cast_link
unnamed-link b l name is = (rw is, rw is)

module _ {look : View} where
  -- The children of the links of a level.
  below : {d : ℕ} {ids : List BlockId} {text : Bytes} → Stores look d ids text → List BlockId
  below nil = []
  below (leaf at is rest) = below rest
  below (node {l} at is inner rest) = l.children ++ below rest

  helper-level :
      {d : ℕ} {ids : List BlockId} {text : Bytes} (t : Stores look d ids text) (name : Bytes)
      (acc : List BlockId) (retrieved : List (BlockId × Block))
      → get_path_part_helper acc retrieved (map some (level t)) name
        ≡ ok (none, (acc ++ below t, seen retrieved (level t)))
  unfolding get_path_part_helper level below
  helper-level nil name acc retrieved = rw append-nil
  helper-level (leaf {b} {c} at is rest) name acc retrieved =
      let (named, flat) = unnamed-contents b c name is in
      rw (named, flat, append-nil acc, helper-level rest name acc (insert b.block_id b retrieved))
  helper-level (node {b} {l} at is inner rest) name acc retrieved =
      let (named, flat) = unnamed-link b l name is in
      rw (
        named,
        flat,
        helper-level rest name (acc ++ l.children) (insert b.block_id b retrieved),
        append_assoc acc l.children (below rest),
      )

  Stores-below :
      {d : ℕ} {ids : List BlockId} {text : Bytes} (t : Stores look (suc d) ids text)
      → (u : Bytes) × Stores look d (below t) u
  unfolding below
  Stores-below nil = ([], nil)
  Stores-below (leaf at is rest) = Stores-below rest
  Stores-below (node {below} at is inner rest) =
      let (u, more) = Stores-below rest in (below ++ u, Stores-append inner more)

  below-leaves : {ids : List BlockId} {text : Bytes} (t : Stores look 0 ids text) → below t ≡ []
  unfolding below
  below-leaves nil = refl
  below-leaves (leaf at is rest) = below-leaves rest

module _ {S : Type 0} (manager : BlockManager S) (contract : IsBlockManager manager) (s : S)
    (valid : contract.IsValid s) (name : Bytes) where
  -- The first round of the search.
  search-round :
      {d : ℕ} {ids : List BlockId} {text : Bytes} (t : Stores (contract.look s) d ids text)
      (fuel : ℕ) (retrieved : List (BlockId × Block))
      → search_layers manager (suc fuel) name ids retrieved s
        ≡ search_layers manager fuel name (below t) (seen retrieved (level t)) s
  unfolding search_layers below level
  search-round nil fuel retrieved = refl
  search-round (leaf {i} {ids} at is rest) fuel retrieved =
      let t = leaf at is rest in
      rw (contract.get (i ∷ ids) (level t) s valid (map-level t), helper-level t name [] retrieved)
  search-round (node {i} {ids} at is inner rest) fuel retrieved =
      let t = node at is inner rest in
      rw (contract.get (i ∷ ids) (level t) s valid (map-level t), helper-level t name [] retrieved)

  -- Below a file no block has a name, so that the search ends with nothing, after as many rounds as
  -- there are layers.
  pub search_layers-Stores :
      {d : ℕ} {ids : List BlockId} {text : Bytes} (t : Stores (contract.look s) d ids text)
      (retrieved : List (BlockId × Block))
      → (retrieved' : List (BlockId × Block)) × (search_layers manager (suc d) name ids retrieved s
          ≡ ok (none, (retrieved', s)))
  unfolding search_layers
  search_layers-Stores {d = zero} t retrieved =
      (seen retrieved (level t), search-round t 0 retrieved ∙ rw (below-leaves t) refl)
  search_layers-Stores {d = suc d} t retrieved =
      let (u, inner) = Stores-below t in
      let (retrieved', e) = search_layers-Stores {d = d} inner (seen retrieved (level t)) in
      (retrieved', search-round t (suc d) retrieved ∙ e)

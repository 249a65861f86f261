-- ===== src/Fs/BlockFuse/Represents/Rounds.antt =====
-- The rounds of `replace_chain` in lib/src/fs/block_util.cc, from the end of a path back to the root.
use pingfs.Base.{
  List, [], ◌∷◌, ◌++◌, Option, none, some, ok, ◌>>=◌, ◌≡◌, sym, ◌∙◌, bind_assoc, bind_ext,
  reverse_aux-append, arith, ==-self,
}
use mathlib.Core.List.{reverse}
use pingfs.BlockData.Data.{BlockId, DirFileBlockData, dir_file, with_children}
use pingfs.BlockData.Block.{Block}
use pingfs.BlockManager.Interface.{BlockManager}
use pingfs.Fs.BlockUtil.{
  erase_first, remove_ids, replace_block_with_diff_children, replace_round, replace_chain,
  get_children, try_cast_link, try_cast_dir_file,
}
use pingfs.Fs.BlockFuse.Represents.{count}

-- An id is taken out where it is met first.
erase_first-here :
    (front behind : List BlockId) (i : BlockId)
    → count i front ≡ 0
    → erase_first i (front ++ i ∷ behind) ≡ some (front ++ behind)
unfolding erase_first
erase_first-here [] behind i absent = rw (==-self i)
erase_first-here (j ∷ front) behind i absent = ground (arith, erase_first-here front behind i)

pub remove_ids-one :
    (front behind : List BlockId) (i : BlockId)
    → count i front ≡ 0
    → remove_ids (front ++ i ∷ behind) (i ∷ []) ≡ ok (front ++ behind)
unfolding remove_ids
remove_ids-one front behind i absent = rw (erase_first-here front behind i absent, remove_ids)

casts :
    (b : Block) (d : DirFileBlockData)
    → b.data_ ≡ dir_file d
    → (get_children b ≡ some d.children) × (try_cast_link b ≡ none) × (try_cast_dir_file b ≡ some d)
unfolding get_children try_cast_link try_cast_dir_file
casts b d is = (rw is, rw is, rw is)

module _ {S : Type 0} (manager : BlockManager S) where
  -- The last block of a chain is replaced with the id of the one before taken out.
  pub replace_chain-snoc :
      (xs : List Block) (c b : Block) (to_remove : List BlockId) (last : Option Block)
      (to_add : List BlockId) (s : S)
      → replace_chain manager (xs ++ c ∷ b ∷ []) to_remove last to_add s ≡ (
          replace_chain manager (xs ++ c ∷ []) to_remove last to_add s >>= λ (r, s').
          replace_chain manager (b ∷ []) (c.block_id ∷ []) r to_add s')
  unfolding replace_chain
  replace_chain-snoc [] c b to_remove last to_add s =
      sym (bind_assoc (replace_round manager c to_remove last to_add s) _ _)
  replace_chain-snoc (x ∷ xs) c b to_remove last to_add s =
      let round = replace_round manager x to_remove last to_add s in
      bind_ext round _ _
        (λ (x', s'). replace_chain-snoc xs c b (x.block_id ∷ []) (some x') to_add s')
      ∙ sym (bind_assoc round _ _)

  pub replace_chain-reverse :
      (path : List Block) (c b : Block) (to_remove : List BlockId) (to_add : List BlockId) (s : S)
      → replace_chain manager (reverse (b ∷ c ∷ path)) to_remove none to_add s ≡ (
          replace_chain manager (reverse (c ∷ path)) to_remove none to_add s >>= λ (r, s').
          replace_chain manager (b ∷ []) (c.block_id ∷ []) r to_add s')
  replace_chain-reverse path c b to_remove to_add s =
      rw (reverse_aux-append path [] (c ∷ b ∷ []), reverse_aux-append path [] (c ∷ []))
        (replace_chain-snoc (reverse path) c b to_remove none to_add s)

  -- What one round leaves of a directory: a new block for the same directory with other children.
  pub replace_round-directory :
      (b : Block) (d : DirFileBlockData) (to_remove kept : List BlockId) (last : Option Block)
      (to_add : List BlockId) (s : S)
      → b.data_ ≡ dir_file d
      → remove_ids d.children to_remove ≡ ok kept
      → replace_round manager b to_remove last to_add s
        ≡ manager.create_block
            (dir_file
              (with_children d (kept ++ elim last [ some l ↦ l.block_id ∷ [] | none ↦ to_add ])))
            s
  unfolding replace_round replace_block_with_diff_children
  replace_round-directory b d to_remove kept none to_add s is removed =
      let (has, link, cast) = casts b d is in
      rw (has, removed, replace_block_with_diff_children, link, cast)
  replace_round-directory b d to_remove kept (some l) to_add s is removed =
      let (has, link, cast) = casts b d is in
      rw (has, removed, replace_block_with_diff_children, link, cast)

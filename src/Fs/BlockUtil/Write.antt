-- ===== src/Fs/BlockUtil/Write.antt =====
-- What the blocks that lib/src/fs/block_util.cc makes for the contents of a file hold.
use pingfs.Base.{
  ℕ, zero, suc, ◌+◌, ◌*◌, ◌≤◌, ◌<◌, ◌==◌, ltb, List, [], ◌∷◌, ◌++◌, Bytes, length, take, drop, ok,
  ◌>>=◌, ◌≡◌, refl, sym, ap, subst, ◌∙◌, arith, append_assoc, append-nil, length-drop, take-all,
  false, ne→==-false,
}
use Prim.Native.Nat.{max}
use native.Mathlib.Nat.{suc-mul}
use pingfs.BlockData.Data.{BlockId, DirFileBlockData, is_dir, with_children}
use pingfs.BlockManager.Interface.{BlockManager, IsBlockManager}
use pingfs.Fs.FsUtil.{substr}
use pingfs.Fs.BlockUtil.{read_file_contents}
use pingfs.Fs.BlockUtil.Links.{leaf_data, num_leaves, replace_blocks_for_contents}
use pingfs.Fs.BlockUtil.Stores.{Stores, read_file_contents-Stores}
use pingfs.Fs.BlockUtil.Extends.{Extends}
use pingfs.Fs.BlockUtil.Layers.{ids_of, concat, create_leaves-Layer}
use pingfs.Fs.BlockUtil.LinkLayers.{add_layers-Layer}
use Stores.{nil}

-- The contents from the `i`-th block of 1000 bytes on, then from the next one on, `n` times.
abbrev pub suffixes : Bytes → ℕ → ℕ → List Bytes
suffixes contents i zero = []
suffixes contents i (suc n) = drop (i * 1000) contents ∷ suffixes contents (i + 1) n

leaf_data-suffixes :
    (contents : Bytes) (n i : ℕ) (leaves : List Bytes)
    → (i + n) * 1000 < length contents + 1000
    → leaf_data contents 1000 i n leaves ≡ ok (leaves ++ suffixes contents i n)
unfolding leaf_data substr
leaf_data-suffixes contents zero i leaves h = rw (append-nil leaves)
leaf_data-suffixes contents (suc n) i leaves h =
    let inside : ltb (length contents) (i * 1000) ≡ false = ground (arith, h) in
    let all : take (max ((i + 1) * 1000) (length contents)) (drop (i * 1000) contents)
        ≡ drop (i * 1000) contents =
      take-all _ (drop (i * 1000) contents) (omega (arith, length-drop (i * 1000) contents)) in
    rw (
      inside,
      all,
      leaf_data-suffixes contents n (i + 1) (leaves ++ drop (i * 1000) contents ∷ [])
          (omega (arith, h)),
      append_assoc leaves (drop (i * 1000) contents ∷ []) (suffixes contents (i + 1) n),
    )

length-suffixes : (contents : Bytes) (i n : ℕ) → length (suffixes contents i n) ≡ n
length-suffixes contents i zero = refl
length-suffixes contents i (suc n) = ap suc (length-suffixes contents (i + 1) n)

-- The text of all leaves of a file.
abbrev pub written : Bytes → Bytes
written contents = concat (suffixes contents 0 (num_leaves contents 1000))

num_leaves-bounds :
    (contents : Bytes)
    → 0 < length contents
    → num_leaves contents 1000 * 1000 < length contents + 1000
unfolding num_leaves
num_leaves-bounds contents h = ground (arith, h)

num_leaves-small :
    (contents : Bytes) → 0 < length contents → length contents ≤ 1000 → num_leaves contents 1000 ≡ 1
unfolding num_leaves
num_leaves-small contents more small = ground (arith, more, small)

module _ {S : Type 0} (manager : BlockManager S) (contract : IsBlockManager manager)
    (depth_of : ℕ → ℕ → ℕ) where
  -- With room for the blocks, making the blocks for contents succeeds whatever depth is computed for
  -- the tree of links, keeps every block that was there, and leaves blocks that store, in order, all
  -- the contents, the contents from byte 1000 on, from byte 2000 on and so on. That is longer than the
  -- contents as soon as there is a second leaf.
  pub replace_blocks_for_contents-Stores :
      (contents : Bytes) (s : S)
      → contract.IsValid s
      → 0 < length contents
      → suc (depth_of (num_leaves contents 1000) 4) * num_leaves contents 1000 ≤ contract.capacity s
      → (ids : List BlockId) × (s' : S) × (replace_blocks_for_contents manager depth_of contents
            1000 4 s
          ≡ ok (ids, s'))
        × contract.IsValid s'
        × Extends (contract.look s) (contract.look s')
        × Stores (contract.look s') (depth_of (num_leaves contents 1000) 4) ids (written contents)
  unfolding replace_blocks_for_contents
  replace_blocks_for_contents-Stores contents s valid more room =
      let n : ℕ = num_leaves contents 1000 in
      let depth : ℕ = depth_of n 4 in
      let some_text : (length contents == 0) ≡ false = ne→==-false _ _ (omega (arith, more)) in
      let texts : leaf_data contents 1000 0 n [] ≡ ok (suffixes contents 0 n) =
        leaf_data-suffixes contents n 0 [] (omega (arith, num_leaves-bounds contents more)) in
      let count = length-suffixes contents 0 n in
      let product = suc-mul depth n in
      let (blocks, s1, made, l, cap, len) =
        create_leaves-Layer manager contract {t = []} (suffixes contents 0 n) [] s valid
          (omega (arith, room, count, product)) nil in
      let same : length blocks ≡ n = omega (arith, len, count) in
      let (top, s', made', l') =
        add_layers-Layer manager contract {e = 0} {t = written contents} depth blocks s1 l.valid
          (subst (λ k. depth * k ≤ contract.capacity s1) (sym same)
            (omega (arith, room, count, product, cap)))
          l.stored in
      (
        ids_of top,
        s',
        rw (some_text, texts, made, made'),
        l'.valid,
        λ j x h. l'.extends j x (l.extends j x h),
        subst (λ k. Stores (contract.look s') k (ids_of top) (written contents)) (omega arith)
            l'.stored,
      )

  -- With room for the blocks, a file of 1 to 1000 bytes is read back as it was written: the blocks that are made for its
  -- contents, put below a file, give the contents again, for any depth of the tree of links.
  pub read_file_contents-replace_blocks_for_contents :
      (contents : Bytes) (file_inode : DirFileBlockData) (s : S)
      → contract.IsValid s
      → 0 < length contents
      → length contents ≤ 1000
      → suc (depth_of 1 4) ≤ contract.capacity s
      → is_dir file_inode ≡ false
      → (replace_blocks_for_contents manager depth_of contents 1000 4 s >>= λ (ids, s').
          read_file_contents manager (suc (depth_of 1 4)) [] (with_children file_inode ids) s'
          >>= λ (text, s''). ok text)
        ≡ ok contents
  unfolding with_children is_dir
  read_file_contents-replace_blocks_for_contents contents file_inode s valid more small room file =
      let one = num_leaves-small contents more small in
      let (ids, s', e, valid', more_blocks, stored) =
        replace_blocks_for_contents-Stores contents s valid more (
          subst (λ n. suc (depth_of n 4) * n ≤ contract.capacity s) (sym one)
            (omega (arith, room))) in
      let text : written contents ≡ contents =
        ap (λ n. concat (suffixes contents 0 n)) one ∙ append-nil contents in
      let whole : Stores (contract.look s') (depth_of 1 4) ids contents =
        subst (λ t. Stores (contract.look s') (depth_of 1 4) ids t) text
          (subst (λ n. Stores (contract.look s') (depth_of n 4) ids (written contents)) one
            stored) in
      rw (
        e,
        read_file_contents-Stores manager contract s' valid' (with_children file_inode ids) file
            whole,
      )

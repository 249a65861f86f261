-- ===== src/Fs/BlockUtil/Stores.antt =====
-- What a tree of links stores: the text of its leaves from left to right. Reading it back is
-- `get_file_contents` of lib/src/fs/block_util.cc.
use pingfs.Base.{
  ℕ, suc, false, List, [], ◌∷◌, ◌++◌, map, Option, some, Bytes, ok, ◌≡◌, refl, ap, ◌∙◌, sym,
  append_assoc, append-nil,
}
use pingfs.BlockData.Data.{
  BlockId, DirFileBlockData, LinkBlockData, FileContentsBlockData, link, file_contents, is_dir,
}
use pingfs.BlockData.Block.{Block}
use pingfs.BlockManager.Interface.{BlockManager, IsBlockManager}
use pingfs.Fs.BlockUtil.{
  collect_contents, get_file_contents, read_file_contents, file_blocks_to_contents,
}

abbrev pub View : Type 0
View = BlockId → Option Block

-- `Stores look d ids text`: below the blocks `ids`, through at most `d` layers of links, the leaves
-- hold `text`.
pub data Stores (look : View) : ℕ → List BlockId → Bytes → Type 0 where
  nil : {d : ℕ} → Stores look d [] []
  leaf :
      {d : ℕ} {i : BlockId} {b : Block} {c : FileContentsBlockData} {ids : List BlockId}
      {text : Bytes}
      → look i ≡ some b
      → b.data_ ≡ file_contents c
      → Stores look d ids text
      → Stores look d (i ∷ ids) (c.data_ ++ text)
  node :
      {d : ℕ} {i : BlockId} {b : Block} {l : LinkBlockData} {ids : List BlockId}
      {below text : Bytes}
      → look i ≡ some b
      → b.data_ ≡ link l
      → Stores look d l.children below
      → Stores look (suc d) ids text
      → Stores look (suc d) (i ∷ ids) (below ++ text)

-- All the text of a list of leaves.
abbrev pub text_of : List FileContentsBlockData → Bytes
text_of [] = []
text_of (c ∷ cs) = c.data_ ++ text_of cs

text_of-append :
    (xs ys : List FileContentsBlockData) → text_of (xs ++ ys) ≡ text_of xs ++ text_of ys
text_of-append [] ys = refl
text_of-append (x ∷ xs) ys =
    ap (λ t. x.data_ ++ t) (text_of-append xs ys)
    ∙ sym (append_assoc x.data_ (text_of xs) (text_of ys))

-- The leaves below some blocks, in order.
module _ {look : View} where
  pub leaves :
      {d : ℕ} {ids : List BlockId} {text : Bytes}
      → Stores look d ids text
      → List FileContentsBlockData
  leaves nil = []
  leaves (leaf {c} at is rest) = c ∷ leaves rest
  leaves (node at is inner rest) = leaves inner ++ leaves rest

  text_of-leaves :
      {d : ℕ} {ids : List BlockId} {text : Bytes} (t : Stores look d ids text)
      → text_of (leaves t) ≡ text
  unfolding leaves
  text_of-leaves nil = refl
  text_of-leaves (leaf {c} at is rest) = ap (λ t. c.data_ ++ t) (text_of-leaves rest)
  text_of-leaves (node at is inner rest) =
      text_of-append (leaves inner) (leaves rest) ∙ cc (text_of-leaves inner, text_of-leaves rest)

  -- The blocks of a level.
  unfoldable pub level :
      {d : ℕ} {ids : List BlockId} {text : Bytes} → Stores look d ids text → List Block
  level nil = []
  level (leaf {b} at is rest) = b ∷ level rest
  level (node {b} at is inner rest) = b ∷ level rest

  pub map-level :
      {d : ℕ} {ids : List BlockId} {text : Bytes} (t : Stores look d ids text)
      → map look ids ≡ map some (level t)
  unfolding level
  map-level nil = refl
  map-level (leaf at is rest) = cc (map-level rest)
  map-level (node at is inner rest) = cc (map-level rest)

module _ {S : Type 0} (m : BlockManager S) (contract : IsBlockManager m) (s : S)
    (valid : contract.IsValid s) where
  -- The walk visits the leaves from left to right, and changes nothing.
  collect-leaves :
      {d : ℕ} {ids : List BlockId} {text : Bytes} (t : Stores (contract.look s) d ids text)
      (acc : List FileContentsBlockData)
      → collect_contents m (get_file_contents m d) (map some (level t)) acc s
        ≡ ok (acc ++ leaves t, s)
  unfolding collect_contents get_file_contents leaves level
  collect-leaves nil acc = rw append-nil
  collect-leaves (leaf {c} at is rest) acc = rw is (
      collect-leaves rest (acc ++ c ∷ [])
      ∙ ap (λ l. ok (l, s)) (append_assoc acc (c ∷ []) (leaves rest)))
  collect-leaves (node {l} at is inner rest) acc = rw is (
      rw (contract.get l.children (level inner) s valid (map-level inner)) (
        rw (collect-leaves inner acc) (
          collect-leaves rest (acc ++ leaves inner)
          ∙ ap (λ l. ok (l, s)) (append_assoc acc (leaves inner) (leaves rest)))))

  get_file_contents-leaves :
      {d : ℕ} {ids : List BlockId} {text : Bytes} (t : Stores (contract.look s) d ids text)
      → get_file_contents m (suc d) ids [] s ≡ ok (leaves t, s)
  unfolding get_file_contents
  get_file_contents-leaves {ids} t =
      rw (contract.get ids (level t) s valid (map-level t)) (collect-leaves t [])

  contents-text :
      (cs : List FileContentsBlockData) (acc : Bytes)
      → file_blocks_to_contents cs acc ≡ acc ++ text_of cs
  unfolding file_blocks_to_contents
  contents-text [] acc = sym (append-nil acc)
  contents-text (c ∷ cs) acc =
      contents-text cs (acc ++ c.data_) ∙ append_assoc acc c.data_ (text_of cs)

  -- Reading a file whose children store a text through `d` layers of links gives that text, changes
  -- nothing and takes no more than `d + 1` levels of recursion. It relies on the contract of the
  -- block manager that a response is in the order of the request.
  pub read_file_contents-Stores :
      {d : ℕ} {text : Bytes} (file_inode : DirFileBlockData)
      → is_dir file_inode ≡ false
      → Stores (contract.look s) d file_inode.children text
      → read_file_contents m (suc d) [] file_inode s ≡ ok (text, s)
  unfolding read_file_contents
  read_file_contents-Stores file_inode regular t =
      rw (regular, get_file_contents-leaves t)
        (ap (λ x. ok (x, s)) (contents-text (leaves t) [] ∙ text_of-leaves t))

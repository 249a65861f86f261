-- ===== src/Fs/BlockFuse/Reading.antt =====
-- What `read` of lib/src/fs/block_fuse.cc returns for a file whose blocks hold a text.
use pingfs.Base.{
  ℕ, suc, ◌+◌, ◌-◌, ◌%◌, ◌^◌, ◌<◌, false, List, [], some, Bytes, ok, ◌≡◌, refl, ap, ◌∙◌, arith,
  length, take, drop,
}
use Prim.Native.Nat.{min}
use pingfs.Base.Numbers.{to_int}
use pingfs.BlockData.Data.{DirFileBlockData, is_dir, dir_file}
use pingfs.BlockData.Block.{Block}
use pingfs.BlockManager.Interface.{BlockManager, IsBlockManager}
use pingfs.Fs.BlockUtil.{try_cast_dir_file}
use pingfs.Fs.BlockUtil.Stores.{Stores, read_file_contents-Stores}
use pingfs.Fs.BlockFuse.{BlockFuse, back, get_path}
use pingfs.Fs.BlockFuse.Contents.{read, read_block, read_slice}

take-zero : (text : Bytes) → take 0 text ≡ []
take-zero text = refl

-- The number of bytes from an offset on, at most `size`.
abbrev pub available : ℕ → ℕ → Bytes → ℕ
available size offset text = min size (length text - offset)

pub read_slice-available :
    (size offset : ℕ) (text : Bytes)
    → offset + size < 2 ^ 64
    → read_slice size offset text
      ≡ ok (
        to_int (available size offset text),
        take (available size offset text) (drop offset text),
      )
unfolding read_slice to_int
read_slice-available size offset text fits =
    let small : (offset + size) % 2 ^ 64 ≡ offset + size = omega (arith, fits) in
    ground (arith, small, take-zero (drop offset text))

module _ {S : Type 0} (manager : BlockManager S) (contract : IsBlockManager manager) where
  -- Reading a file whose blocks store a text, at an offset and with a size whose sum does not wrap
  -- around, copies the bytes of the text from the offset on, as many as there are and at most
  -- `size`, and returns their number. Nothing changes but what the search for the path changed.
  pub read-Stores :
      {d : ℕ} {text : Bytes} (size offset : ℕ) (path : Bytes) (fuse fuse' : BlockFuse S)
      (blocks : List Block) (block : Block) (file_inode : DirFileBlockData)
      → contract.IsValid fuse'.blocks
      → get_path manager (suc d) path fuse ≡ ok (blocks, fuse')
      → back blocks ≡ some block
      → block.data_ ≡ dir_file file_inode
      → is_dir file_inode ≡ false
      → Stores (contract.look fuse'.blocks) d file_inode.children text
      → offset + size < 2 ^ 64
      → read manager (suc d) size offset path fuse
        ≡ ok (
          to_int (available size offset text),
          (take (available size offset text) (drop offset text), fuse'),
        )
  unfolding read read_block try_cast_dir_file
  read-Stores {d} {text} size offset path fuse fuse' blocks block file_inode valid found last is
        file stored fits =
      let inner : read_block manager (suc d) size offset (some block) fuse'
          ≡ ok (
            to_int (available size offset text),
            (take (available size offset text) (drop offset text), fuse'),
          ) =
        rw (
          is,
          file,
          read_file_contents-Stores manager contract fuse'.blocks valid file_inode file stored,
          read_slice-available size offset text fits,
        ) in
      rw found (ap (λ b. read_block manager (suc d) size offset b fuse') last ∙ inner)

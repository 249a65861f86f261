-- ===== src/Fs/BlockFuse/Errors.antt =====
-- What the operations of lib/src/fs/block_fuse.cc do on a path that names nothing, and on one that
-- exists already.
use pingfs.Base.{ℕ, List, [], ◌∷◌, Option, Bytes, ok, ◌≡◌}
use pingfs.Base.Numbers.{ℤ, pos, neg}
use pingfs.BlockData.Stat.{StatBuffer}
use pingfs.BlockData.Block.{Block}
use pingfs.BlockManager.Interface.{BlockManager}
use pingfs.Fs.BlockFuse.{BlockFuse, back, get_path, resolve_inode, getattr, enoent, eexist}
use pingfs.Fs.BlockFuse.Directories.{System, Virtuals, readdir, rmdir, rmdir_path}
use pingfs.Fs.BlockFuse.Contents.{read, write, create}

module _ {S Buf : Type 0} (manager : BlockManager S) (virtuals : Virtuals S)
    (filler : Bytes → Option StatBuffer → Buf → ℤ × Buf) (depth_of : ℕ → ℕ → ℕ) (sys : System)
    (fuel : ℕ) (path : Bytes) where
  -- On a path that names nothing, `getattr`, `readdir`, `read` and `write` return `-ENOENT` and set
  -- `errno`, and `rmdir` returns 1. Apart from `errno` the state is the one that the search left,
  -- and nothing is put into a buffer.
  pub get_path-absent :
      (stbuf : StatBuffer) (buf : Buf) (buffer : Bytes) (size offset : ℕ) (fuse fuse' : BlockFuse S)
      → get_path manager fuel path fuse ≡ ok ([], fuse')
      → (getattr manager fuel path stbuf fuse
          ≡ ok (neg enoent, (stbuf, record fuse' { errno = enoent })))
        × (readdir manager filler fuel stbuf path buf fuse
            ≡ ok (neg enoent, (buf, record fuse' { errno = enoent })))
        × (read manager fuel size offset path fuse
            ≡ ok (neg enoent, ([], record fuse' { errno = enoent })))
        × (write manager virtuals depth_of sys fuel buffer size offset path fuse
            ≡ ok (neg enoent, record fuse' { errno = enoent }))
        × (rmdir manager virtuals fuel path fuse ≡ ok (pos 1, fuse'))
  unfolding getattr resolve_inode readdir read write rmdir rmdir_path back
  get_path-absent stbuf buf buffer size offset fuse fuse' h = (rw h, rw h, rw h, rw h, rw h)

  -- On a path that exists, `create` returns `-EEXIST` and sets `errno`, and apart from that changes
  -- nothing but what the search for the path changed.
  pub create-exists :
      (mode : ℕ) (block : Block) (blocks : List Block) (fuse fuse' : BlockFuse S)
      → get_path manager fuel path fuse ≡ ok (block ∷ blocks, fuse')
      → create manager virtuals sys fuel path mode fuse
        ≡ ok (neg eexist, record fuse' { errno = eexist })
  unfolding create
  create-exists mode block blocks fuse fuse' h = rw h

-- ===== src/Fs/BlockFuse/Represents/History.antt =====
-- Sequences of `mkdir`, `create` and `rmdir` of lib/src/fs/block_fuse.cc, and the steps of the tree of
-- names that go with them.
use pingfs.Base.{
  ℕ, suc, ◌+◌, ◌≤◌, List, [], ◌∷◌, ◌++◌, none, some, Bytes, Result, ok, ◌>>=◌, ◌≡◌, length,
}
use Prim.Native.Nat.{bit_or}
use pingfs.Base.Numbers.{ℤ, pos}
use pingfs.BlockData.FileType.{s_ifdir}
use pingfs.BlockData.Mode.{Mode, of_mode_t}
use pingfs.BlockData.Stat.{Stat, StatBuffer}
use pingfs.BlockManager.Interface.{BlockManager}
use pingfs.Fs.Tree.{Entry, Entries, add_entry, without, resolve, rebuild, depth}
use Entry.{directory}
use pingfs.Fs.BlockFuse.{BlockFuse}
use pingfs.Fs.BlockFuse.Directories.{System, block_fuse_virtuals, new_stat, mkdir, rmdir}
use pingfs.Fs.BlockFuse.Contents.{create}
use pingfs.Fs.BlockFuse.Represents.Parents.{Parts}
use pingfs.Fs.BlockFuse.Represents.Inserting.{new_entry}

pub data Operation : Type 0 where
  makes : Bytes → ℕ → Operation
  creates : Bytes → ℕ → Operation
  removes : Bytes → Operation

-- What the tree does, and the number of blocks that may be made for it.
module _ (n k : ℕ) (sys : System) where
  pub data Step (e : Entry) : Operation → ℕ → Entry → Type 0 where
    made :
        {path : Bytes} {parents : List Bytes} {name : Bytes} {mode : ℕ} {dir_mode : Mode}
        {dn : Bytes} {ds : Stat} {es : Entries} {e2 : Entry}
        → Parts path parents name
        → of_mode_t (bit_or mode s_ifdir) ≡ ok dir_mode
        → resolve (parents ++ name ∷ []) e ≡ none
        → resolve parents e ≡ some (directory dn ds es)
        → rebuild parents (add_entry (new_entry name (new_stat sys dir_mode 1))) e ≡ some e2
        → Step e (makes path mode) (length parents + 2) e2
    created :
        {path : Bytes} {parents : List Bytes} {name : Bytes} {mode : ℕ} {file_mode : Mode}
        {dn : Bytes} {ds : Stat} {es : Entries} {e2 : Entry}
        → Parts path parents name
        → of_mode_t mode ≡ ok file_mode
        → resolve (parents ++ name ∷ []) e ≡ none
        → resolve parents e ≡ some (directory dn ds es)
        → rebuild parents (add_entry (new_entry name (new_stat sys file_mode 0))) e ≡ some e2
        → Step e (creates path mode) (length parents + 2) e2
    removed :
        {path : Bytes} {parents : List Bytes} {name : Bytes} {e' e2 : Entry}
        → Parts path parents name
        → resolve (parents ++ name ∷ []) e ≡ some e'
        → depth n e' ≤ k
        → rebuild parents (without name) e ≡ some e2
        → Step e (removes path) (suc (length parents)) e2

  pub data Steps : Entry → List Operation → ℕ → Entry → Type 0 where
    stop : {e : Entry} → Steps e [] 0 e
    then :
        {op : Operation} {ops : List Operation} {c d : ℕ} {e e1 e2 : Entry}
        → Step e op c e1
        → Steps e1 ops d e2
        → Steps e (op ∷ ops) (c + d) e2

-- What the code does.
module _ {S : Type 0} (manager : BlockManager S) (sys : System) (fuel : ℕ)
    (stbuf : StatBuffer) where
  unfoldable pub perform : Operation → BlockFuse S → Result (ℤ × BlockFuse S)
  perform (makes path mode) fuse =
      mkdir manager (block_fuse_virtuals manager) sys fuel stbuf path mode fuse
  perform (creates path mode) fuse =
      create manager (block_fuse_virtuals manager) sys fuel path mode fuse
  perform (removes path) fuse = rmdir manager (block_fuse_virtuals manager) fuel path fuse

  -- All the operations in turn, with their results.
  unfoldable pub perform_all : List Operation → BlockFuse S → Result (List ℤ × BlockFuse S)
  unfolding perform
  perform_all [] fuse = ok ([], fuse)
  perform_all (op ∷ ops) fuse = perform op fuse >>= λ (code, fuse').
      perform_all ops fuse' >>= λ (codes, fuse''). ok (code ∷ codes, fuse'')

abbrev pub zeros : List Operation → List ℤ
zeros [] = []
zeros (op ∷ ops) = pos 0 ∷ zeros ops

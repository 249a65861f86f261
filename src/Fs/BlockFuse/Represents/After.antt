-- ===== src/Fs/BlockFuse/Represents/After.antt =====
-- `mkdir` and `create` of lib/src/fs/block_fuse.cc, followed by `getattr`.
use pingfs.Base.{
  ℕ, suc, ◌+◌, ◌≤◌, true, List, [], ◌∷◌, ◌++◌, none, some, Bytes, Result, ok, ◌≡◌, refl, length,
}
use Prim.Native.Nat.{bit_or}
use pingfs.Base.Numbers.{ℤ, pos}
use pingfs.BlockData.FileType.{s_ifdir}
use pingfs.BlockData.Mode.{Mode, of_mode_t}
use pingfs.BlockData.Stat.{Stat, StatBuffer, update_stat}
use pingfs.BlockManager.Interface.{BlockManager, IsBlockManager}
use pingfs.Fs.FsUtil.{get_separator, separate_path}
use pingfs.Fs.Tree.{Entry, Entries, directory, add_entry, resolve}
use pingfs.Fs.Tree.Laws.{Unique, diverges}
use pingfs.Fs.BlockFuse.{BlockFuse, getattr}
use pingfs.Fs.BlockFuse.Directories.{System, block_fuse_virtuals, new_stat, mkdir}
use pingfs.Fs.BlockFuse.Contents.{create}
use pingfs.Fs.BlockFuse.Represents.Answers.{Shows, attributes}
use pingfs.Fs.BlockFuse.Represents.Replacing.{Succeeds}
use pingfs.Fs.BlockFuse.Represents.Parents.{Parts}
use pingfs.Fs.BlockFuse.Represents.Inserting.{new_entry}
use pingfs.Fs.BlockFuse.Represents.Made.{made-getattr}
use pingfs.Fs.BlockFuse.Represents.Mkdir.{mkdir-add_entry}
use pingfs.Fs.BlockFuse.Represents.Create.{create-add_entry}

module _ {S : Type 0} (manager : BlockManager S) (path : Bytes) (names : List Bytes) (e : Entry)
    (k : ℕ) (stbuf : StatBuffer) where
  -- What `getattr` answers in the state that a call has left: at the path, and away from it
  -- as the tree does.
  pub record Answered (call : Result (ℤ × BlockFuse S)) (stat : Stat) : Type 0 where
    pub fuse' : BlockFuse S
    pub done : call ≡ ok (pos 0, fuse')
    pub here :
        getattr manager (suc k) path stbuf fuse'
        ≡ ok (pos 0, (update_stat stat fuse'.dev 1 stbuf, fuse'))
    pub elsewhere :
        (other : Bytes) (qs : List Bytes)
        → separate_path other ≡ ok (get_separator ∷ qs)
        → diverges names qs ≡ true
        → getattr manager (suc k) other stbuf fuse' ≡ ok (attributes fuse' stbuf (resolve qs e))

module _ {S : Type 0} (manager : BlockManager S) (contract : IsBlockManager manager) (sys : System)
    (n : ℕ) {path : Bytes} {parents : List Bytes} {name : Bytes} (parts : Parts path parents name)
    (fuse : BlockFuse S) (e : Entry) (shows : Shows contract n fuse e) (unique : Unique e)
    (absent : resolve (parents ++ name ∷ []) e ≡ none) {dn : Bytes} {ds : Stat} {es : Entries}
    (parent : resolve parents e ≡ some (directory dn ds es)) (k : ℕ) (deep : n ≤ k)
    (stbuf : StatBuffer) (room : length parents + 2 ≤ contract.capacity fuse.blocks) where
  made-Answered :
      {call : Result (ℤ × BlockFuse S)} (stat : Stat)
      → Succeeds manager contract n call fuse parents
          (add_entry (new_entry name stat))
          e
          (length parents + 2)
      → Answered manager path (parents ++ name ∷ []) e k stbuf call stat
  made-Answered stat made =
      let (here, elsewhere) = made-getattr parts unique parent absent stat made k deep stbuf in
      record { fuse' = made.fuse'; done = made.done; here = here; elsewhere = elsewhere }

  -- `mkdir` of a path that leads to nothing and whose parent is a directory returns 0, if the type in
  -- the mode is known and there is room for two blocks more than the path has parents. `getattr` of
  -- the path then returns the attributes of a directory made now, with that mode and size 1, and
  -- `getattr` of each path that parts from it answers as the old tree does. The file system stands
  -- for a tree of names with no name twice in a directory, the fuel covers the layers of links, and
  -- the path is not one right below `//`.
  pub mkdir-getattr :
      (mode : ℕ) (dir_mode : Mode)
      → of_mode_t (bit_or mode s_ifdir) ≡ ok dir_mode
      → Answered manager path
          (parents ++ name ∷ [])
          e
          k
          stbuf
          (mkdir manager (block_fuse_virtuals manager) sys (suc k) stbuf path mode fuse)
          (new_stat sys dir_mode 1)
  mkdir-getattr mode dir_mode typed = made-Answered (new_stat sys dir_mode 1) (
      mkdir-add_entry manager contract sys n parts fuse e shows k deep stbuf mode dir_mode
        (directory dn ds es) typed absent parent refl room)

  -- `create` of a path that leads to nothing and whose parent is a directory returns 0, if the mode has
  -- a known type and there is room for two blocks more than the path has parents. `getattr` of the
  -- path then returns the attributes of an entry made now, with that mode and size 0, and `getattr` of
  -- each path that parts from it answers as the old tree does. The file system stands for a tree of
  -- names with no name twice in a directory, the fuel covers the layers of links, and the path is not
  -- one right below `//`.
  pub create-getattr :
      (mode : ℕ) (file_mode : Mode)
      → of_mode_t mode ≡ ok file_mode
      → Answered manager path
          (parents ++ name ∷ [])
          e
          k
          stbuf
          (create manager (block_fuse_virtuals manager) sys (suc k) path mode fuse)
          (new_stat sys file_mode 0)
  create-getattr mode file_mode typed = made-Answered (new_stat sys file_mode 0) (
      create-add_entry manager contract sys n parts fuse e shows unique absent file_mode k deep mode
        typed parent room)

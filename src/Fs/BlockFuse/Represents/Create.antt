-- ===== src/Fs/BlockFuse/Represents/Create.antt =====
-- `create` of lib/src/fs/block_fuse.cc against the tree of names.
use pingfs.Base.{
  ℕ, suc, ◌+◌, ◌≤◌, true, List, [], ◌∷◌, ◌++◌, none, some, Bytes, Result, ok, ◌≡◌, refl, ap, arith,
  length, inl, inr,
}
use pingfs.Base.Numbers.{ℤ, pos}
use pingfs.BlockData.Mode.{Mode, of_mode_t}
use pingfs.BlockData.Stat.{Stat}
use pingfs.BlockData.Block.{Block}
use pingfs.BlockManager.Interface.{BlockManager, IsBlockManager}
use pingfs.Fs.FsUtil.{get_separator}
use pingfs.Fs.Tree.{Entry, Entries, is_directory, add_entry, resolve}
use Entry.{directory}
use pingfs.Fs.Tree.Laws.{Unique}
use pingfs.Fs.BlockFuse.{BlockFuse, get_path}
use pingfs.Fs.BlockFuse.Directories.{System, block_fuse_virtuals, new_stat}
use pingfs.Fs.BlockFuse.Contents.{create_file_block, create}
use pingfs.Fs.BlockFuse.Represents.Answers.{Shows, get_path-cases_le}
use pingfs.Fs.BlockFuse.Represents.Replacing.{Succeeds, length-Way}
use pingfs.Fs.BlockFuse.Represents.Parents.{back-snoc, pop_back-snoc, Parts, parent_of}
use pingfs.Fs.BlockFuse.Represents.Inserting.{childless, new_entry, Inserted, inserted}
use pingfs.Fs.BlockFuse.Represents.Made.{made-resolve}

module _ {S : Type 0} (manager : BlockManager S) (contract : IsBlockManager manager) (sys : System)
    (n : ℕ) {path : Bytes} {parents : List Bytes} {name : Bytes} (parts : Parts path parents name)
    (fuse : BlockFuse S) (e : Entry) (shows : Shows contract n fuse e) (unique : Unique e)
    (absent : resolve (parents ++ name ∷ []) e ≡ none) (file_mode : Mode) (k : ℕ)
    (deep : n ≤ k) where
  -- `create_file_block` below a directory.
  create_file_block-Inserted :
      {blocks : List Block}
      (ins : Inserted manager contract n fuse blocks
        (childless name (new_stat sys file_mode 0))
        parents
        e
        (new_entry name (new_stat sys file_mode 0)))
      {b : Block} {bs : List Block}
      → get_path manager (suc k) path fuse ≡ ok ([], fuse)
      → get_path manager (suc k) (parent_of parts).path fuse ≡ ok (fuse.root_block ∷ blocks, fuse)
      → get_path manager (suc k) path (ins.replaced).fuse' ≡ ok (b ∷ bs, (ins.replaced).fuse')
      → create_file_block manager (block_fuse_virtuals manager) sys (suc k) path 0 file_mode fuse
        ≡ ok (some (b ∷ bs), (ins.replaced).fuse')
  unfolding create_file_block
  create_file_block-Inserted ins missing got again = rw (
    missing,
    parts.cut,
    pop_back-snoc (get_separator ∷ parents) name,
    (parent_of parts).joined,
    got,
    back-snoc (get_separator ∷ parents) name,
    ins.made,
    (ins.replaced).done,
    again,
  )

  -- A file system in which the entry was put, as the result of a call.
  abbrev put :
      {blocks : List Block} {names : List Bytes} {entry : Entry} {stat : Stat}
      (call : Result (ℤ × BlockFuse S))
      (ins : Inserted manager contract n fuse blocks (childless name stat) names e entry)
      → call ≡ ok (pos 0, (ins.replaced).fuse')
      → length blocks ≡ length names
      → Succeeds manager contract n call fuse names (add_entry entry) e (length names + 2)
  put call ins done same = record {
    tree = ins.tree;
    changed = ins.rebuilt;
    fuse' = (ins.replaced).fuse';
    done = done;
    shows = (ins.replaced).shows;
    room = omega (arith, (ins.replaced).room, same);
  }

  -- `create` of a path that leads to nothing, in a file system that stands for a tree of names in
  -- which no directory has a name twice, returns 0 and leaves one that stands for the tree with a new
  -- entry of that name as the last of its parent's, if the parent is a directory, the mode has a
  -- known type, and there is room for two blocks more than the path has parents. The new entry is what
  -- its mode says: an empty directory if the type of the mode is that of a directory, an empty file if
  -- it is any other. Each directory on the way moves to the end of the entries of its own parent. The
  -- fuel has to cover the layers of links, and the path is not one right below `//`.
  pub create-add_entry :
      (mode : ℕ) {dn : Bytes} {ds : Stat} {es : Entries}
      → of_mode_t mode ≡ ok file_mode
      → resolve parents e ≡ some (directory dn ds es)
      → length parents + 2 ≤ contract.capacity fuse.blocks
      → Succeeds manager contract n
          (create manager (block_fuse_virtuals manager) sys (suc k) path mode fuse)
          fuse
          parents
          (add_entry (new_entry name (new_stat sys file_mode 0)))
          e
          (length parents + 2)
  unfolding create
  create-add_entry mode {dn} {ds} {es} typed found room =
      elim (get_path-cases_le manager contract n (parent_of parts).path parents
        (parent_of parts).cut fuse e shows k deep) [
          | inl (missing, got) ↦ absurd (cc (missing, found))
          | inr (r, got) ↦
              let dir : is_directory r.entry ≡ true =
                ap is_directory {y = directory dn ds es} (cc (found, r.resolved)) in
              let stat = new_stat sys file_mode 0 in
              let ins =
                inserted manager contract shows name stat r.walk dir
                  (omega (arith, room, length-Way r.walk)) in
              let fuse' = (ins.replaced).fuse' in
              let there =
                made-resolve parts unique found absent stat
                  (put (ok (pos 0, fuse')) ins refl (length-Way r.walk)) in
              elim (get_path-cases_le manager contract n path (parents ++ name ∷ []) parts.cut fuse
                e shows k deep) [
                  | inr (r', _) ↦ absurd (cc (r'.resolved, absent))
                  | inl (_, missing) ↦
                      elim (get_path-cases_le manager contract n path (parents ++ name ∷ [])
                        parts.cut fuse' ins.tree (ins.replaced).shows k deep) [
                          | inl (gone, _) ↦ absurd (cc (gone, there))
                          | inr (r', again) ↦
                              put _ ins
                                (rw (
                                  missing,
                                  typed,
                                  create_file_block-Inserted ins missing got again,
                                ))
                                (length-Way r.walk)
                        ]
                ]
        ]

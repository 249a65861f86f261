-- ===== src/Fs/BlockFuse/Represents/Mkdir.antt =====
-- `mkdir` of lib/src/fs/block_fuse.cc against the tree of names.
use pingfs.Base.{
  ℕ, suc, ◌+◌, ◌≤◌, ltb, true, List, [], ◌∷◌, ◌++◌, Option, none, some, Bytes, ok, ◌≡◌, arith,
  length, length-append, nat_eq, ◌⊎◌, inl, inr,
}
use Prim.Native.Nat.{bit_or}
use pingfs.Base.Numbers.{pos, neg, is_zero}
use pingfs.BlockData.FileType.{s_ifdir}
use pingfs.BlockData.Mode.{Mode, of_mode_t}
use pingfs.BlockData.Stat.{StatBuffer}
use pingfs.BlockData.Data.{DirFileBlockData}
use pingfs.BlockData.Block.{Block}
use pingfs.BlockManager.Interface.{BlockManager, IsBlockManager}
use pingfs.Fs.FsUtil.{get_separator}
use pingfs.Fs.BlockFuse.Represents.Parents.{back-snoc, pop_back-snoc, Parts, parent_of}
use pingfs.Fs.BlockUtil.{try_cast_dir_file}
use pingfs.Fs.Tree.{Entry, is_directory, add_entry, resolve}
use pingfs.Fs.Tree.Resolve.{resolve-append_none}
use pingfs.Fs.BlockFuse.{BlockFuse, back, get_path, enoent}
use pingfs.Fs.BlockFuse.Directories.{System, block_fuse_virtuals, new_stat, mkdir_valid, mkdir}
use pingfs.Fs.BlockFuse.Represents.Answers.{
  Shows, get_path-cases_le, getattr-resolve, back-Way, data-Holds, try_cast-data,
}
use pingfs.Fs.BlockFuse.Represents.Replacing.{Succeeds, length-Way}
use pingfs.Fs.BlockFuse.Represents.Inserting.{new_entry, inserted}

module _ {S : Type 0} (manager : BlockManager S) (contract : IsBlockManager manager) (sys : System)
    (n : ℕ) {path : Bytes} {parents : List Bytes} {name : Bytes} (parts : Parts path parents name)
    (fuse : BlockFuse S) (e : Entry) (shows : Shows contract n fuse e) (k : ℕ) (deep : n ≤ k)
    (stbuf : StatBuffer) where
  -- `errno` is set by the search for the path that is to be made.
  abbrev pub searched : BlockFuse S
  searched = record fuse { errno = enoent }

  searched-Shows : Shows contract n searched e
  searched-Shows = record { valid = shows.valid; root = shows.root; distinct = shows.distinct }

  -- The checks before a directory is made, if there is nothing yet.
  mkdir_valid-parent :
      (blocks : List Block) (block : Block) (d : DirFileBlockData)
      → resolve (parents ++ name ∷ []) e ≡ none
      → get_path manager (suc k) ((parent_of parts).path) searched ≡ ok (blocks, searched)
      → back blocks ≡ some block
      → try_cast_dir_file block ≡ some d
      → mkdir_valid manager (block_fuse_virtuals manager) (suc k) path stbuf fuse
        ≡ ok (some (blocks, name), searched)
  unfolding mkdir_valid is_zero neg
  mkdir_valid-parent blocks block d absent got last cast =
      let long : ltb 1 (suc (length (parents ++ name ∷ []))) ≡ true =
        ground (arith, length-append parents (name ∷ [])) in
      let answer =
        getattr-resolve manager contract n path (parents ++ name ∷ []) parts.cut fuse e shows k deep
          stbuf in
      rw
        (
          parts.cut,
          long,
          answer,
          absent,
          pop_back-snoc (get_separator ∷ parents) name,
          (parent_of parts).joined,
          got,
        )
        (ground (arith, last, cast, back-snoc (get_separator ∷ parents) name))

  -- `mkdir` of a path that leads to nothing, in a file system that stands for a tree of names, returns
  -- 0 and leaves one that stands for the tree with an empty directory of that name as the last entry
  -- of the parent, if the parent is a directory, the type in the mode is known, and there is room for
  -- two blocks more than the path has parents. Each directory on the way moves to the end of the
  -- entries of its own parent. The fuel has to cover the layers of links, and the path is
  -- not one right below `//`.
  pub mkdir-add_entry :
      (mode : ℕ) (dir_mode : Mode) (parent : Entry)
      → of_mode_t (bit_or mode s_ifdir) ≡ ok dir_mode
      → resolve (parents ++ name ∷ []) e ≡ none
      → resolve parents e ≡ some parent
      → is_directory parent ≡ true
      → length parents + 2 ≤ contract.capacity fuse.blocks
      → Succeeds manager contract n
          (mkdir manager (block_fuse_virtuals manager) sys (suc k) stbuf path mode fuse)
          fuse
          parents
          (add_entry (new_entry name (new_stat sys dir_mode 1)))
          e
          (length parents + 2)
  unfolding mkdir
  mkdir-add_entry mode dir_mode parent typed absent found type room =
      elim (get_path-cases_le manager contract n (parent_of parts).path parents
        (parent_of parts).cut searched e searched-Shows k deep) [
          | inl (missing, got) ↦ absurd (cc (missing, found))
          | inr (r, got) ↦
              let dir : is_directory r.entry ≡ true = cc (found, r.resolved, type) in
              let (d, is, same) = data-Holds r.holds in
              let cast = try_cast-data r.block d is in
              let checked =
                mkdir_valid-parent (fuse.root_block ∷ r.path) r.block d absent got (back-Way r.walk)
                  cast in
              let ins =
                inserted manager contract searched-Shows name (new_stat sys dir_mode 1) r.walk dir
                  (omega (arith, room, length-Way r.walk)) in
              record {
                tree = ins.tree;
                changed = ins.rebuilt;
                fuse' = (ins.replaced).fuse';
                done = rw (checked, typed, ins.made, (ins.replaced).done);
                shows = (ins.replaced).shows;
                room = omega (arith, (ins.replaced).room, length-Way r.walk);
              }
        ]

  absent-child : resolve parents e ≡ none → resolve (parents ++ name ∷ []) e ≡ none
  absent-child = resolve-append_none parents (name ∷ []) e

  -- What a refused `mkdir` leaves behind.
  abbrev pub refused : Option Entry → BlockFuse S
  refused (some c) = fuse
  refused none = searched

  -- `mkdir` of a path that leads to an entry, or whose parent the tree does not have, returns 1; it
  -- changes nothing in the first case, and nothing but `errno` in the second. The file system stands
  -- for a tree of names, the fuel covers the layers of links, and the path is not one right below
  -- `//`, as the code takes `//` to be the root when it looks for the parent.
  pub mkdir-refuses :
      (mode : ℕ)
      → ((c : Entry) × (resolve (parents ++ name ∷ []) e ≡ some c)) ⊎ (resolve parents e ≡ none)
      → mkdir manager (block_fuse_virtuals manager) sys (suc k) stbuf path mode fuse
        ≡ ok (pos 1, refused (resolve (parents ++ name ∷ []) e))
  unfolding mkdir mkdir_valid is_zero neg back
  mkdir-refuses mode why =
      let long : ltb 1 (suc (length (parents ++ name ∷ []))) ≡ true =
        ground (arith, length-append parents (name ∷ [])) in
      let answer =
        getattr-resolve manager contract n path (parents ++ name ∷ []) parts.cut fuse e shows k deep
          stbuf in
      elim why [
        | inl (c, found) ↦ rw (parts.cut, long, answer, found)
        | inr missing ↦
            elim (get_path-cases_le manager contract n (parent_of parts).path parents
              (parent_of parts).cut searched e searched-Shows k deep) [
                | inr (r, _) ↦ absurd (cc (missing, r.resolved))
                | inl (_, got) ↦ rw (
                  parts.cut,
                  long,
                  answer,
                  absent-child missing,
                  pop_back-snoc (get_separator ∷ parents) name,
                  (parent_of parts).joined,
                  got,
                )
              ]
      ]

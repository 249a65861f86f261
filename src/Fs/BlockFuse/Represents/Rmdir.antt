-- ===== src/Fs/BlockFuse/Represents/Rmdir.antt =====
-- `rmdir` of lib/src/fs/block_fuse.cc against the tree of names.
use pingfs.Base.{
  ℕ, suc, ◌+◌, ◌≤◌, ◌<◌, List, [], ◌∷◌, ◌++◌, none, some, Bytes, ok, ◌>>=◌, ◌≡◌, ◌≢◌, refl, sym, ap,
  subst, ◌∙◌, arith, length, inl, inr, Option-cases,
}
use mathlib.Core.List.{reverse}
use pingfs.Base.Numbers.{pos}
use pingfs.Base.Counts.{count-append}
use pingfs.BlockData.Data.{BlockId, DirFileBlockData, dir_file}
use pingfs.BlockData.Block.{Block}
use pingfs.BlockManager.Interface.{BlockManager, IsBlockManager}
use pingfs.Fs.FsUtil.{get_separator, separate_path}
use pingfs.Fs.BlockUtil.{try_cast_link}
use pingfs.Fs.BlockUtil.Layers.{ids_of, ids_of-append}
use pingfs.Fs.BlockUtil.Links.{recursive_free_children_blocks}
use pingfs.Fs.BlockUtil.Freeing.{Subtree, Agrees, below, free_below}
use pingfs.Fs.Tree.{Entry, without, resolve, depth}
use pingfs.Fs.BlockFuse.{BlockFuse}
use pingfs.Fs.BlockFuse.Directories.{
  block_fuse_virtuals, last_dir_file, replace_path, rmdir_path, rmdir,
}
use pingfs.Fs.BlockFuse.Represents.{hit, count, under, uses}
use pingfs.Fs.BlockFuse.Represents.Frame.{Holds-Keeps, uses-there}
use pingfs.Fs.BlockFuse.Represents.Answers.{Shows, get_path-cases_le, back-Way, data-Holds}
use pingfs.Fs.BlockFuse.Represents.Replacing.{
  Succeeds, replace_path-Keeping, length-Way, count-Way, uses-Way,
}
use pingfs.Fs.BlockFuse.Represents.Depth.{subtree}
use pingfs.Fs.BlockFuse.Represents.Removing.{Above, above, removed, reverse-snoc, reverse-back}

last_dir_file-directory :
    (child block : Block) (rest : List Block) {d : DirFileBlockData}
    → block.data_ ≡ dir_file d
    → last_dir_file child (block ∷ rest) ≡ ok (child, block ∷ rest)
unfolding last_dir_file try_cast_link
last_dir_file-directory child block rest is = rw is

module _ {S : Type 0} (manager : BlockManager S) (contract : IsBlockManager manager) (n : ℕ)
    (fuse : BlockFuse S) (e : Entry) (shows : Shows contract n fuse e) {parents : List Bytes}
    {name : Bytes} {path : List Block} {b' : Block} {e' : Entry}
    (a : Above shows.root parents name path b' e') where
  abbrev target : Block
  target = (a.found).target

  abbrev parent_path : List Block
  parent_path = fuse.root_block ∷ a.front_path

  -- The walk of `rmdir` from the target to its parent.
  rmdir_path-parent :
      (fuel : ℕ)
      → rmdir_path manager
          (block_fuse_virtuals manager)
          fuel
          (parent_path ++ target ∷ [])
          (reverse (parent_path ++ target ∷ []))
          fuse
        ≡ (replace_path manager
              (block_fuse_virtuals manager)
              (reverse parent_path)
              (target.block_id ∷ [])
              []
              (parent_path ++ target ∷ [])
              fuse
            >>= λ fuse'. recursive_free_children_blocks manager fuel target fuse'.blocks >>= λ s.
                ok (pos 0, record fuse' { blocks = s }))
  unfolding rmdir_path
  rmdir_path-parent fuel =
      let (rest, e) = reverse-back parent_path (back-Way a.way) in
      let (d, is, same) = data-Holds a.holds in
      rw (reverse-snoc parent_path target, e, last_dir_file-directory target a.block rest is) refl

  -- The replacement of the path, with the target and the old blocks of the path freed.
  abbrev freed : List Block
  freed = parent_path ++ target ∷ []

  count-freed :
      (j : BlockId) → count j (ids_of freed) ≡ count j (ids_of parent_path) + hit j target.block_id
  count-freed j =
      ap (count j) (ids_of-append parent_path (target ∷ []))
      ∙ count-append j (ids_of parent_path) (target.block_id ∷ [])
      ∙ omega arith

  freed-used :
      (j : BlockId) → count j (ids_of freed) + under j (a.found).target_holds ≤ uses j shows.root
  freed-used j = omega (arith, count-freed j, count-Way j a.way, (a.dir).used j, (a.found).used j)

  there : (j : BlockId) → contract.look fuse.blocks j ≡ none → count j (ids_of freed) ≡ 0
  there j out = omega (arith, freed-used j, uses-there j shows.root out)

  used-there :
      (j : BlockId)
      → 1 ≤ under j (a.found).target_holds
      → (x : Block) × (contract.look fuse.blocks j ≡ some x)
  used-there j le = elim (Option-cases (contract.look fuse.blocks j)) [
    | inl out ↦ absurd (omega (arith, le, freed-used j, uses-there j shows.root out))
    | inr found ↦ found
  ]

  -- Freeing what is below the target takes nothing from a tree that does without it.
  record Cleared (k : ℕ) (fuse1 : BlockFuse S) (e2 : Entry) : Type 0 where
    state : S
    done : recursive_free_children_blocks manager (suc k) target fuse1.blocks ≡ ok state
    shows1 : Shows contract n (record fuse1 { blocks = state }) e2
    room : contract.capacity state ≡ contract.capacity fuse1.blocks

  cleared :
      (k : ℕ) (fuse1 : BlockFuse S) {e2 : Entry} (new : Shows contract n fuse1 e2)
      → depth n (a.found).entry ≤ k
      → ((j : BlockId) (x : Block)
          → contract.look fuse.blocks j ≡ some x
          → count j (ids_of freed) ≡ 0
          → contract.look fuse1.blocks j ≡ some x)
      → ((j : BlockId)
          → contract.look fuse.blocks j ≢ none
          → uses j new.root + under j (a.found).target_holds ≤ uses j shows.root)
      → Cleared k fuse1 e2
  cleared k fuse1 new deep kept left =
      let tree =
        subtree (λ i b at. contract.same_id i b fuse.blocks shows.valid at) (a.found).target_holds k
          deep in
      let agrees : Agrees manager contract (contract.look fuse.blocks) fuse1.blocks
          (λ j. below j tree.tree) =
        λ j le.
          let (x, at) = used-there j (omega (arith, le, tree.counts j)) in
          kept j x at (omega (arith, le, tree.counts j, freed-used j, shows.distinct j)) ∙ sym at in
      let f =
        free_below manager contract tree.tree fuse1.blocks new.valid
          (λ j. omega (arith, tree.counts j, freed-used j, shows.distinct j)) agrees in
      let (holds, same) =
        Holds-Keeps new.root (λ j x le at. f.kept j (unused tree.tree tree.counts j le) ∙ at) in
      record {
        state = f.state;
        done = f.done;
        shows1 = record {
          valid = f.valid;
          root = holds;
          distinct = λ j. omega (arith, same j, new.distinct j);
        };
        room = f.room;
      }
    where
      unused :
          (t : Subtree (contract.look fuse.blocks) k target)
          → ((j : BlockId) → under j (a.found).target_holds ≡ below j t)
          → (j : BlockId) → 1 ≤ uses j new.root
          → below j t ≡ 0
      unused t counts j le = elim (Option-cases (contract.look fuse.blocks j)) [
        | inl out ↦ omega (arith, counts j, freed-used j, uses-there j shows.root out)
        | inr (x, at) ↦ omega (arith, le, counts j, left j (λ out. cc (at, out)), shows.distinct j)
      ]

  rmdir_path-Succeeds :
      (k : ℕ)
      → depth n (a.found).entry ≤ k
      → length a.front_path < contract.capacity fuse.blocks
      → Succeeds manager contract n
          (rmdir_path manager (block_fuse_virtuals manager) (suc k) freed (reverse freed) fuse)
          fuse
          parents
          (without name)
          e
          (suc (length a.front_path))
  rmdir_path-Succeeds k deep room =
      let rm = removed a.dir a.found (λ j. omega (arith, shows.distinct j, uses-Way j a.way)) in
      let (e2, made, r, keeping) =
        replace_path-Keeping manager contract shows a.way freed (target.block_id ∷ []) []
          (without name) fuse.blocks shows.valid (λ j x at. at) rm.change room there
          (λ j. omega (
            arith,
            shows.distinct j,
            rm.sums j,
            count-freed j,
            (a.dir).used j,
            (a.found).used j,
          )) in
      let c = cleared k r.fuse' r.shows deep keeping.kept (λ j here.
        omega (arith, keeping.left j here, rm.sums j, (a.dir).used j, (a.found).used j)) in
      record {
        tree = e2;
        changed = made;
        fuse' = record r.fuse' { blocks = c.state };
        done = rmdir_path-parent (suc k) ∙ rw (r.done, c.done);
        shows = c.shows1;
        room = omega (arith, r.room, c.room);
      }

module _ {S : Type 0} (manager : BlockManager S) (contract : IsBlockManager manager) (n : ℕ)
    (path : Bytes) (parents : List Bytes) (name : Bytes)
    (cut : separate_path path ≡ ok (get_separator ∷ (parents ++ name ∷ []))) (fuse : BlockFuse S)
    (e : Entry) (shows : Shows contract n fuse e) where
  -- `rmdir` of a path that leads to an entry of a file system that stands for a tree of names returns
  -- 0 and leaves one that stands for the tree without that entry, be it a directory that has entries
  -- or a file, if a block can be made for each directory on the path. The fuel has to cover the layers of links
  -- of each file and the generations below the entry.
  pub rmdir-without :
      (k : ℕ) {e' : Entry}
      → n ≤ k
      → depth n e' ≤ k
      → resolve (parents ++ name ∷ []) e ≡ some e'
      → length parents < contract.capacity fuse.blocks
      → Succeeds manager contract n
          (rmdir manager (block_fuse_virtuals manager) (suc k) path fuse)
          fuse
          parents
          (without name)
          e
          (suc (length parents))
  unfolding rmdir
  rmdir-without k {e'} le deep found room =
      elim (get_path-cases_le manager contract n path (parents ++ name ∷ []) cut fuse e shows k
        le) [
          | inl (missing, _) ↦ absurd (cc (missing, found))
          | inr (r, got) ↦
              let a = above parents r.walk in
              let same : (a.found).entry ≡ e' = a.entry_is ∙ cc (r.resolved, found) in
              let len = length-Way a.way in
              let q =
                rmdir_path-Succeeds manager contract n fuse e shows a k
                  (subst (λ c. depth n c ≤ k) (sym same) deep) (omega (arith, room, len)) in
              record {
                tree = q.tree;
                changed = q.changed;
                fuse' = q.fuse';
                done = rw got (
                    ap
                      (λ p.
                        rmdir_path manager (block_fuse_virtuals manager) (suc k)
                          (fuse.root_block ∷ p) (reverse (fuse.root_block ∷ p)) fuse)
                      a.path_is
                    ∙ q.done);
                shows = q.shows;
                room = omega (arith, q.room, len);
              }
        ]

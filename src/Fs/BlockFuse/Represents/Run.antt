-- ===== src/Fs/BlockFuse/Represents/Run.antt =====
-- Runs of `mkdir`, `create` and `rmdir` of lib/src/fs/block_fuse.cc, from the constructor on, against
-- the steps of the tree of names.
use pingfs.Base.{
  ℕ, suc, ◌+◌, ◌≤◌, List, [], ◌∷◌, some, Bytes, Result, ok, ◌>>=◌, ◌≡◌, refl, subst, arith,
}
use pingfs.Base.Numbers.{ℤ, pos}
use pingfs.BlockData.FileType.{file_type_beq}
use pingfs.BlockData.Data
use pingfs.BlockData.Stat
use pingfs.BlockData.Stat.{Stat, StatBuffer}
use pingfs.BlockManager.Interface.{BlockManager, IsBlockManager}
use pingfs.Fs.FsUtil.{get_separator, separate_path}
use pingfs.Fs.Tree.{Entry, Entries, without, resolve, rebuild}
use Entry.{directory}
use Entries.{nothing}
use pingfs.Fs.Tree.Laws.{Unique}
use pingfs.Fs.Tree.Unique.{Unique-rebuild, UniqueAll-without}
use pingfs.Fs.BlockFuse.{BlockFuse, getattr}
use pingfs.Fs.BlockFuse.Directories.{
  System, block_fuse_virtuals, block_fuse, make_root_block_data, root_stat, new_stat,
}
use pingfs.Fs.BlockFuse.Represents.Answers.{Shows, attributes, getattr-resolve}
use pingfs.Fs.BlockFuse.Represents.Replacing.{Succeeds}
use pingfs.Fs.BlockFuse.Represents.Inserting.{New, New-Holds, new_entry}
use pingfs.Fs.BlockFuse.Represents.Mkdir.{mkdir-add_entry}
use pingfs.Fs.BlockFuse.Represents.Made.{made-Unique}
use pingfs.Fs.BlockFuse.Represents.Create.{create-add_entry}
use pingfs.Fs.BlockFuse.Represents.Rmdir.{rmdir-without}
use pingfs.Fs.BlockFuse.Represents.History.{
  Operation, Step, made, created, removed, Steps, stop, then, perform, perform_all, zeros,
}

module _ {S : Type 0} (manager : BlockManager S) (contract : IsBlockManager manager) (sys : System)
    (n k : ℕ) (deep : n ≤ k) (stbuf : StatBuffer) where
  -- A file system that stands for a tree with names that are unique in each directory, and has room.
  pub record Ready (fuse : BlockFuse S) (e : Entry) (room : ℕ) : Type 0 where
    pub shows : Shows contract n fuse e
    pub unique : Unique e
    pub capacity : room ≤ contract.capacity fuse.blocks

  pub record Done (call : Result (ℤ × BlockFuse S)) (e : Entry) (room : ℕ) : Type 0 where
    pub fuse' : BlockFuse S
    pub done : call ≡ ok (pos 0, fuse')
    pub ready : Ready fuse' e room

  succeeds-Done :
      {call : Result (ℤ × BlockFuse S)} {fuse : BlockFuse S} {parents : List Bytes}
      {f : Entries → Entries} {e e2 : Entry} {spent room : ℕ}
      (r : Succeeds manager contract n call fuse parents f e spent)
      → Unique r.tree
      → rebuild parents f e ≡ some e2
      → spent + room ≤ contract.capacity fuse.blocks
      → Done call e2 room
  succeeds-Done {e2} r unique changed enough =
      let same : r.tree ≡ e2 = cc (r.changed, changed) in
      record {
        fuse' = r.fuse';
        done = r.done;
        ready = record {
          shows = subst (Shows contract n r.fuse') same r.shows;
          unique = subst Unique same unique;
          capacity = omega (arith, enough, r.room);
        };
      }

  step-Done :
      (op : Operation) (fuse : BlockFuse S) {e e2 : Entry} {cost room : ℕ}
      → Step n k sys e op cost e2
      → Ready fuse e (cost + room)
      → Done (perform manager sys (suc k) stbuf op fuse) e2 room
  unfolding perform
  step-Done op fuse {e} (made {mode} {dir_mode} {dn} {ds} {es} parts typed absent found changed)
        ready =
      let r =
        mkdir-add_entry manager contract sys n parts fuse e ready.shows k deep stbuf mode dir_mode
          (directory dn ds es) typed absent found refl (omega (arith, ready.capacity)) in
      succeeds-Done r (made-Unique parts ready.unique found absent (new_stat sys dir_mode 1) r)
        changed ready.capacity
  step-Done op fuse {e} (created {mode} {file_mode} parts typed absent found changed) ready =
      let r =
        create-add_entry manager contract sys n parts fuse e ready.shows ready.unique absent
          file_mode k deep mode typed found (omega (arith, ready.capacity)) in
      succeeds-Done r (made-Unique parts ready.unique found absent (new_stat sys file_mode 0) r)
        changed ready.capacity
  step-Done op fuse {e} (removed {path} {parents} {name} parts found shallow changed) ready =
      let r =
        rmdir-without manager contract n path parents name parts.cut fuse e ready.shows k deep
          shallow found (omega (arith, ready.capacity)) in
      let unique =
        Unique-rebuild parents (without name) e ready.unique r.changed
          (λ dn ds es at u. UniqueAll-without name es u) in
      succeeds-Done r unique changed ready.capacity

  -- What a run leaves when each operation returns 0.
  pub record DoneAll (call : Result (List ℤ × BlockFuse S)) (codes : List ℤ) (e : Entry) (room : ℕ)
      : Type 0 where
    pub fuse' : BlockFuse S
    pub done : call ≡ ok (codes, fuse')
    pub ready : Ready fuse' e room

  pub perform_all-Steps :
      (ops : List Operation) (fuse : BlockFuse S) {e e2 : Entry} {cost room : ℕ}
      → Steps n k sys e ops cost e2
      → Ready fuse e (cost + room)
      → DoneAll (perform_all manager sys (suc k) stbuf ops fuse) (zeros ops) e2 room
  unfolding perform_all
  perform_all-Steps [] fuse stop ready = record {
    fuse' = fuse;
    done = refl;
    ready = record {
      shows = ready.shows;
      unique = ready.unique;
      capacity = omega (arith, ready.capacity);
    };
  }
  perform_all-Steps (op ∷ ops) fuse (then {c} {d} s rest) ready =
      let one = step-Done op fuse s (record {
        shows = ready.shows;
        unique = ready.unique;
        capacity = omega (arith, ready.capacity);
      }) in
      let all = perform_all-Steps ops one.fuse' rest one.ready in
      record { fuse' = all.fuse'; done = rw (one.done, all.done); ready = all.ready }

-- The tree of a new file system.
abbrev pub root_entry : System → Entry
root_entry sys = directory get_separator (root_stat sys) nothing

root_entry-new : (sys : System) → new_entry get_separator (root_stat sys) ≡ root_entry sys
unfolding Data.is_dir Stat.is_dir file_type_beq
root_entry-new sys = refl

module _ {S : Type 0} (manager : BlockManager S) (contract : IsBlockManager manager) (sys : System)
    (n k : ℕ) (deep : n ≤ k) (stbuf : StatBuffer) where
  -- What the constructor leaves.
  record Started (call : Result (BlockFuse S)) (room : ℕ) : Type 0 where
    fuse : BlockFuse S
    done : call ≡ ok fuse
    ready : Ready manager contract sys n k deep stbuf fuse (root_entry sys) room

  block_fuse-Started :
      (dev errno room : ℕ) (s : S)
      → contract.IsValid s
      → suc room ≤ contract.capacity s
      → Started (block_fuse manager (block_fuse_virtuals manager) sys dev errno s) room
  unfolding block_fuse Unique
  block_fuse-Started dev errno room s valid enough =
      let (b, s', e, new, valid', cap) =
        contract.create (make_root_block_data sys) s valid (omega (arith, enough)) in
      let at : contract.look s' b.block_id ≡ some b = ground (arith, new.stored b.block_id) in
      let k' =
        subst (New (contract.look s') n b) (root_entry-new sys)
          (New-Holds n b get_separator (root_stat sys) at new.holds) in
      record {
        fuse = record { blocks = s'; root_block = b; dev = dev; errno = errno };
        done = rw e;
        ready = record {
          shows = record {
            valid = valid';
            root = k'.holds;
            distinct = λ j. ground (arith, k'.used j);
          };
          unique = tt;
          capacity = omega (arith, enough, cap);
        };
      }

  -- A run from the constructor on.
  pub record Ran (call : Result (List ℤ × BlockFuse S)) (codes : List ℤ) (e : Entry) : Type 0 where
    pub fuse' : BlockFuse S
    pub done : call ≡ ok (codes, fuse')
    pub shows : Shows contract n fuse' e
    pub unique : Unique e
    pub answers :
        (path : Bytes) (names : List Bytes)
        → separate_path path ≡ ok (get_separator ∷ names)
        → getattr manager (suc k) path stbuf fuse' ≡ ok (attributes fuse' stbuf (resolve names e))

  -- From the constructor on, every sequence of `mkdir`, `create` and `rmdir` that the tree of names
  -- can follow, from the empty root on, is run with the result 0 of each operation, if the block
  -- manager has room for the blocks that are made on the way, and no path is one right below `//`. At
  -- its end the blocks stand for the tree that the steps lead to, names are unique in every directory,
  -- and `getattr` of any path answers as that tree does.
  pub perform_all-Ran :
      (ops : List Operation) (dev errno : ℕ) (s : S) {e : Entry} {cost : ℕ}
      → contract.IsValid s
      → Steps n k sys (root_entry sys) ops cost e
      → suc cost ≤ contract.capacity s
      → Ran
          (block_fuse manager (block_fuse_virtuals manager) sys dev errno s >>= λ fuse.
            perform_all manager sys (suc k) stbuf ops fuse)
          (zeros ops)
          e
  perform_all-Ran ops dev errno s {cost} valid steps enough =
      let start = block_fuse-Started dev errno cost s valid enough in
      let ready = start.ready in
      let run =
        perform_all-Steps manager contract sys n k deep stbuf ops start.fuse {room = 0} steps
          (record {
            shows = ready.shows;
            unique = ready.unique;
            capacity = omega (arith, ready.capacity);
          }) in
      let last = run.ready in
      record {
        fuse' = run.fuse';
        done = rw (start.done, run.done);
        shows = last.shows;
        unique = last.unique;
        answers = λ path names cut.
            getattr-resolve manager contract n path names cut run.fuse' _ last.shows k deep stbuf;
      }

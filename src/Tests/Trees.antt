-- ===== src/Tests/Trees.antt =====
-- Runs of the file system, and of the tree of names that it stands for.
use pingfs.Base.{
  inl, inr, ◌≡◌, refl, [], ◌∷◌, List, Option, some, none, Bytes, ok, ◌>>=◌, codes, arith, list_beq,
  nat_eq,
}
use pingfs.Base.Numbers.{ℤ, pos, to_int}
use pingfs.BlockData.FileType
use Prim.Native.Nat.{bit_or}
use pingfs.BlockData.FileType.{FileType, s_ifdir, file_type_beq}
use pingfs.BlockData.Stat
use pingfs.BlockData.Stat.{Stat, StatBuffer, update_stat}
use pingfs.BlockData.Mode
use pingfs.BlockData.Mode.{Mode, of_mode_t}
use pingfs.BlockData.Data.{DirFileBlockData, is_dir}
use pingfs.BlockManager.Memory.Contract.{memory_contract, initial, initial-IsStore}
use pingfs.Fs.FsUtil.{separate_path, get_separator}
use pingfs.Fs.BlockUtil.Stores.{Stores}
use Stores.{nil, leaf, node}
use pingfs.Fs.BlockUtil.{get_children, try_cast_link, try_cast_dir_file}
use pingfs.Fs.BlockUtil.Links.{recursive_free_children_blocks}
use pingfs.Fs.BlockUtil.Freeing.{
  Subtree, Subtrees, Frees, below, below_all, recursive_free_children_blocks-Frees,
}
use Subtree.{childless, parent}
use Subtrees.{no_more, child}
use pingfs.Fs.Tree.{Entry, Entries, add_entry, find, resolve, rebuild, without, depth}
use pingfs.Fs.Tree.Laws.{Unique}
use pingfs.Base.Maps.{lookup}
use Entry.{directory, file}
use Entries.{nothing, more}
use pingfs.Fs.BlockFuse.{getattr, enoent}
use pingfs.Fs.BlockFuse.Contents.{read, create}
use pingfs.Fs.BlockFuse.Represents.{
  of_directory, of_file, none_left, one_more, cells, under, uses_all,
}
use pingfs.Fs.BlockFuse.Directories.{
  block_fuse_virtuals, block_fuse, root_stat, new_stat, mkdir, rmdir, readdir,
}
use pingfs.Fs.BlockFuse.Represents.Parents.{Parts}
use pingfs.Fs.BlockFuse.Represents.Inserting.{new_entry}
use pingfs.Fs.BlockFuse.Represents.Replacing.{Succeeds}
use pingfs.Fs.BlockFuse.Represents.Mkdir.{mkdir-add_entry, mkdir-refuses}
use pingfs.Fs.BlockFuse.Represents.After.{Answered, mkdir-getattr, create-getattr}
use pingfs.Fs.BlockFuse.Represents.Create.{create-add_entry}
use pingfs.Fs.BlockFuse.Represents.Rmdir.{rmdir-without}
use pingfs.Fs.BlockFuse.Represents.History.{
  Operation, makes, creates, removes, made, created, removed, Steps, stop, then, perform_all,
}
use pingfs.Fs.BlockFuse.Represents.Run.{root_entry, Ran, perform_all-Ran}
use pingfs.Fs.BlockFuse.Represents.Readdir.{fill_entries, readdir-resolve}
use pingfs.Fs.BlockFuse.Represents.Answers.{Shows, getattr-resolve, read-resolve}
use pingfs.Tests.Fixture.{
  manager, sys, blank, stat_of, file_inode, leaf_block, link_block, inode, root, store,
  store-IsStore, fuse,
}

-- The tree of the fixture: a file in the root.
abbrev tree : Entry
tree =
    directory (codes "/") (stat_of FileType.dir 0)
      (more (file (codes "a") (stat_of FileType.regular 5) (codes "hello")) nothing)

abbrev root_dir : DirFileBlockData
root_dir = record { name = codes "/"; stat = stat_of FileType.dir 0; children = 4 ∷ [] }

tree-Shows : Shows memory_contract 1 fuse tree
unfolding memory_contract lookup is_dir Stat.is_dir file_type_beq cells under uses_all
tree-Shows = record {
  valid = store-IsStore;
  root = of_directory {b = root} {d = root_dir} {inner = inode ∷ []} refl refl refl refl (
      one_more
        (of_file {b = inode} {d = file_inode} refl refl refl
          (node {b = link_block} refl refl (leaf {b = leaf_block} refl refl nil) nil))
        none_left);
  distinct = λ j. ground arith;
}

cut_a : separate_path (codes "/a") ≡ ok (get_separator ∷ codes "a" ∷ [])
unfolding separate_path list_beq get_separator
cut_a = refl

getattr-resolve_example :
    getattr manager 3 (codes "/a") blank fuse
    ≡ ok (pos 0, (update_stat (stat_of FileType.regular 5) 1 1 blank, fuse))
unfolding resolve find list_beq
getattr-resolve_example =
    getattr-resolve manager memory_contract 1 (codes "/a") (codes "a" ∷ []) cut_a fuse tree
      tree-Shows 2 (omega arith) blank

read-resolve_example : read manager 2 10 1 (codes "/a") fuse ≡ ok (to_int 4, (codes "ello", fuse))
unfolding resolve find list_beq
read-resolve_example =
    read-resolve manager memory_contract 1 (codes "/a") (codes "a" ∷ []) cut_a fuse tree tree-Shows
      1 (omega arith) 10 1 (omega arith)

cut_root : separate_path (codes "/") ≡ ok (get_separator ∷ [])
unfolding separate_path list_beq get_separator
cut_root = refl

Parts-b : Parts (codes "/b") [] (codes "b")
unfolding separate_path list_beq get_separator
Parts-b = record { cut = refl; plain = λ e. cc e }

mode_b : of_mode_t (bit_or 0o751 s_ifdir) ≡ ok (stat_of FileType.dir 0).mode
unfolding FileType.from_mode_t Mode.user_mode_from_mode_t Mode.group_mode_from_mode_t
    Mode.other_mode_from_mode_t Mode.bits_set of_mode_t
mode_b = refl

mode_file : of_mode_t 0o100751 ≡ ok (stat_of FileType.regular 0).mode
unfolding FileType.from_mode_t Mode.user_mode_from_mode_t Mode.group_mode_from_mode_t
    Mode.other_mode_from_mode_t Mode.bits_set of_mode_t
mode_file = refl

mkdir-add_entry_example :
    Succeeds manager memory_contract 1
      (mkdir manager (block_fuse_virtuals manager) sys 2 blank (codes "/b") 0o751 fuse)
      fuse
      []
      (add_entry (new_entry (codes "b") (new_stat sys (stat_of FileType.dir 0).mode 1)))
      tree
      2
unfolding resolve find list_beq memory_contract
mkdir-add_entry_example =
    mkdir-add_entry manager memory_contract sys 1 Parts-b fuse tree tree-Shows 1 (omega arith) blank
      0o751 (stat_of FileType.dir 0).mode tree mode_b refl refl refl (omega arith)

tree-Unique : Unique tree
unfolding Unique find
tree-Unique = (refl, (tt, tt))

root_at : resolve [] tree ≡ some tree
unfolding resolve
root_at = refl

absent_b : resolve (codes "b" ∷ []) tree ≡ none
unfolding resolve find list_beq
absent_b = refl

abbrev stat_b : Stat
stat_b = new_stat sys (stat_of FileType.dir 0).mode 1

mkdir-getattr_example :
    Answered manager
      (codes "/b")
      (codes "b" ∷ [])
      tree
      1
      blank
      (mkdir manager (block_fuse_virtuals manager) sys 2 blank (codes "/b") 0o751 fuse)
      (new_stat sys (stat_of FileType.dir 0).mode 1)
unfolding memory_contract
mkdir-getattr_example =
    mkdir-getattr manager memory_contract sys 1 Parts-b fuse tree tree-Shows tree-Unique absent_b
      root_at 1 (omega arith) blank (omega arith) 0o751 (stat_of FileType.dir 0).mode mode_b

create-getattr_example :
    Answered manager
      (codes "/b")
      (codes "b" ∷ [])
      tree
      1
      blank
      (create manager (block_fuse_virtuals manager) sys 2 (codes "/b") 0o100751 fuse)
      (new_stat sys (stat_of FileType.regular 0).mode 0)
unfolding memory_contract
create-getattr_example =
    create-getattr manager memory_contract sys 1 Parts-b fuse tree tree-Shows tree-Unique absent_b
      root_at 1 (omega arith) blank (omega arith) 0o100751 (stat_of FileType.regular 0).mode
      mode_file

Parts-a : Parts (codes "/a") [] (codes "a")
unfolding separate_path list_beq get_separator
Parts-a = record { cut = refl; plain = λ e. cc e }

Parts-xy : Parts (codes "/x/y") (codes "x" ∷ []) (codes "y")
unfolding separate_path list_beq get_separator
Parts-xy = record { cut = refl; plain = λ e. cc e }

-- A path that is there, and one whose parent is missing.
mkdir-refuses_example :
    (mkdir manager (block_fuse_virtuals manager) sys 3 blank (codes "/a") 0o751 fuse
      ≡ ok (pos 1, fuse))
    × (mkdir manager (block_fuse_virtuals manager) sys 3 blank (codes "/x/y") 0o751 fuse
        ≡ ok (pos 1, record fuse { errno = enoent }))
unfolding resolve find list_beq
mkdir-refuses_example = (
  mkdir-refuses manager memory_contract sys 1 Parts-a fuse tree tree-Shows 2 (omega arith) blank
      0o751 (inl (_, refl)),
  mkdir-refuses manager memory_contract sys 1 Parts-xy fuse tree tree-Shows 2 (omega arith) blank
      0o751 (inr refl),
)

create-add_entry_example :
    Succeeds manager memory_contract 1
      (create manager (block_fuse_virtuals manager) sys 2 (codes "/b") 0o100751 fuse)
      fuse
      []
      (add_entry (new_entry (codes "b") (new_stat sys (stat_of FileType.regular 0).mode 0)))
      tree
      2
unfolding resolve memory_contract
create-add_entry_example =
    create-add_entry manager memory_contract sys 1 Parts-b fuse tree tree-Shows tree-Unique absent_b
      (stat_of FileType.regular 0).mode 1 (omega arith) 0o100751 mode_file refl (omega arith)

rmdir-without_example :
    Succeeds manager memory_contract 1
      (rmdir manager (block_fuse_virtuals manager) 3 (codes "/a") fuse)
      fuse
      []
      (without (codes "a"))
      tree
      1
unfolding resolve find list_beq depth memory_contract
rmdir-without_example =
    rmdir-without manager memory_contract 1 (codes "/a") [] (codes "a") cut_a fuse tree tree-Shows 2
      (omega arith) (omega arith) refl (omega arith)

-- A callback that keeps the names.
abbrev filler : Bytes → Option StatBuffer → List Bytes → ℤ × List Bytes
filler name stbuf names = (pos 0, name ∷ names)

readdir-resolve_example :
    readdir manager filler 2 blank (codes "/") [] fuse
    ≡ ok (pos 0, (codes "a" ∷ codes ".." ∷ codes "." ∷ [], fuse))
unfolding resolve fill_entries
readdir-resolve_example =
    readdir-resolve manager memory_contract filler 1 (codes "/") [] cut_root fuse tree tree-Shows 1
      (omega arith) blank [] (codes ".." ∷ codes "." ∷ []) refl refl
      (record { buf1 = codes "." ∷ []; dot = refl; dots = refl })

-- A directory, a file in it, and the directory removed.
abbrev ops : List Operation
ops = makes (codes "/b") 0o751 ∷ creates (codes "/b/f") 0o100751 ∷ removes (codes "/b") ∷ []

abbrev dir_b : Entries → Entry
dir_b es = directory (codes "b") stat_b es

abbrev root_of : Entries → Entry
root_of es = directory (codes "/") (root_stat sys) es

abbrev file_f : Entry
file_f = file (codes "f") (new_stat sys (stat_of FileType.regular 0).mode 0) []

Parts-f : Parts (codes "/b/f") (codes "b" ∷ []) (codes "f")
unfolding separate_path list_beq get_separator
Parts-f = record { cut = refl; plain = λ e. cc e }

ops-Steps : Steps 0 2 sys (root_entry sys) ops 6 (root_of nothing)
unfolding resolve rebuild find without list_beq depth get_separator is_dir Stat.is_dir file_type_beq
ops-Steps =
    then (made {e2 = root_of (more (dir_b nothing) nothing)} Parts-b mode_b refl refl refl) (
      then
        (created {e2 = root_of (more (dir_b (more file_f nothing)) nothing)} Parts-f mode_file refl
          refl refl)
        (then (removed {e' = dir_b (more file_f nothing)} Parts-b refl (omega arith) refl) stop))

perform_all-Ran_example :
    Ran manager memory_contract sys 0 2
      (omega arith)
      blank
      (block_fuse manager (block_fuse_virtuals manager) sys 1 0 initial >>= λ fuse.
        perform_all manager sys 3 blank ops fuse)
      (pos 0 ∷ pos 0 ∷ pos 0 ∷ [])
      (root_of nothing)
unfolding memory_contract
perform_all-Ran_example =
    perform_all-Ran manager memory_contract sys 0 2 (omega arith) blank ops 1 0 initial
      initial-IsStore ops-Steps (omega arith)

inode-Subtree : Subtree (memory_contract.look store) 2 inode
unfolding memory_contract lookup get_children try_cast_link try_cast_dir_file
inode-Subtree =
    parent {bs = link_block ∷ []} refl (
      child refl (parent {bs = leaf_block ∷ []} refl (child refl (childless refl) no_more)) no_more)

recursive_free_children_blocks-Frees_example :
    Frees manager memory_contract
      (recursive_free_children_blocks manager 3 inode store)
      store
      (λ j. below j inode-Subtree)
unfolding memory_contract
recursive_free_children_blocks-Frees_example =
    recursive_free_children_blocks-Frees manager memory_contract store inode-Subtree store-IsStore
      (λ j. unfold below below_all inode-Subtree in ground arith)

-- ===== src/Fs/BlockFuse/Represents/Inserting.antt =====
-- A new directory or file in lib/src/fs/block_fuse.cc: its block is made and its id is put behind the
-- children of its parent.
use pingfs.Base.{
  ℕ, suc, ◌+◌, ◌≤◌, ◌<◌, if◌then◌else◌, true, List, [], ◌∷◌, ◌++◌, some, Bytes, ok, ◌≡◌, refl, sym,
  ap, ◌∙◌, arith, length, subst, Bool-cases, inl, inr,
}
use mathlib.Core.List.{reverse}
use pingfs.BlockData.Stat.{Stat}
use pingfs.BlockData.Data.{BlockId, DirFileBlockData, dir_file, is_dir}
use pingfs.BlockData.Block.{Block}
use pingfs.BlockManager.Interface.{BlockManager, IsBlockManager}
use pingfs.Fs.BlockUtil.{remove_ids}
use pingfs.Fs.BlockUtil.Stores.{View, Stores}
use Stores.{nil}
use pingfs.Fs.BlockUtil.Extends.{Extends, IsCreated-Extends}
use pingfs.Fs.BlockUtil.Layers.{ids_of, ids_of-append}
use pingfs.Fs.Tree.{Entry, Entries, is_directory, add_entry, rebuild}
use Entry.{directory, file}
use Entries.{nothing}
use pingfs.Fs.BlockFuse.{BlockFuse}
use pingfs.Fs.BlockFuse.Directories.{block_fuse_virtuals, replace_path}
use pingfs.Fs.BlockFuse.Represents.{
  Holds, HoldsAll, of_directory, of_file, none_left, one_more, hit, cells, under, uses_all, uses,
}
use pingfs.Fs.BlockFuse.Represents.Frame.{HoldsAll-Keeps, HoldsAll-append, uses-there}
use pingfs.Fs.BlockFuse.Represents.Walk.{Way}
use pingfs.Fs.BlockFuse.Represents.Answers.{Shows}
use pingfs.Fs.BlockFuse.Represents.Rebuild.{Change}
use pingfs.Fs.BlockFuse.Represents.Replacing.{Replaced, replace_path-Replaced}

-- A block that stands for a directory, taken apart.
pub record AsDirectory {look : View} {n : ℕ} {b : Block} {e : Entry} (h : Holds look n b e)
    : Type 0 where
  pub d : DirFileBlockData
  pub inner : List Block
  pub es : Entries
  pub is : b.data_ ≡ dir_file d
  pub type : is_dir d ≡ true
  pub children : d.children ≡ ids_of inner
  pub entry : e ≡ directory d.name d.stat es
  pub kids : HoldsAll look n inner es
  pub used : (j : BlockId) → under j h ≡ uses_all j kids

pub as_directory :
    {look : View} {n : ℕ} {b : Block} {e : Entry} (h : Holds look n b e)
    → is_directory e ≡ true
    → AsDirectory h
unfolding under
as_directory (of_directory {d} {inner} {es} at is type children kids) h = record {
  d = d;
  inner = inner;
  es = es;
  is = is;
  type = type;
  children = children;
  entry = refl;
  kids = kids;
  used = λ j. refl;
}
as_directory (of_file at is type stored) h = absurd (cc)

-- A new block without children, and what it stands for.
abbrev pub childless : Bytes → Stat → DirFileBlockData
childless name stat = record { name = name; stat = stat; children = [] }

abbrev pub new_entry : Bytes → Stat → Entry
new_entry name stat =
    if is_dir (childless name stat) then directory name stat nothing else file name stat []

-- The entries with one more at the end.
pub record Added {look : View} {n : ℕ} {b : Block} {e : Entry} (h : Holds look n b e) (look' : View)
    (new : Block) (entry : Entry) (used : BlockId → ℕ) : Type 0 where
  pub change : Change look' n b e [] (new.block_id ∷ []) (add_entry entry)
  pub sums : (j : BlockId) → uses_all j change.holds ≡ under j h + used j

added :
    {look look' : View} {n : ℕ} {b : Block} {e : Entry} {h : Holds look n b e} (a : AsDirectory h)
    {new : Block} {entry : Entry} (k : Holds look' n new entry)
    → Extends look look'
    → Added h look' new entry (λ j. uses j k)
unfolding uses_all remove_ids
added a {new} {entry} k further =
    let (kids, same) = HoldsAll-Keeps a.kids (λ j x le. further j x) in
    let (whole, sum) = HoldsAll-append kids (one_more k none_left) in
    record {
      change = record {
        d = a.d;
        es = a.es;
        is = a.is;
        type = a.type;
        entry = a.entry;
        kept = (a.d).children;
        removed = refl;
        blocks = a.inner ++ new ∷ [];
        listed =
            ap (λ ids. ids ++ new.block_id ∷ []) a.children
            ∙ sym (ids_of-append a.inner (new ∷ []));
        holds = whole;
      };
      sums = λ j. omega (arith, same j, sum j, a.used j);
    }

pub record New (look : View) (n : ℕ) (b : Block) (entry : Entry) : Type 0 where
  pub holds : Holds look n b entry
  pub used : (j : BlockId) → uses j holds ≡ hit j b.block_id

pub New-Holds :
    {look : View} (n : ℕ) (b : Block) (name : Bytes) (stat : Stat)
    → look b.block_id ≡ some b
    → b.data_ ≡ dir_file (childless name stat)
    → New look n b (new_entry name stat)
unfolding under cells uses_all
New-Holds {look} n b name stat at is = elim (Bool-cases (is_dir (childless name stat))) [
  | inl type ↦
      subst (New look n b) (rw type refl)
        (record { holds = of_directory at is type refl none_left; used = λ j. omega arith })
  | inr type ↦
      subst (New look n b) (rw type refl)
        (record { holds = of_file at is type nil; used = λ j. omega arith })
]

module _ {S : Type 0} (manager : BlockManager S) (contract : IsBlockManager manager) where
  -- What making a block and putting it below the end of a path leaves.
  pub record Inserted (n : ℕ) (fuse : BlockFuse S) (path : List Block) (d : DirFileBlockData)
      (names : List Bytes) (e entry : Entry) : Type 0 where
    pub new : Block
    pub state : S
    pub made : manager.create_block (dir_file d) fuse.blocks ≡ ok (new, state)
    pub tree : Entry
    pub rebuilt : rebuild names (add_entry entry) e ≡ some tree
    pub replaced :
        Replaced manager contract n
          (replace_path manager
            (block_fuse_virtuals manager)
            (reverse (fuse.root_block ∷ path))
            []
            (new.block_id ∷ [])
            (fuse.root_block ∷ path)
            (record fuse { blocks = state }))
          fuse
          (suc (suc (length path)))
          tree

  pub inserted :
      {n : ℕ} {fuse : BlockFuse S} {e : Entry} (shows : Shows contract n fuse e)
      {names : List Bytes} {path : List Block} {b' : Block} {e' : Entry}
      {h' : Holds (contract.look fuse.blocks) n b' e'} (name : Bytes) (stat : Stat)
      → Way fuse.root_block e shows.root names path b' e' h'
      → is_directory e' ≡ true
      → suc (length path) < contract.capacity fuse.blocks
      → Inserted n fuse path (childless name stat) names e (new_entry name stat)
  inserted {n} {fuse} shows {path} {h'} name stat way type room =
      let (new, s, made, holds, valid, cap) =
        contract.create (dir_file (childless name stat)) fuse.blocks shows.valid
          (omega (arith, room)) in
      let further = IsCreated-Extends _ fuse.blocks new s holds in
      let at : contract.look s new.block_id ≡ some new =
        ground (arith, holds.stored new.block_id) in
      let k = New-Holds n new name stat at holds.holds in
      let a = added (as_directory h' type) k.holds further in
      let fair : (j : BlockId)
          → uses j shows.root + uses_all j (a.change).holds ≤ suc (under j h') =
        λ j.
          ground
            (arith, shows.distinct j, a.sums j, k.used j, holds.fresh, uses-there j shows.root) in
      let (tree, rebuilt, r) =
        replace_path-Replaced manager contract shows way [] (new.block_id ∷ [])
          (add_entry (new_entry name stat)) s valid further a.change (omega (arith, room, cap))
          fair in
      record {
        new = new;
        state = s;
        made = made;
        tree = tree;
        rebuilt = rebuilt;
        replaced = record {
          fuse' = r.fuse';
          done = r.done;
          shows = r.shows;
          room = omega (arith, r.room, cap);
          same_dev = r.same_dev;
          same_errno = r.same_errno;
        };
      }

-- ===== src/Fs/BlockFuse/Represents/Replacing.antt =====
-- `replace_path` of lib/src/fs/block_fuse.cc on a file system that stands for a tree of names: a path is made anew, its
-- root becomes the root, and the old blocks of the path are freed.
use pingfs.Base.{
  ℕ, suc, ◌+◌, ◌≤◌, ◌<◌, List, [], ◌∷◌, Option, none, some, Bytes, Result, ok, ◌≡◌, ◌≢◌, refl, ap,
  ◌∙◌, arith, length, Option-cases, inl, inr,
}
use mathlib.Core.List.{reverse}
use pingfs.Base.Numbers.{ℤ, pos}
use pingfs.BlockData.Data.{BlockId}
use pingfs.BlockData.Block.{Block}
use pingfs.BlockManager.Interface.{BlockManager, IsBlockManager}
use pingfs.Fs.BlockUtil.Stores.{View}
use pingfs.Fs.BlockUtil.Extends.{Extends}
use pingfs.Fs.BlockUtil.Layers.{ids_of}
use pingfs.Fs.Tree.{Entry, Entries, rebuild}
use pingfs.Fs.BlockFuse.{BlockFuse}
use pingfs.Fs.BlockFuse.Directories.{block_fuse_virtuals, free_blocks, set_root_block, replace_path}
use pingfs.Fs.BlockFuse.Represents.{Holds, count, under, uses_all, uses}
use pingfs.Fs.BlockFuse.Represents.Frame.{Holds-Keeps, uses-there}
use pingfs.Fs.BlockFuse.Represents.Walk.{Way}
use pingfs.Fs.BlockFuse.Represents.Answers.{Shows}
use pingfs.Fs.BlockFuse.Represents.Rebuild.{absent-Extends, Change, Rebuilt, rebuilt}
use Way.{here, into}

-- The blocks of a way are used, and what is below its end.
pub count-Way :
    {look : View} {n : ℕ} (j : BlockId) {b b' : Block} {e e' : Entry} {h : Holds look n b e}
    {names : List Bytes} {path : List Block} {h' : Holds look n b' e'}
    → Way b e h names path b' e' h'
    → count j (ids_of (b ∷ path)) + under j h' ≤ uses j h
unfolding under
count-Way j here = omega arith
count-Way j (into r w) = omega (arith, r.used j, count-Way j w)

pub uses-Way :
    {look : View} {n : ℕ} (j : BlockId) {b b' : Block} {e e' : Entry} {h : Holds look n b e}
    {names : List Bytes} {path : List Block} {h' : Holds look n b' e'}
    → Way b e h names path b' e' h'
    → uses j h' ≤ uses j h
unfolding under
uses-Way j here = omega arith
uses-Way j (into r w) = omega (arith, r.used j, uses-Way j w)

pub length-Way :
    {look : View} {n : ℕ} {b b' : Block} {e e' : Entry} {h : Holds look n b e} {names : List Bytes}
    {path : List Block} {h' : Holds look n b' e'}
    → Way b e h names path b' e' h'
    → length path ≡ length names
length-Way here = refl
length-Way (into r w) = ap suc (length-Way w)

module _ {S : Type 0} (manager : BlockManager S) (contract : IsBlockManager manager) where
  -- What freeing some blocks leaves.
  record Freed (bs : List Block) (s : S) : Type 0 where
    state : S
    done : free_blocks manager (block_fuse_virtuals manager) bs s ≡ ok state
    valid : contract.IsValid state
    room : contract.capacity state ≡ contract.capacity s
    others : (j : BlockId) → count j (ids_of bs) ≡ 0 → contract.look state j ≡ contract.look s j

  freed : (bs : List Block) (s : S) → contract.IsValid s → Freed bs s
  unfolding free_blocks
  freed [] s valid = record {
    state = s;
    done = refl;
    valid = valid;
    room = refl;
    others = λ j out. refl;
  }
  freed (b ∷ bs) s valid =
      let (s', e, look', valid', cap) = contract.free b.block_id s valid in
      let r = freed bs s' valid' in
      record {
        state = r.state;
        done = rw e r.done;
        valid = r.valid;
        room = r.room ∙ cap;
        others = λ j out. ground (arith, r.others j, look' j, out);
      }

  -- What replacing a path leaves: a file system that stands for the tree after the change.
  pub record Replaced (n : ℕ) (call : Result (BlockFuse S)) (fuse : BlockFuse S) (spent : ℕ)
      (e2 : Entry) : Type 0 where
    pub fuse' : BlockFuse S
    pub done : call ≡ ok fuse'
    pub shows : Shows contract n fuse' e2
    pub room : contract.capacity fuse.blocks ≡ spent + contract.capacity fuse'.blocks
    pub same_dev : fuse'.dev ≡ fuse.dev
    pub same_errno : fuse'.errno ≡ fuse.errno

  -- And what it keeps: the blocks that were there and are not freed. `gone` counts those that the
  -- new tree does without, and `all` those of the old one and those that are added.
  pub record Keeping {n : ℕ} {call : Result (BlockFuse S)} {fuse : BlockFuse S} {spent : ℕ}
      {e2 : Entry} (r : Replaced n call fuse spent e2) (bs : List Block) (gone all : BlockId → ℕ)
      : Type 0 where
    pub kept :
        (j : BlockId) (x : Block)
        → contract.look fuse.blocks j ≡ some x
        → count j (ids_of bs) ≡ 0
        → contract.look (r.fuse').blocks j ≡ some x
    pub left :
        (j : BlockId) → contract.look fuse.blocks j ≢ none → uses j (r.shows).root + gone j ≡ all j

  -- What an operation that succeeds leaves: a file system that stands for the tree in which the
  -- entries of a directory are changed, and has room for so many blocks less.
  pub record Succeeds (n : ℕ) (call : Result (ℤ × BlockFuse S)) (fuse : BlockFuse S)
      (parents : List Bytes) (f : Entries → Entries) (e : Entry) (spent : ℕ) : Type 0 where
    pub tree : Entry
    pub changed : rebuild parents f e ≡ some tree
    pub fuse' : BlockFuse S
    pub done : call ≡ ok (pos 0, fuse')
    pub shows : Shows contract n fuse' tree
    pub room : contract.capacity fuse.blocks ≡ spent + contract.capacity fuse'.blocks

  module _ {n : ℕ} {fuse : BlockFuse S} {e : Entry} (shows : Shows contract n fuse e)
      {names : List Bytes} {path : List Block} {b' : Block} {e' : Entry}
      {h' : Holds (contract.look fuse.blocks) n b' e'}
      (way : Way fuse.root_block e shows.root names path b' e' h') where
    module _ (bs : List Block) (s : S)
        (further : Extends (contract.look fuse.blocks) (contract.look s)) (added : BlockId → ℕ)
        (there : (j : BlockId) → contract.look s j ≡ none → count j (ids_of bs) ≡ 0)
        (fair : (j : BlockId)
          → count j (ids_of bs) + (uses j shows.root + added j)
            ≤ suc (count j (ids_of (fuse.root_block ∷ path)) + under j h')) where
      -- The freed blocks are not in the new tree, and no block is in it twice.
      new-unused :
          {e2 : Entry} {call : Result (Option Block × S)} {rounds : ℕ}
          (q : Rebuilt manager contract n s call rounds e2
            (λ j. count j (ids_of (fuse.root_block ∷ path)) + under j h')
            (λ j. uses j shows.root + added j))
          (j : BlockId)
          → count j (ids_of bs) + uses j q.holds ≤ 1
      new-unused q j = elim (Option-cases (contract.look s j)) [
        | inl out ↦ omega (arith, q.new j out, there j out)
        | inr (x, at) ↦ omega (arith, q.old j (λ out. cc (at, out)), fair j)
      ]

    -- The blocks `bs` are freed.
    pub replace_path-Keeping :
        (bs : List Block) (to_remove to_add : List BlockId) (f : Entries → Entries) (s : S)
        → contract.IsValid s
        → (further : Extends (contract.look fuse.blocks) (contract.look s))
        → (change : Change (contract.look s) n b' e' to_remove to_add f)
        → length path < contract.capacity s
        → ((j : BlockId) → contract.look s j ≡ none → count j (ids_of bs) ≡ 0)
        → ((j : BlockId)
            → count j (ids_of bs) + (uses j shows.root + uses_all j change.holds)
              ≤ suc (count j (ids_of (fuse.root_block ∷ path)) + under j h'))
        → (e2 : Entry) × (rebuild names f e ≡ some e2)
          × (r : Replaced n
              (replace_path manager
                (block_fuse_virtuals manager)
                (reverse (fuse.root_block ∷ path))
                to_remove
                to_add
                bs
                (record fuse { blocks = s }))
              (record fuse { blocks = s })
              (suc (length path))
              e2)
          × Keeping r bs
              (λ j. count j (ids_of (fuse.root_block ∷ path)) + under j h')
              (λ j. uses j shows.root + uses_all j change.holds)
    unfolding replace_path set_root_block
    replace_path-Keeping bs to_remove to_add f s valid further change room there fair =
        let added : BlockId → ℕ = λ j. uses_all j change.holds in
        let (e2, made, q) =
          rebuilt manager contract to_remove to_add f way further change valid room
            shows.distinct in
        let r = freed bs q.state q.valid in
        let (holds, same) = Holds-Keeps q.holds (λ j x le at.
          r.others j (omega (arith, le, new-unused bs s further added there fair q j)) ∙ at) in
        (
          e2,
          made,
          record {
            fuse' = record fuse { blocks = r.state; root_block = q.block };
            done = rw (q.done, r.done);
            shows = record {
              valid = r.valid;
              root = holds;
              distinct = λ j. omega (arith, same j, new-unused bs s further added there fair q j);
            };
            room = omega (arith, q.room, r.room);
            same_dev = refl;
            same_errno = refl;
          },
          record {
            kept = λ j x at out. r.others j out ∙ q.extends j x at;
            left = λ j here. omega (arith, same j, q.old j here);
          },
        )

    -- The blocks of the path are freed.
    pub replace_path-Replaced :
        (to_remove to_add : List BlockId) (f : Entries → Entries) (s : S)
        → contract.IsValid s
        → Extends (contract.look fuse.blocks) (contract.look s)
        → (change : Change (contract.look s) n b' e' to_remove to_add f)
        → length path < contract.capacity s
        → ((j : BlockId) → uses j shows.root + uses_all j change.holds ≤ suc (under j h'))
        → (e2 : Entry) × (rebuild names f e ≡ some e2)
          × Replaced n
              (replace_path manager
                (block_fuse_virtuals manager)
                (reverse (fuse.root_block ∷ path))
                to_remove
                to_add
                (fuse.root_block ∷ path)
                (record fuse { blocks = s }))
              (record fuse { blocks = s })
              (suc (length path))
              e2
    replace_path-Replaced to_remove to_add f s valid further change room fair =
        let there : (j : BlockId)
            → contract.look s j ≡ none
            → count j (ids_of (fuse.root_block ∷ path)) ≡ 0 =
          λ j out.
            omega
              (arith, count-Way j way, uses-there j shows.root (absent-Extends further j out)) in
        let (e2, made, r, k) =
          replace_path-Keeping (fuse.root_block ∷ path) to_remove to_add f s valid further change
            room there (λ j. omega (arith, fair j)) in
        (e2, made, r)

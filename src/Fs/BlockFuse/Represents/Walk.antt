-- ===== src/Fs/BlockFuse/Represents/Walk.antt =====
-- `get_path` of lib/src/fs/block_fuse.cc against the tree of names.
use pingfs.Base.{
  ℕ, suc, ◌≤◌, true, false, List, [], ◌∷◌, ◌++◌, none, some, Bytes, ok, ◌≡◌, refl, ap, ◌∙◌, arith,
  All, list_beq, nat_eq, ◌⊎◌, inl, inr, append-nil, append_assoc,
}
use pingfs.BlockData.Data.{DirFileBlockData, dir_file, is_dir}
use pingfs.BlockData.Block.{Block}
use pingfs.BlockManager.Interface.{BlockManager, IsBlockManager}
use pingfs.Fs.FsUtil.{get_separator}
use pingfs.Fs.BlockUtil.Stores.{View}
use pingfs.Fs.BlockUtil.Extends.{Stores-le}
use pingfs.Fs.BlockUtil.Layers.{ids_of}
use pingfs.Fs.Tree.{Entry, Entries, resolve}
use Entry.{directory}
use pingfs.Fs.BlockFuse.{BlockFuse, walk_parts, back}
use pingfs.Fs.BlockFuse.Represents.{Holds, HoldsAll, of_directory, of_file, under, Distinct}
use pingfs.Fs.BlockFuse.Represents.Found.{Found, find-cases}
use pingfs.Fs.BlockFuse.Represents.Search.{
  get_path_part-Found, get_path_part-Missing, get_path_part-file,
}

abbrev pub IsName : Bytes → Type 0
IsName part = list_beq part get_separator ≡ false

module _ {look : View} {n : ℕ} where
  -- The way from a block down to another, by names: the blocks below the first.
  pub data Way
      : (b : Block) (e : Entry)
        → Holds look n b e
        → List Bytes
        → List Block
        → (b' : Block) (e' : Entry) → Holds look n b' e'
        → Type 0 where
    here : {b : Block} {e : Entry} {h : Holds look n b e} → Way b e h [] [] b e h
    into :
        {b b' : Block} {d : DirFileBlockData} {inner : List Block} {es : Entries} {e' : Entry}
        {at : look b.block_id ≡ some b} {is : b.data_ ≡ dir_file d} {type : is_dir d ≡ true}
        {children : d.children ≡ ids_of inner} {kids : HoldsAll look n inner es} {name : Bytes}
        {names : List Bytes} {path : List Block} {h' : Holds look n b' e'}
        → (r : Found kids name) → Way r.target r.entry r.target_holds names path b' e' h'
        → Way b
            (directory d.name d.stat es)
            (of_directory at is type children kids)
            (name ∷ names)
            (r.target ∷ path)
            b'
            e'
            h'

  abbrev pub Walk :
      {b b' : Block} {e e' : Entry}
      → Holds look n b e
      → List Bytes
      → List Block
      → Holds look n b' e'
      → Type 0
  Walk {b} {b'} {e} {e'} h names path h' = Way b e h names path b' e' h'

  pub record Reached {b : Block} {e : Entry} (h : Holds look n b e) (names : List Bytes)
      : Type 0 where
    pub path : List Block
    pub block : Block
    pub entry : Entry
    pub holds : Holds look n block entry
    pub walk : Way b e h names path block entry holds
    pub resolved : resolve names e ≡ some entry

-- What `walk_parts` answers below a block.
abbrev pub Walked :
    {S : Type 0} (manager : BlockManager S) (contract : IsBlockManager manager) (fuse : BlockFuse S)
    {n : ℕ} (k : ℕ) {b : Block} {e : Entry}
    → Holds (contract.look fuse.blocks) n b e
    → List Bytes
    → List Block
    → Type 0
Walked manager contract fuse k {b} {e} h names acc =
    ((resolve names e ≡ none)
      × (walk_parts manager (suc k) names (some b) acc fuse ≡ ok ([], fuse)))
    ⊎ ((r : Reached h names) × (walk_parts manager (suc k) names (some b) acc fuse
          ≡ ok (acc ++ r.path, fuse)))

module _ {S : Type 0} (manager : BlockManager S) (contract : IsBlockManager manager)
    (fuse : BlockFuse S) (valid : contract.IsValid fuse.blocks) {n : ℕ} (k : ℕ) (deep : n ≤ k) where
  pub walk_parts-Holds :
      (names : List Bytes) {b : Block} {e : Entry} (h : Holds (contract.look fuse.blocks) n b e)
      (acc : List Block)
      → Distinct h
      → All IsName names
      → Walked manager contract fuse k h names acc
  unfolding walk_parts resolve back under
  walk_parts-Holds [] {b} {e} h acc distinct parts = inr (
    record { path = []; block = b; entry = e; holds = h; walk = Way.here; resolved = refl },
    rw (append-nil acc),
  )
  walk_parts-Holds (name ∷ names) {b} (of_file at is type stored) acc distinct (part, parts) = inl (
    refl,
    rw (
      get_path_part-file manager contract fuse valid name part b is (Stores-le k deep stored),
      back,
    ),
  )
  walk_parts-Holds (name ∷ names) {b} (of_directory {d} at is type children kids) acc distinct
        (part, parts) =
      elim (find-cases kids name) [
        | inl r ↦ inl (
          rw (r.absent, resolve) refl,
          rw (
            get_path_part-Missing manager contract fuse valid name part b is k kids children r,
            back,
          ),
        )
        | inr r ↦
            let step =
              get_path_part-Found manager contract fuse valid name part b is k kids children
                distinct r in
            elim (walk_parts-Holds names r.target_holds (acc ++ r.target ∷ [])
              (λ j. omega (arith, distinct j, r.used j)) parts) [
                | inl (absent, e) ↦ inl (rw (r.found, resolve) absent, rw (step, back) e)
                | inr (q, e) ↦ inr (
                  record {
                    path = r.target ∷ q.path;
                    block = q.block;
                    entry = q.entry;
                    holds = q.holds;
                    walk = Way.into r q.walk;
                    resolved = rw (r.found, resolve) q.resolved;
                  },
                  rw (step, back)
                      (e ∙ ap (λ l. ok (l, fuse)) (append_assoc acc (r.target ∷ []) q.path)),
                )
              ]
      ]

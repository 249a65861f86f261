-- ===== src/Fs/BlockFuse/Revertible.antt =====
-- lib/src/fs/revertible_block_fuse.cc: making a directory whose name starts with the sentinel keeps
-- the root, and removing it brings that root back.
use pingfs.Base.{
  ℕ, if◌then◌else◌, Bool, true, false, ◌==◌, List, [], ◌∷◌, Option, none, some, Bytes, codes,
  Result, ok, ◌>>=◌, list_beq, nat_eq, ◌≡◌, arith, ◌∙◌, ap, fail, list_beq_self,
}
use pingfs.Base.Numbers.{ℤ}
use pingfs.BlockData.Stat.{StatBuffer}
use pingfs.BlockData.Data.{BlockId}
use pingfs.BlockData.Block.{Block}
use pingfs.BlockManager.Interface.{BlockManager}
use pingfs.Fs.BlockFuse.{BlockFuse}
use pingfs.Fs.BlockFuse.Directories
use pingfs.Fs.BlockFuse.Directories.{System, Virtuals}

pub record RevertibleBlockFuse (S : Type 0) : Type 0 where
  pub fuse : BlockFuse S
  pub checkpoint_requested : Bool
  pub checkpoints : List (Bytes × Block)

abbrev pub revert_dir_sentinel : Bytes
revert_dir_sentinel = codes "/__checkpoint_"

-- `std::mismatch` reaches the end of the sentinel. A path that ends before that has the terminating
-- zero there, which is no byte of the sentinel.
unfoldable pub starts_with : Bytes → Bytes → Bool
starts_with [] path = true
starts_with (c ∷ sentinel) [] = false
starts_with (c ∷ sentinel) (b ∷ path) = if c == b then starts_with sentinel path else false

-- `checkpoints_` by its keys.
unfoldable pub find_checkpoint : Bytes → List (Bytes × Block) → Option Block
find_checkpoint path [] = none
find_checkpoint path ((key, root) ∷ rest) =
    if list_beq key path then some root else find_checkpoint path rest

unfoldable pub erase_checkpoint : Bytes → List (Bytes × Block) → List (Bytes × Block)
erase_checkpoint path [] = []
erase_checkpoint path ((key, root) ∷ rest) =
    if list_beq key path then rest else (key, root) ∷ erase_checkpoint path rest

unfoldable pub set_checkpoint : Bytes → Block → List (Bytes × Block) → List (Bytes × Block)
set_checkpoint path root [] = (path, root) ∷ []
set_checkpoint path root ((key, old) ∷ rest) =
    if list_beq key path then (key, root) ∷ rest else (key, old) ∷ set_checkpoint path root rest

module _ {S : Type 0} (manager : BlockManager S) where
  -- `free_block`: once a checkpoint has been asked for, nothing is freed.
  unfoldable pub free_block : Bool → BlockId → S → Result S
  free_block checkpoint_requested block_id s =
      if checkpoint_requested then ok s else manager.free_block block_id s

  abbrev pub revertible_virtuals : Bool → Virtuals S
  revertible_virtuals checkpoint_requested = record {
    free_block = free_block checkpoint_requested;
    announce_root = λ root s. ok s;
  }

  unfoldable pub checkpoint : RevertibleBlockFuse S → Block × RevertibleBlockFuse S
  checkpoint r = ((r.fuse).root_block, record r { checkpoint_requested = true })

  unfoldable pub revert : Block → RevertibleBlockFuse S → RevertibleBlockFuse S
  revert reverted_root r = record r { fuse = record r.fuse { root_block = reverted_root } }

  unfoldable pub take_checkpoint : Bytes → RevertibleBlockFuse S → RevertibleBlockFuse S
  unfolding starts_with checkpoint set_checkpoint
  take_checkpoint path r =
      let (root, r') = checkpoint r in
      if starts_with revert_dir_sentinel path
      then record r' { checkpoints = set_checkpoint path root r.checkpoints }
      else r

  -- A result of a method of `BlockFuse`, which changes that part of the state.
  abbrev pub with_fuse :
      RevertibleBlockFuse S → ℤ × BlockFuse S → Result (ℤ × RevertibleBlockFuse S)
  with_fuse r (code, fuse) = ok (code, record r { fuse = fuse })

  unfoldable pub mkdir :
      System
      → ℕ
      → StatBuffer
      → Bytes
      → ℕ
      → RevertibleBlockFuse S
      → Result (ℤ × RevertibleBlockFuse S)
  unfolding take_checkpoint free_block
  mkdir sys fuel stbuf path mode r =
      let r' = take_checkpoint path r in
      Directories.mkdir manager (revertible_virtuals r'.checkpoint_requested) sys fuel stbuf path
        mode r'.fuse
      >>= with_fuse r'

  -- After it has reverted the function ends without a `return`: there is no result then.
  unfoldable pub rmdir :
      ℕ → Bytes → RevertibleBlockFuse S → Result (Option ℤ × RevertibleBlockFuse S)
  unfolding revert
  rmdir fuel path r = elim (find_checkpoint path r.checkpoints) [
    | none ↦
        Directories.rmdir manager (revertible_virtuals r.checkpoint_requested) fuel path r.fuse
        >>= λ (code, fuse). ok (some code, record r { fuse = fuse })
    | some root ↦
        let r' = revert root r in
        ok (none, record r' { checkpoints = erase_checkpoint path r.checkpoints })
  ]

  find_checkpoint-set_checkpoint :
      (path : Bytes) (root : Block) (checkpoints : List (Bytes × Block))
      → find_checkpoint path (set_checkpoint path root checkpoints) ≡ some root
  unfolding find_checkpoint set_checkpoint
  find_checkpoint-set_checkpoint path root [] = rw (list_beq_self path)
  find_checkpoint-set_checkpoint path root ((key, old) ∷ rest) =
      ground (arith, list_beq_self path, find_checkpoint-set_checkpoint path root rest)

  -- What is left of a state of which only the blocks and the root change.
  kept_by_bind :
      (t r' : RevertibleBlockFuse S) (code : ℤ) (result : Result (ℤ × BlockFuse S))
      → (result >>= with_fuse t) ≡ ok (code, r')
      → (r'.checkpoints ≡ t.checkpoints) × (r'.checkpoint_requested ≡ t.checkpoint_requested)
  kept_by_bind t r' code (ok (c, f)) h = (cc, cc)
  kept_by_bind t r' code (fail e) h = cc

  taken :
      (path : Bytes) (r : RevertibleBlockFuse S)
      → starts_with revert_dir_sentinel path ≡ true
      → take_checkpoint path r ≡ record r {
        checkpoint_requested = true;
        checkpoints = set_checkpoint path (r.fuse).root_block r.checkpoints;
      }
  unfolding take_checkpoint checkpoint
  taken path r sentinel = rw sentinel

  rmdir-found :
      (fuel : ℕ) (path : Bytes) (r : RevertibleBlockFuse S) (root : Block)
      → find_checkpoint path r.checkpoints ≡ some root
      → rmdir fuel path r
        ≡ ok (
          none,
          record {
            fuse = record r.fuse { root_block = root };
            checkpoint_requested = r.checkpoint_requested;
            checkpoints = erase_checkpoint path r.checkpoints;
          },
        )
  unfolding rmdir revert
  rmdir-found fuel path r root h = rw (h, rmdir)

  -- Whatever `mkdir` of a directory whose name starts with the sentinel returned, and whatever
  -- happened to the blocks, the root and `errno` since, removing that directory brings back the root
  -- from before it was made, as long as the checkpoints are those that `mkdir` left. The call then
  -- ends with no result.
  pub rmdir-mkdir :
      (sys : System) (fuel fuel' : ℕ) (stbuf : StatBuffer) (path : Bytes) (mode : ℕ)
      (r r' : RevertibleBlockFuse S) (code : ℤ) (fuse : BlockFuse S)
      → starts_with revert_dir_sentinel path ≡ true
      → mkdir sys fuel stbuf path mode r ≡ ok (code, r')
      → (rest : List (Bytes × Block)) × (rmdir fuel' path (record r' { fuse = fuse })
          ≡ ok (
            none,
            record {
              fuse = record fuse { root_block = (r.fuse).root_block };
              checkpoint_requested = true;
              checkpoints = rest;
            },
          ))
  unfolding mkdir
  rmdir-mkdir sys fuel fuel' stbuf path mode r r' code fuse sentinel made =
      let kept = kept_by_bind (take_checkpoint path r) r' code _ made in
      let start = taken path r sentinel in
      let checkpoints : r'.checkpoints ≡ set_checkpoint path (r.fuse).root_block r.checkpoints =
        kept.0 ∙ ap (λ t. t.checkpoints) start in
      let requested : r'.checkpoint_requested ≡ true =
        kept.1 ∙ ap (λ t. t.checkpoint_requested) start in
      (
        erase_checkpoint path r'.checkpoints,
        rmdir-found fuel' path (record r' { fuse = fuse }) (r.fuse).root_block
              (ap (find_checkpoint path) checkpoints
                ∙ find_checkpoint-set_checkpoint path (r.fuse).root_block r.checkpoints)
            ∙ ap
                (λ (q : Bool). ok (
                  none,
                  record {
                    fuse = record fuse { root_block = (r.fuse).root_block };
                    checkpoint_requested = q;
                    checkpoints = erase_checkpoint path r'.checkpoints;
                  },
                ))
                requested,
      )

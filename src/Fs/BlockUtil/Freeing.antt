-- ===== src/Fs/BlockUtil/Freeing.antt =====
-- `recursive_free_children_blocks` of lib/src/fs/block_util.cc frees the blocks below a block, and no
-- other.
use pingfs.Base.{
  ℕ, suc, ◌+◌, ◌≤◌, List, [], ◌∷◌, map, none, some, Result, ok, ◌≡◌, refl, ◌∙◌, arith,
}
use pingfs.Base.Counts.{count}
use pingfs.BlockData.Data.{BlockId}
use pingfs.BlockData.Block.{Block}
use pingfs.BlockManager.Interface.{BlockManager, IsBlockManager}
use pingfs.Fs.BlockUtil.{get_children}
use pingfs.Fs.BlockUtil.Stores.{View}
use pingfs.Fs.BlockUtil.Layers.{ids_of}
use pingfs.Fs.BlockUtil.Links.{free_all, free_each, recursive_free_children_blocks}

-- The blocks below a block, through at most `d` generations of children.
mutual
  pub data Subtree (look : View) : ℕ → Block → Type 0 where
    childless : {d : ℕ} {b : Block} → get_children b ≡ none → Subtree look d b
    parent :
        {d : ℕ} {b : Block} {bs : List Block}
        → get_children b ≡ some (ids_of bs)
        → Subtrees look d bs
        → Subtree look (suc d) b

  pub data Subtrees (look : View) : ℕ → List Block → Type 0 where
    no_more : {d : ℕ} → Subtrees look d []
    child :
        {d : ℕ} {b : Block} {bs : List Block}
        → look b.block_id ≡ some b
        → Subtree look d b
        → Subtrees look d bs
        → Subtrees look d (b ∷ bs)

-- How often an id occurs below a block, among some blocks and below them, and below them only.
module _ {look : View} (j : BlockId) where
  unfoldable mutual
    pub below : {d : ℕ} {b : Block} → Subtree look d b → ℕ
    below (childless none_there) = 0
    below (parent {bs} has ts) = count j (ids_of bs) + below_all ts

    pub below_all : {d : ℕ} {bs : List Block} → Subtrees look d bs → ℕ
    below_all no_more = 0
    below_all (child at t ts) = below t + below_all ts

Subtrees-map :
    {look look' : View} {d : ℕ} {bs : List Block}
    → Subtrees look d bs
    → ((j : BlockId) → 1 ≤ count j (ids_of bs) → look' j ≡ look j)
    → map look' (ids_of bs) ≡ map some bs
Subtrees-map no_more same = refl
Subtrees-map {look'} (child {b} at t ts) same =
    let here : look' b.block_id ≡ some b = same b.block_id (ground arith) ∙ at in
    cc (here, Subtrees-map ts (λ j le. same j (omega (arith, le))))

module _ {S : Type 0} (manager : BlockManager S) (contract : IsBlockManager manager) where
  -- What a call that frees the blocks that a function counts leaves.
  pub record Frees (call : Result S) (s : S) (used : BlockId → ℕ) : Type 0 where
    pub state : S
    pub done : call ≡ ok state
    pub valid : contract.IsValid state
    pub room : contract.capacity state ≡ contract.capacity s
    pub kept : (j : BlockId) → used j ≡ 0 → contract.look state j ≡ contract.look s j
    pub gone : (j : BlockId) → 1 ≤ used j → contract.look state j ≡ none

  free_all-Frees :
      (ids : List BlockId) (s : S)
      → contract.IsValid s
      → Frees (free_all manager ids s) s (λ j. count j ids)
  unfolding free_all
  free_all-Frees [] s valid = record {
    state = s;
    done = refl;
    valid = valid;
    room = refl;
    kept = λ j out. refl;
    gone = λ j le. absurd (omega (arith, le));
  }
  free_all-Frees (i ∷ ids) s valid =
      let (s', e, look', valid', cap) = contract.free i s valid in
      let r = free_all-Frees ids s' valid' in
      record {
        state = r.state;
        done = rw e r.done;
        valid = r.valid;
        room = r.room ∙ cap;
        kept = λ j out. ground (arith, r.kept j, look' j, out);
        gone = λ j le. ground (arith, r.gone j, r.kept j, look' j, le);
      }

  -- The blocks below some blocks are those of a view.
  abbrev pub Agrees : View → S → (BlockId → ℕ) → Type 0
  Agrees look s used = (j : BlockId) → 1 ≤ used j → contract.look s j ≡ look j

  mutual
    unfolding below below_all recursive_free_children_blocks free_each

    pub free_below :
        {look : View} {d : ℕ} {b : Block} (t : Subtree look d b) (s : S)
        → contract.IsValid s
        → ((j : BlockId) → below j t ≤ 1)
        → Agrees look s (λ j. below j t)
        → Frees (recursive_free_children_blocks manager (suc d) b s) s (λ j. below j t)
    free_below (childless none_there) s valid single agrees = record {
      state = s;
      done = rw (recursive_free_children_blocks, none_there) refl;
      valid = valid;
      room = refl;
      kept = λ j out. refl;
      gone = λ j le. absurd (omega (arith, le));
    }
    free_below (parent {d} {bs} has ts) s valid single agrees =
        let got =
          contract.get (ids_of bs) bs s valid
            (Subtrees-map ts (λ j le. agrees j (omega (arith, le)))) in
        let r1 = free_all-Frees (ids_of bs) s valid in
        let agrees1 : Agrees _ r1.state (λ j. below_all j ts) =
          λ j le. r1.kept j (omega (arith, single j, le)) ∙ agrees j (omega (arith, le)) in
        let r2 = free_below_all ts r1.state r1.valid (λ j. omega (arith, single j)) agrees1 in
        record {
          state = r2.state;
          done = rw (recursive_free_children_blocks, has, got, r1.done, r2.done);
          valid = r2.valid;
          room = r2.room ∙ r1.room;
          kept = λ j out. r2.kept j (omega (arith, out)) ∙ r1.kept j (omega (arith, out));
          gone = λ j le. ground (arith, single j, r1.gone j, r2.gone j, r2.kept j, le);
        }

    free_below_all :
        {look : View} {d : ℕ} {bs : List Block} (ts : Subtrees look d bs) (s : S)
        → contract.IsValid s
        → ((j : BlockId) → below_all j ts ≤ 1)
        → Agrees look s (λ j. below_all j ts)
        → Frees
            (free_each manager (recursive_free_children_blocks manager (suc d)) (map some bs) s)
            s
            (λ j. below_all j ts)
    free_below_all no_more s valid single agrees = record {
      state = s;
      done = refl;
      valid = valid;
      room = refl;
      kept = λ j out. refl;
      gone = λ j le. absurd (omega (arith, le));
    }
    free_below_all (child {b} at t ts) s valid single agrees =
        let r1 =
          free_below t s valid (λ j. omega (arith, single j))
            (λ j le. agrees j (omega (arith, le))) in
        let r2 =
          free_below_all ts r1.state r1.valid (λ j. omega (arith, single j))
            (λ j le. r1.kept j (omega (arith, single j, le)) ∙ agrees j (omega (arith, le))) in
        record {
          state = r2.state;
          done = rw r1.done r2.done;
          valid = r2.valid;
          room = r2.room ∙ r1.room;
          kept = λ j out. r2.kept j (omega (arith, out)) ∙ r1.kept j (omega (arith, out));
          gone = λ j le. ground (arith, single j, r1.gone j, r2.gone j, r2.kept j, le);
        }

  -- From a block whose tree of children has at most `d` generations, with no block in it twice, the
  -- recursion of `recursive_free_children_blocks` ends within `d + 1` levels, and frees each block
  -- below the block and no other.
  pub recursive_free_children_blocks-Frees :
      {d : ℕ} {b : Block} (s : S) (t : Subtree (contract.look s) d b)
      → contract.IsValid s
      → ((j : BlockId) → below j t ≤ 1)
      → Frees (recursive_free_children_blocks manager (suc d) b s) s (λ j. below j t)
  recursive_free_children_blocks-Frees s t valid single = free_below t s valid single (λ j le. refl)

-- ===== src/Fs/BlockFuse/Represents/Rebuild.antt =====
-- A path of directories made anew from its end back to the root, by `replace_chain` in
-- lib/src/fs/block_util.cc, against the tree of names.
use pingfs.Base.{
  ℕ, suc, ◌+◌, ◌≤◌, ◌<◌, true, List, [], ◌∷◌, ◌++◌, Option, none, some, Bytes, Result, ok, ◌≡◌, ◌≢◌,
  refl, sym, ap, ◌∙◌, arith, length, Option-cases, inl, inr,
}
use mathlib.Core.List.{reverse}
use pingfs.BlockData.Data.{BlockId, DirFileBlockData, dir_file, is_dir, with_children}
use pingfs.BlockData.Block.{Block}
use pingfs.BlockManager.Interface.{BlockManager, IsBlockManager}
use pingfs.Fs.BlockUtil.{remove_ids, replace_round, replace_chain}
use pingfs.Fs.BlockUtil.Stores.{View}
use pingfs.Fs.BlockUtil.Extends.{Extends, IsCreated-Extends}
use pingfs.Fs.BlockUtil.Layers.{ids_of, ids_of-append}
use pingfs.Fs.Tree.{Entry, Entries, ◌+++◌, rebuild, without}
use Entry.{directory}
use Entries.{nothing, more}
use pingfs.Fs.BlockFuse.Represents.{
  Holds, HoldsAll, of_directory, none_left, one_more, hit, count, under, uses_all, uses, Distinct,
}
use pingfs.Fs.BlockFuse.Represents.Found.{Found, count-uses_all}
use pingfs.Fs.BlockFuse.Represents.Frame.{
  HoldsAll-Keeps, uses-there, uses_all-there, HoldsAll-append,
}
use pingfs.Fs.BlockFuse.Represents.Walk.{Way}
use Way.{here, into}
use pingfs.Fs.BlockFuse.Represents.Rounds.{
  remove_ids-one, replace_chain-reverse, replace_round-directory,
}

module _ {S : Type 0} (manager : BlockManager S) (contract : IsBlockManager manager) where
  -- A directory made anew with other children: what one round leaves.
  record Made (n : ℕ) (s : S) (call : Result (Block × S)) (d : DirFileBlockData) (es : Entries)
      (used : BlockId → ℕ) : Type 0 where
    block : Block
    state : S
    done : call ≡ ok (block, state)
    valid : contract.IsValid state
    room : contract.capacity s ≡ suc (contract.capacity state)
    extends : Extends (contract.look s) (contract.look state)
    fresh : contract.look s block.block_id ≡ none
    holds : Holds (contract.look state) n block (directory d.name d.stat es)
    uses_it : (j : BlockId) → uses j holds ≡ hit j block.block_id + used j

  create_block-Made :
      {n : ℕ} (d : DirFileBlockData) {bs : List Block} {es : Entries} (s : S)
      → contract.IsValid s
      → 0 < contract.capacity s
      → is_dir d ≡ true
      → (kids : HoldsAll (contract.look s) n bs es)
      → Made n s
          (manager.create_block (dir_file (with_children d (ids_of bs))) s)
          d
          es
          (λ j. uses_all j kids)
  unfolding with_children under is_dir
  create_block-Made d {bs} s valid room type kids =
      let (b, s', e, made, valid', cap) =
        contract.create (dir_file (with_children d (ids_of bs))) s valid room in
      let extends = IsCreated-Extends _ s b s' made in
      let (kids', same) = HoldsAll-Keeps kids (λ j x le. extends j x) in
      let at : contract.look s' b.block_id ≡ some b = ground (arith, made.stored b.block_id) in
      record {
        block = b;
        state = s';
        done = e;
        valid = valid';
        room = cap;
        extends = extends;
        fresh = made.fresh;
        holds = of_directory at made.holds type refl kids';
        uses_it = λ j. omega (arith, same j);
      }

  -- The path made anew: the last block made, and what the tree below it uses. `gone` counts the blocks
  -- that the new tree does without, and `all` those of the old tree and those that are added.
  pub record Rebuilt (n : ℕ) (s : S) (call : Result (Option Block × S)) (rounds : ℕ) (e : Entry)
      (gone all : BlockId → ℕ) : Type 0 where
    pub block : Block
    pub state : S
    pub done : call ≡ ok (some block, state)
    pub valid : contract.IsValid state
    pub room : contract.capacity s ≡ rounds + contract.capacity state
    pub extends : Extends (contract.look s) (contract.look state)
    pub holds : Holds (contract.look state) n block e
    pub old : (j : BlockId) → contract.look s j ≢ none → uses j holds + gone j ≡ all j
    pub new : (j : BlockId) → contract.look s j ≡ none → uses j holds ≤ 1

-- The change that the first round makes to the entries of a directory.
pub record Change (look : View) (n : ℕ) (b : Block) (e : Entry) (to_remove to_add : List BlockId)
    (f : Entries → Entries) : Type 0 where
  pub d : DirFileBlockData
  pub es : Entries
  pub is : b.data_ ≡ dir_file d
  pub type : is_dir d ≡ true
  pub entry : e ≡ directory d.name d.stat es
  pub kept : List BlockId
  pub removed : remove_ids d.children to_remove ≡ ok kept
  pub blocks : List Block
  pub listed : kept ++ to_add ≡ ids_of blocks
  pub holds : HoldsAll look n blocks (f es)

pub absent-Extends :
    {look look' : View} → Extends look look' → (j : BlockId) → look' j ≡ none → look j ≡ none
absent-Extends {look} further j out = elim (Option-cases (look j)) [
  | inl e ↦ e
  | inr (x, at) ↦ absurd (cc (further j x at, out))
]

-- The children of a directory of which one is replaced: that one moves to the end.
record Moved (n : ℕ) (look look' : View) {bs : List Block} {es : Entries}
    {kids : HoldsAll look n bs es} {name : Bytes} (r : Found kids name) (b : Block) (e : Entry)
    (used : BlockId → ℕ) : Type 0 where
  blocks : List Block
  entries : Entries
  listed : ids_of r.front ++ ids_of r.behind ++ b.block_id ∷ [] ≡ ids_of blocks
  others : entries ≡ without name es +++ more e nothing
  holds : HoldsAll look' n blocks entries
  sums :
      (j : BlockId)
      → uses_all j holds ≡ uses_all j r.front_holds + uses_all j r.behind_holds + used j

moved :
    {n : ℕ} {look look' : View} {bs : List Block} {es : Entries} {kids : HoldsAll look n bs es}
    {name : Bytes} (r : Found kids name) {b : Block} {e : Entry} (h : Holds look' n b e)
    → Extends look look'
    → Moved n look look' r b e (λ j. uses j h)
unfolding uses_all
moved {n} {look'} r {b} {e} h extends =
    let (front, same1) = HoldsAll-Keeps r.front_holds (λ j x le. extends j x) in
    let (behind, same2) = HoldsAll-Keeps r.behind_holds (λ j x le. extends j x) in
    let (both, sum1) = HoldsAll-append front behind in
    let (whole, sum2) = HoldsAll-append both (one_more h none_left) in
    record {
      blocks = r.front ++ r.behind ++ b ∷ [];
      entries = (r.before +++ r.after) +++ more e nothing;
      listed = sym (
          ids_of-append (r.front ++ r.behind) (b ∷ [])
          ∙ ap (λ ids. ids ++ b.block_id ∷ []) (ids_of-append r.front r.behind));
      others = ap (λ es'. es' +++ more e nothing) (sym r.others);
      holds = whole;
      sums = λ j. omega (arith, same1 j, same2 j, sum1 j, sum2 j);
    }

module _ {S : Type 0} (manager : BlockManager S) (contract : IsBlockManager manager)
    (to_remove to_add : List BlockId) (f : Entries → Entries) where
  Rebuilt-here :
      {look : View} {n : ℕ} {b : Block} {e : Entry} (s : S) (h : Holds look n b e)
      (change : Change (contract.look s) n b e to_remove to_add f)
      → contract.IsValid s
      → 0 < contract.capacity s
      → (e2 : Entry) × (rebuild [] f e ≡ some e2)
        × Rebuilt manager contract n s
            (replace_chain manager (b ∷ []) to_remove none to_add s)
            1
            e2
            (λ j. count j (b.block_id ∷ []) + under j h)
            (λ j. uses j h + uses_all j change.holds)
  unfolding rebuild replace_chain
  Rebuilt-here {n} {b} s h change valid room =
      let m = create_block-Made manager contract change.d s valid room change.type change.holds in
      let round : replace_round manager b to_remove none to_add s ≡ ok (m.block, m.state) =
        replace_round-directory manager b change.d to_remove change.kept none to_add s change.is
          change.removed
        ∙ ap (λ ids. manager.create_block (dir_file (with_children change.d ids)) s) change.listed
        ∙ m.done in
      (
        directory (change.d).name (change.d).stat (f change.es),
        rw change.entry refl,
        record {
          block = m.block;
          state = m.state;
          done = rw round;
          valid = m.valid;
          room = omega (arith, m.room);
          extends = m.extends;
          holds = m.holds;
          old = λ j there. ground (arith, m.uses_it j, m.fresh);
          new = λ j out. ground (arith, m.uses_it j, uses_all-there j change.holds out);
        },
      )

  recount :
      {n : ℕ} {s : S} {call : Result (Option Block × S)} {rounds : ℕ} {e : Entry}
      {gone all gone' all' : BlockId → ℕ}
      → Rebuilt manager contract n s call rounds e gone all
      → ((j : BlockId) (m : ℕ) → m + gone j ≡ all j → m + gone' j ≡ all' j)
      → Rebuilt manager contract n s call rounds e gone' all'
  recount q same = record {
    block = q.block;
    state = q.state;
    done = q.done;
    valid = q.valid;
    room = q.room;
    extends = q.extends;
    holds = q.holds;
    old = λ j there. same j (uses j q.holds) (q.old j there);
    new = q.new;
  }

  -- One more round, at the directory above.
  Rebuilt-above :
      {look : View} {n : ℕ} (b : Block) {d : DirFileBlockData} {bs : List Block} {es : Entries}
      {s : S} {kids : HoldsAll look n bs es} {name : Bytes} (r : Found kids name)
      (path : List Block) {e2 : Entry} {gone all : BlockId → ℕ}
      → Extends look (contract.look s)
      → b.data_ ≡ dir_file d
      → is_dir d ≡ true
      → d.children ≡ ids_of bs
      → ((j : BlockId) → uses_all j kids ≤ 1)
      → suc (suc (length path)) ≤ contract.capacity s
      → Rebuilt manager contract n s
          (replace_chain manager (reverse (r.target ∷ path)) to_remove none to_add s)
          (suc (length path))
          e2
          gone
          all
      → (es2 : Entries) × (es2 ≡ without name es +++ more e2 nothing)
        × Rebuilt manager contract n s
            (replace_chain manager (reverse (b ∷ r.target ∷ path)) to_remove none to_add s)
            (suc (suc (length path)))
            (directory d.name d.stat es2)
            (λ j. uses j r.target_holds + gone j)
            (λ j. uses_all j kids + all j)
  unfolding replace_chain
  Rebuilt-above b {d} {bs} {s} {kids} r path {e2} further is type children single room q =
      let step = moved r q.holds (λ j x at. q.extends j x (further j x at)) in
      let m =
        create_block-Made manager contract d q.state q.valid (omega (arith, room, q.room)) type
          step.holds in
      let split = children ∙ ap ids_of r.whole ∙ ids_of-append r.front (r.target ∷ r.behind) in
      let first : count (r.target).block_id (ids_of r.front) ≡ 0 = ground (
        arith,
        single (r.target).block_id,
        r.used (r.target).block_id,
        count-uses_all (r.target).block_id r.front_holds,
      ) in
      let removed : remove_ids d.children ((r.target).block_id ∷ [])
          ≡ ok (ids_of r.front ++ ids_of r.behind) =
        ap (λ ids. remove_ids ids ((r.target).block_id ∷ [])) split
        ∙ remove_ids-one (ids_of r.front) (ids_of r.behind) (r.target).block_id first in
      let round : replace_round manager b ((r.target).block_id ∷ []) (some q.block) to_add q.state
          ≡ ok (m.block, m.state) =
        replace_round-directory manager b d ((r.target).block_id ∷ [])
          (ids_of r.front ++ ids_of r.behind) (some q.block) to_add q.state is removed
        ∙ ap (λ ids. manager.create_block (dir_file (with_children d ids)) q.state) step.listed
        ∙ m.done in
      (
        step.entries,
        step.others,
        record {
          block = m.block;
          state = m.state;
          done =
              replace_chain-reverse manager path r.target b to_remove to_add s ∙ rw (q.done, round);
          valid = m.valid;
          room = omega (arith, q.room, m.room);
          extends = λ j x at. m.extends j x (q.extends j x at);
          holds = m.holds;
          old = λ j there. elim (Option-cases (contract.look s j)) [
            | inl out ↦ absurd (there out)
            | inr (x, at) ↦ ground (
              arith,
              m.uses_it j,
              m.fresh,
              q.extends j x at,
              step.sums j,
              q.old j there,
              r.used j,
            )
          ];
          new = λ j out.
              let out0 = absent-Extends further j out in
              ground (
                arith,
                m.uses_it j,
                m.fresh,
                step.sums j,
                q.new j out,
                uses_all-there j r.front_holds out0,
                uses_all-there j r.behind_holds out0,
                uses-there j q.holds,
              );
        },
      )

  -- The whole path: the directories from the target back to the root are made anew.
  pub rebuilt :
      {look : View} {n : ℕ} {s : S} {b b' : Block} {e e' : Entry} {h : Holds look n b e}
      {names : List Bytes} {path : List Block} {h' : Holds look n b' e'}
      → Way b e h names path b' e' h'
      → Extends look (contract.look s)
      → (change : Change (contract.look s) n b' e' to_remove to_add f) → contract.IsValid s
      → length path < contract.capacity s
      → Distinct h
      → (e2 : Entry) × (rebuild names f e ≡ some e2)
        × Rebuilt manager contract n s
            (replace_chain manager (reverse (b ∷ path)) to_remove none to_add s)
            (suc (length path))
            e2
            (λ j. count j (ids_of (b ∷ path)) + under j h')
            (λ j. uses j h + uses_all j change.holds)
  unfolding rebuild under
  rebuilt {s} {h} here further change valid room distinct = Rebuilt-here s h change valid room
  rebuilt (into {b} {d} {is} {type} {children} {kids} {path} r w) further change valid room
        distinct =
      let (e2, made, q) =
        rebuilt w further change valid (omega (arith, room))
          (λ j. omega (arith, distinct j, r.used j)) in
      let (es2, others, q') =
        Rebuilt-above b r path further is type children (λ j. omega (arith, distinct j)) room q in
      (
        directory d.name d.stat es2,
        rw (r.found, rebuild, made, others),
        recount q' (λ j m eq. omega (arith, eq)),
      )

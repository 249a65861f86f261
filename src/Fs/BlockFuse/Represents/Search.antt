-- ===== src/Fs/BlockFuse/Represents/Search.antt =====
-- The search for a name in a directory, in lib/src/fs/block_fuse.cc, against the tree of names.
use pingfs.Base.{
  ℕ, suc, ◌+◌, ◌≤◌, ◌==◌, false, List, [], ◌∷◌, ◌++◌, map, none, some, Bytes, ok, ◌≡◌, refl, sym,
  ap, ◌∙◌, arith, All, list_beq, nat_eq,
}
use pingfs.Base.Maps.{lookup, insert, lookup-insert}
use pingfs.BlockData.Data.{BlockId, DirFileBlockData, dir_file}
use pingfs.BlockData.Block.{Block}
use pingfs.BlockManager.Interface.{BlockManager, IsBlockManager}
use pingfs.Fs.FsUtil.{get_separator}
use pingfs.Fs.BlockUtil.{try_cast_dir_file}
use pingfs.Fs.BlockUtil.Stores.{View, Stores}
use pingfs.Fs.BlockUtil.Layers.{ids_of, ids_of-append}
use pingfs.Fs.Tree.{Entries}
use pingfs.Fs.BlockFuse.{BlockFuse, get_path_part, search_layers}
use pingfs.Fs.BlockFuse.Search.{
  IsOther, NotSeen, IsSibling, seen, get_path_part_helper-absent, get_path_part-first,
}
use pingfs.Fs.BlockFuse.Represents.{HoldsAll, none_left, one_more, hit, count, uses_all}
use pingfs.Fs.BlockFuse.Represents.Nameless.{search_layers-Stores}
use pingfs.Fs.BlockFuse.Represents.Found.{
  Found, Missing, look-Holds, Holds-Children, count-uses_all,
}

-- What the search has seen of blocks with different ids.
seen-out :
    (j : BlockId) (retrieved : List (BlockId × Block)) (bs : List Block)
    → count j (ids_of bs) ≡ 0
    → lookup j (seen retrieved bs) ≡ lookup j retrieved
seen-out j retrieved [] h = refl
seen-out j retrieved (b ∷ bs) h =
    ground
      (arith, seen-out j (insert b.block_id b retrieved) bs, lookup-insert b.block_id j b retrieved)

seen-in :
    (retrieved : List (BlockId × Block)) (bs : List Block)
    → ((j : BlockId) → count j (ids_of bs) ≤ 1)
    → All (λ b. lookup b.block_id (seen retrieved bs) ≡ some b) bs
seen-in retrieved [] h = tt
seen-in retrieved (b ∷ bs) h = (
  ground (
    arith,
    h b.block_id,
    seen-out b.block_id (insert b.block_id b retrieved) bs,
    lookup-insert b.block_id b.block_id b retrieved,
  ),
  seen-in (insert b.block_id b retrieved) bs (λ j. omega (arith, h j)),
)

abbrev Out : List (BlockId × Block) → BlockId → Type 0
Out retrieved j = lookup j retrieved ≡ none

-- No id of a list is seen, if none that occurs in it is.
apart :
    (retrieved : List (BlockId × Block)) (ids : List BlockId)
    → ((j : BlockId) → 1 ≤ count j ids → Out retrieved j)
    → NotSeen retrieved ids
apart retrieved [] h = tt
apart retrieved (i ∷ ids) h =
    (h i (ground arith), apart retrieved ids (λ j le. h j (omega (arith, le))))

siblings :
    {look : View} {n : ℕ} {bs : List Block} {es' : Entries} (hs : HoldsAll look n bs es')
    (retrieved : List (BlockId × Block)) (target : Block)
    → All (λ b. lookup b.block_id retrieved ≡ some b) bs
    → count target.block_id (ids_of bs) ≡ 0
    → ((j : BlockId) → count j (ids_of bs) + 1 ≤ uses_all j hs → Out retrieved j)
    → All (IsSibling retrieved target) bs
unfolding uses_all
siblings none_left retrieved target there differs out = tt
siblings (one_more {b} h hs) retrieved target (here, there) differs out =
    let kids = Holds-Children h in
    (
      record {
        there = here;
        differs = ground (arith, differs);
        children = kids.ids;
        has = kids.has;
        apart =
            apart retrieved kids.ids
              (λ j le. out j (omega (arith, le, kids.within j, count-uses_all j hs)));
      },
      siblings hs retrieved target there (omega (arith, differs))
          (λ j le. out j (omega (arith, le))),
    )

-- The blocks of a response that are all directories or files of the tree.
pub look-map :
    {look : View} {n : ℕ} {bs : List Block} {es : Entries}
    → HoldsAll look n bs es
    → map look (ids_of bs) ≡ map some bs
look-map none_left = refl
look-map (one_more h hs) = cc (look-Holds h, look-map hs)

-- The blocks that the search has seen when it meets the target.
abbrev pub retrieved_of :
    {look : View} {n : ℕ} {bs : List Block} {es : Entries} {h : HoldsAll look n bs es}
    {name : Bytes}
    → Found h name
    → List (BlockId × Block)
retrieved_of r = insert (r.target).block_id r.target (seen [] r.front)

module _ {look : View} {n : ℕ} {bs : List Block} {es : Entries} {h : HoldsAll look n bs es}
    {name : Bytes} (r : Found h name) (distinct : (j : BlockId) → uses_all j h ≤ 1) where
  target-seen : lookup (r.target).block_id (retrieved_of r) ≡ some r.target
  target-seen =
      ground
        (arith, lookup-insert (r.target).block_id (r.target).block_id r.target (seen [] r.front))

  target-differs : count (r.target).block_id (ids_of r.front) ≡ 0
  target-differs = ground (
    arith,
    distinct (r.target).block_id,
    r.used (r.target).block_id,
    count-uses_all (r.target).block_id r.front_holds,
  )

  Out-seen :
      (j : BlockId)
      → count j (ids_of r.front) + hit j (r.target).block_id ≡ 0
      → Out (retrieved_of r) j
  unfolding lookup
  Out-seen j e =
      ground (
        arith,
        lookup-insert (r.target).block_id j r.target (seen [] r.front),
        seen-out j [] r.front,
      )

  front-seen : All (λ b. lookup b.block_id (retrieved_of r) ≡ some b) r.front
  front-seen =
      keep r.front
        (seen-in [] r.front
          (λ j. omega (arith, distinct j, r.used j, count-uses_all j r.front_holds)))
        target-differs
    where
      keep :
          (bs' : List Block)
          → All (λ b. lookup b.block_id (seen [] r.front) ≡ some b) bs'
          → count (r.target).block_id (ids_of bs') ≡ 0
          → All (λ b. lookup b.block_id (retrieved_of r) ≡ some b) bs'
      keep [] hs e = tt
      keep (b ∷ bs') (here, hs) e = (
        ground (arith, lookup-insert (r.target).block_id b.block_id r.target (seen [] r.front)),
        keep bs' hs (omega (arith, e)),
      )

  front-siblings : All (IsSibling (retrieved_of r) r.target) r.front
  front-siblings =
      siblings r.front_holds (retrieved_of r) r.target front-seen target-differs
        (λ j le. Out-seen j (omega (arith, distinct j, r.used j, le)))

module _ {S : Type 0} (manager : BlockManager S) (contract : IsBlockManager manager)
    (fuse : BlockFuse S) (valid : contract.IsValid fuse.blocks) (name : Bytes)
    (part : list_beq name get_separator ≡ false) (from : Block) {d : DirFileBlockData}
    (is : from.data_ ≡ dir_file d) where
  -- In a directory the search finds the first entry of the name.
  pub get_path_part-Found :
      {n : ℕ} {inner : List Block} {es : Entries} (fuel : ℕ)
      (kids : HoldsAll (contract.look fuse.blocks) n inner es)
      → d.children ≡ ids_of inner
      → ((j : BlockId) → hit j from.block_id + uses_all j kids ≤ 1)
      → (r : Found kids name)
      → get_path_part manager (suc fuel) name (some from) fuse ≡ ok (r.target ∷ [], fuse)
  get_path_part-Found {inner} fuel kids children distinct r =
      let split : ids_of inner ≡ ids_of r.front ++ (r.target).block_id ∷ ids_of r.behind =
        ap ids_of r.whole ∙ ids_of-append r.front (r.target ∷ r.behind) in
      let looks =
        sym (ap (map (contract.look fuse.blocks)) split) ∙ look-map kids ∙ ap (map some) r.whole in
      let differs : (from.block_id == (r.target).block_id) ≡ false =
        ground (arith, distinct (r.target).block_id, r.used (r.target).block_id) in
      get_path_part-first manager contract fuel name from d r.front r.behind r.target fuse valid
        part is (children ∙ split) looks r.unnamed r.named differs
        (front-siblings r (λ j. omega (arith, distinct j)))
        (target-seen r (λ j. omega (arith, distinct j)))

  -- In a directory without the name, and in a file, it finds nothing.
  get_path_part-none :
      (fuel : ℕ) (retrieved : List (BlockId × Block))
      → search_layers manager fuel name d.children [] fuse.blocks
        ≡ ok (none, (retrieved, fuse.blocks))
      → get_path_part manager fuel name (some from) fuse ≡ ok ([], fuse)
  unfolding get_path_part try_cast_dir_file
  get_path_part-none fuel retrieved searched = rw (part, is, searched)

  search_layers-Missing :
      (fuel : ℕ) (inner : List Block)
      → manager.get_blocks (ids_of inner) fuse.blocks ≡ ok (map some inner, fuse.blocks)
      → All (IsOther name) inner
      → (retrieved : List (BlockId × Block)) × (search_layers manager
            (suc fuel)
            name
            (ids_of inner)
            []
            fuse.blocks
          ≡ ok (none, (retrieved, fuse.blocks)))
  unfolding search_layers
  search_layers-Missing fuel [] got others = ([], refl)
  search_layers-Missing fuel (b ∷ inner) got others =
      (seen [] (b ∷ inner), rw (got, get_path_part_helper-absent name (b ∷ inner) [] others))

  pub get_path_part-Missing :
      {n : ℕ} {inner : List Block} {es : Entries} (fuel : ℕ)
      (kids : HoldsAll (contract.look fuse.blocks) n inner es)
      → d.children ≡ ids_of inner
      → Missing inner es name
      → get_path_part manager (suc fuel) name (some from) fuse ≡ ok ([], fuse)
  get_path_part-Missing {inner} fuel kids children r =
      let got = contract.get (ids_of inner) inner fuse.blocks valid (look-map kids) in
      let (retrieved, searched) = search_layers-Missing fuel inner got r.unnamed in
      get_path_part-none (suc fuel) retrieved
        (ap (λ ids. search_layers manager (suc fuel) name ids [] fuse.blocks) children ∙ searched)

  pub get_path_part-file :
      {n : ℕ} {text : Bytes} (t : Stores (contract.look fuse.blocks) n d.children text)
      → get_path_part manager (suc n) name (some from) fuse ≡ ok ([], fuse)
  get_path_part-file {n} t =
      let (retrieved, searched) =
        search_layers-Stores manager contract fuse.blocks valid name t [] in
      get_path_part-none (suc n) retrieved searched

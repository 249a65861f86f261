-- ===== src/Fs/BlockFuse/Represents/Found.antt =====
-- The first child of a name among the children of a directory in lib/src/fs/block_fuse.cc, and what
-- is before and behind it.
use pingfs.Base.{
  ℕ, ◌+◌, ◌≤◌, true, false, List, [], ◌∷◌, ◌++◌, none, some, Bytes, ◌≡◌, refl, sym, ap, subst,
  arith, All, list_beq, nat_eq, Bool-cases, ◌⊎◌, inl, inr,
}
use pingfs.BlockData.Data.{BlockId}
use pingfs.BlockData.Block.{Block}
use pingfs.Fs.BlockUtil.{try_cast_dir_file, try_cast_link, get_children}
use pingfs.Fs.BlockUtil.Stores.{View, Stores}
use pingfs.Fs.BlockUtil.Layers.{ids_of}
use Stores.{nil, leaf, node}
use pingfs.Fs.Tree.{Entry, Entries, name_of, ◌+++◌, find, without}
use Entries.{nothing, more}
use pingfs.Fs.BlockFuse.{is_named, children_of_link}
use pingfs.Fs.BlockFuse.Search.{IsOther}
use pingfs.Fs.BlockFuse.Represents.{
  Holds, HoldsAll, of_directory, of_file, none_left, one_more, count, cells, under, uses_all, uses,
}

pub record Missing (bs : List Block) (es : Entries) (name : Bytes) : Type 0 where
  pub absent : find name es ≡ none
  pub unnamed : All (IsOther name) bs

module _ {look : View} {n : ℕ} where
  pub is_named-Holds :
      {b : Block} {e : Entry} (name : Bytes)
      → Holds look n b e
      → is_named b name ≡ list_beq (name_of e) name
  unfolding is_named try_cast_dir_file
  is_named-Holds name (of_directory at is type children kids) = rw is
  is_named-Holds name (of_file at is type stored) = rw is

  pub children_of_link-Holds : {b : Block} {e : Entry} → Holds look n b e → children_of_link b ≡ []
  unfolding children_of_link try_cast_link
  children_of_link-Holds (of_directory at is type children kids) = rw is
  children_of_link-Holds (of_file at is type stored) = rw is

  pub look-Holds : {b : Block} {e : Entry} → Holds look n b e → look b.block_id ≡ some b
  look-Holds (of_directory at is type children kids) = at
  look-Holds (of_file at is type stored) = at

  pub record Found {bs : List Block} {es : Entries} (h : HoldsAll look n bs es) (name : Bytes)
      : Type 0 where
    pub front : List Block
    pub target : Block
    pub behind : List Block
    pub before : Entries
    pub entry : Entry
    pub after : Entries
    pub whole : bs ≡ front ++ target ∷ behind
    pub found : find name es ≡ some entry
    pub others : without name es ≡ before +++ after
    pub front_holds : HoldsAll look n front before
    pub target_holds : Holds look n target entry
    pub behind_holds : HoldsAll look n behind after
    pub named : is_named target name ≡ true
    pub unnamed : All (IsOther name) front
    pub used :
        (j : BlockId)
        → uses_all j h ≡ uses_all j front_holds + (uses j target_holds + uses_all j behind_holds)

  Found-here :
      {b : Block} {e : Entry} {bs : List Block} {es : Entries} (h : Holds look n b e)
      (hs : HoldsAll look n bs es) (name : Bytes)
      → list_beq (name_of e) name ≡ true
      → Found (one_more h hs) name
  unfolding find without uses_all
  Found-here {b} {e} {bs} {es} h hs name same = record {
    front = [];
    target = b;
    behind = bs;
    before = nothing;
    entry = e;
    after = es;
    whole = refl;
    found = rw same;
    others = rw same;
    front_holds = none_left;
    target_holds = h;
    behind_holds = hs;
    named = rw (is_named-Holds name h) same;
    unnamed = tt;
    used = λ j. omega arith;
  }

  Found-later :
      {b : Block} {e : Entry} {bs : List Block} {es : Entries} (h : Holds look n b e)
      (hs : HoldsAll look n bs es) (name : Bytes)
      → list_beq (name_of e) name ≡ false
      → Found hs name
      → Found (one_more h hs) name
  unfolding find without uses_all
  Found-later {b} {e} h hs name differs r = record {
    front = b ∷ r.front;
    target = r.target;
    behind = r.behind;
    before = more e r.before;
    entry = r.entry;
    after = r.after;
    whole = ap (◌∷◌ b) r.whole;
    found = rw differs r.found;
    others = rw differs (ap (more e) r.others);
    front_holds = one_more h r.front_holds;
    target_holds = r.target_holds;
    behind_holds = r.behind_holds;
    named = r.named;
    unnamed = ((rw (is_named-Holds name h) differs, children_of_link-Holds h), r.unnamed);
    used = λ j. omega (arith, r.used j);
  }

  pub find-cases :
      {bs : List Block} {es : Entries} (h : HoldsAll look n bs es) (name : Bytes)
      → Missing bs es name ⊎ Found h name
  unfolding find
  find-cases none_left name = inl (record { absent = refl; unnamed = tt })
  find-cases (one_more {b} {e} h hs) name = elim (Bool-cases (list_beq (name_of e) name)) [
    | inl same ↦ inr (Found-here h hs name same)
    | inr differs ↦ elim (find-cases hs name) [
      | inr r ↦ inr (Found-later h hs name differs r)
      | inl r ↦ inl (record {
        absent = rw differs r.absent;
        unnamed = ((rw (is_named-Holds name h) differs, children_of_link-Holds h), r.unnamed);
      })
    ]
  ]

-- The ids of the children count as used.
module _ {look : View} (j : BlockId) where
  count-cells :
      {d : ℕ} {ids : List BlockId} {text : Bytes} (t : Stores look d ids text)
      → count j ids ≤ cells j t
  unfolding cells
  count-cells nil = omega arith
  count-cells (leaf at is rest) = omega (arith, count-cells rest)
  count-cells (node at is inner rest) = omega (arith, count-cells rest)

  pub count-uses_all :
      {n : ℕ} {bs : List Block} {es : Entries} (h : HoldsAll look n bs es)
      → count j (ids_of bs) ≤ uses_all j h
  unfolding uses_all
  count-uses_all none_left = omega arith
  count-uses_all (one_more h hs) = omega (arith, count-uses_all hs)

-- The children of a block, which are used below it.
pub record Children {look : View} {n : ℕ} {b : Block} {e : Entry} (h : Holds look n b e)
    : Type 0 where
  pub ids : List BlockId
  pub has : get_children b ≡ some ids
  pub within : (j : BlockId) → count j ids ≤ under j h

pub Holds-Children :
    {look : View} {n : ℕ} {b : Block} {e : Entry} (h : Holds look n b e) → Children h
unfolding under get_children try_cast_link try_cast_dir_file
Holds-Children (of_directory {d} at is type children kids) = record {
  ids = d.children;
  has = rw is;
  within = λ j. subst (λ ids. count j ids ≤ uses_all j kids) (sym children) (count-uses_all j kids);
}
Holds-Children (of_file {d} at is type stored) = record {
  ids = d.children;
  has = rw is;
  within = λ j. count-cells j stored;
}

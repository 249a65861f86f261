-- ===== src/Fs/Tree.antt =====
-- The abstract view of the file system of lib/src/fs/block_fuse.cc: a tree of names, without blocks
-- and ids. What the operations do to the blocks is stated against the operations of this tree.
pub mod Laws
pub mod Resolve
pub mod Unique
use Prim.Native.Nat.{max}
use pingfs.Base.{
  ℕ, suc, Bool, true, false, if◌then◌else◌, List, [], ◌∷◌, Option, none, some, Bytes, list_beq,
  nat_eq,
}
use pingfs.BlockData.Stat.{Stat}

mutual
  pub data Entry : Type 0 where
    directory : Bytes → Stat → Entries → Entry
    file : Bytes → Stat → Bytes → Entry

  pub data Entries : Type 0 where
    nothing : Entries
    more : Entry → Entries → Entries

abbrev pub name_of : Entry → Bytes
name_of (directory name stat es) = name
name_of (file name stat text) = name

abbrev pub stat_of : Entry → Stat
stat_of (directory name stat es) = stat
stat_of (file name stat text) = stat

abbrev pub entries_of : Entry → Entries
entries_of (directory name stat es) = es
entries_of (file name stat text) = nothing

abbrev pub is_directory : Entry → Bool
is_directory (directory name stat es) = true
is_directory (file name stat text) = false

infixr 40 ◌+++◌
abbrev pub ◌+++◌ : Entries → Entries → Entries
nothing +++ fs = fs
more e es +++ fs = more e (es +++ fs)

-- The generations of blocks below an entry, when a file has at most `n` layers of links.
unfoldable mutual
  pub depth : ℕ → Entry → ℕ
  depth n (directory name stat es) = suc (depth_all n es)
  depth n (file name stat text) = suc n

  pub depth_all : ℕ → Entries → ℕ
  depth_all n nothing = 0
  depth_all n (more e es) = max (depth n e) (depth_all n es)

-- A new entry comes last.
abbrev pub add_entry : Entry → Entries → Entries
add_entry e es = es +++ more e nothing

-- The first entry of a name.
unfoldable pub find : Bytes → Entries → Option Entry
find name nothing = none
find name (more e es) = if list_beq (name_of e) name then some e else find name es

unfoldable pub without : Bytes → Entries → Entries
without name nothing = nothing
without name (more e es) = if list_beq (name_of e) name then es else more e (without name es)

unfoldable pub resolve : List Bytes → Entry → Option Entry
unfolding find
resolve [] e = some e
resolve (name ∷ names) (file _ _ _) = none
resolve (name ∷ names) (directory _ _ es) = elim (find name es) [
  | none ↦ none
  | some e ↦ resolve names e
]

-- Changes the entries of the directory that the names lead to. Each directory on the way moves to
-- the end of the entries of the one above.
unfoldable pub rebuild : List Bytes → (Entries → Entries) → Entry → Option Entry
unfolding find without
rebuild names f (file _ _ _) = none
rebuild [] f (directory name stat es) = some (directory name stat (f es))
rebuild (next ∷ names) f (directory name stat es) = elim (find next es) [
  | none ↦ none
  | some e ↦ elim (rebuild names f e) [
    | none ↦ none
    | some e' ↦ some (directory name stat (without next es +++ more e' nothing))
  ]
]
